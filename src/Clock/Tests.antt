-- ===== src/Clock/Tests.antt =====
-- The theorems on stored times at two times.
use lotus_report.Prelude.{◌*◌, ◌+◌, ◌≡◌, true, false, arith}
use lotus_report.Clock.Text.{second, before}
use lotus_report.Clock.Laws.{before_inverted}

before_inverted_example :
    (before (12 * second) (12 * second + 500000) ≡ false)
    × (before (12 * second + 500000) (12 * second) ≡ true)
before_inverted_example = before_inverted 12 500000 (omega arith) (omega arith)
