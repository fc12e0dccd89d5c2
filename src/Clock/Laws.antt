-- ===== src/Clock/Laws.antt =====
-- How far the order of the stored texts is the order of time.
use lotus_report.Prelude.{◌+◌, ◌*◌, ◌%◌, ◌≤◌, ◌<◌, ◌≡◌, ◌≢◌, true, false, arith, ltb, ℕ}
use lotus_report.Clock.Text.{Time, second, before, not_after}

-- Between two times that both carry a fraction of a second the texts are ordered as the times are.
pub before_fractions : (a b : Time) → a % second ≢ 0 → b % second ≢ 0 → before a b ≡ ltb a b
unfolding before
before_fractions a b ha hb = ground arith

pub before_of_second : (a b : Time) → a + second ≤ b → before a b ≡ true
unfolding before
before_of_second a b h = ground arith

pub before-lt : (a b : Time) → before a b ≡ true → a < b + second
unfolding before
before-lt a b h = ground arith

pub not_after-lt : (a b : Time) → not_after a b ≡ true → a < b + second
unfolding not_after
not_after-lt a b h = ground arith

pub not_after_of_second : (a b : Time) → a + second ≤ b → not_after a b ≡ true
unfolding not_after
not_after_of_second a b h = ground arith

-- A time on the whole second sorts after every later time of the same second.
pub before_inverted :
    (s f : ℕ)
    → 0 < f
    → f < second
    → (before (s * second) (s * second + f) ≡ false) × (before (s * second + f) (s * second) ≡ true)
unfolding before
before_inverted s f h k = ground arith
