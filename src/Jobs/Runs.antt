-- ===== src/Jobs/Runs.antt =====
-- Report jobs and their work queue together: every operation of `ReportJobLedger` that moves a job or
-- a work item, as one type of commands, and their runs.
pub mod Sound
pub mod Refines
use lotus_report.Prelude.{ℕ, String, List, [], ◌∷◌}
use lotus_report.Clock.{Time}
use lotus_report.Jobs.Tables.{Db}
use lotus_report.Jobs.Custody.{Context}
use lotus_report.Jobs.Transition.Marks.{Operation, apply}
use lotus_report.Jobs.Work.{ReportJobWorkRetryPolicy}
use lotus_report.Jobs.Work.Queue.{complete_work_item, defer_work_item}
use lotus_report.Jobs.Work.Failure.{fail_work_item}
use lotus_report.Jobs.Work.Claims.{claim_work_items}

pub data Command : Type 0 where
  operate : String → Operation → Context → Command
  claim : String → ℕ → ℕ → Time → (String → String) → (String → Context) → Command
  complete : String → String → Context → Time → Command
  defer : String → String → String → ℕ → Context → Time → Command
  fail : String → String → String → String → Context → Time → Command

-- The tables after one command, whatever it returns or raises.
unfoldable pub execute : ReportJobWorkRetryPolicy → Command → Db → Db
execute policy (operate job_id op ctx) db = apply job_id op ctx db
execute policy (claim worker limit n now tokens draws) db =
    (claim_work_items worker limit n policy now tokens draws db).1
execute policy (complete i token ctx now) db = (complete_work_item i token ctx now db).1
execute policy (defer i token reason delay ctx now) db =
    (defer_work_item i token reason delay ctx now db).1
execute policy (fail i token category summary ctx now) db =
    (fail_work_item i token category summary policy ctx now db).1

-- Any sequence of commands, of any callers and workers, under one retry policy.
unfoldable pub run : ReportJobWorkRetryPolicy → List Command → Db → Db
unfolding execute
run policy [] db = db
run policy (c ∷ cs) db = run policy cs (execute policy c db)
