-- ===== src/Jobs/Tests/Ports.antt =====
-- The theorems on the custody ports at a job under custody whose work item is leased.
use lotus_report.Prelude.{◌≡◌, refl, true, some, List, [], ◌∷◌}
use lotus_report.Sql.{fetchone, rowcount, connect, update}
use lotus_report.Jobs.Tables.{JobRow, CustodyState, Db, required_policy, update_jobs}
use lotus_report.Jobs.Ports.{
  Bindings, CustodyLease, PortOperation, PortCall, authorize, reserve, run_ports, spend,
  record_owner_due, block, postpone,
}
use lotus_report.Jobs.Ports.Reserved.{IsGranted, reserve-IsGranted}
use lotus_report.Jobs.Ports.Quiet.{IsCounted}
use lotus_report.Jobs.Ports.Budgeted.{granted, run_ports-IsWithinBudgets}
use lotus_report.Jobs.Work.Custody.{execute_update}
use lotus_report.Jobs.Tests.{worker, accepted_job, accepted_event}
use lotus_report.Jobs.Tests.Queue.{leased_item}

abbrev kept_job : JobRow
kept_job = record accepted_job {
  custody_policy = some required_policy;
  custody_state = some CustodyState.ready;
}

abbrev kept : Db
kept = record {
  jobs = kept_job ∷ [];
  work_items = leased_item 1 ∷ [];
  events = accepted_event ∷ [];
}

abbrev bindings : Bindings
bindings = some (λ operation job_id tenant_id region. true)

abbrev lease : CustodyLease
lease = record { work_item_id = "work-1"; token = "token-1"; epoch = 0 }

reserve-IsGranted_example :
    IsGranted "job-1" "private-bank" "SG" lease PortOperation.initial 7 1000000 kept
      (reserve bindings "job-1" "private-bank" "SG" lease PortOperation.initial 7 worker kept).1
unfolding reserve authorize spend execute_update update_jobs fetchone rowcount connect
reserve-IsGranted_example =
    reserve-IsGranted bindings "job-1" "private-bank" "SG" lease PortOperation.initial 7 worker kept
      refl

abbrev calls : List PortCall
calls =
    PortCall.reserve_call "job-1" "private-bank" "SG" lease PortOperation.initial 7 worker
    ∷ PortCall.due_call "job-1" "private-bank" "SG" lease 2000000 worker
    ∷ PortCall.reserve_call "job-1" "private-bank" "SG" lease PortOperation.initial 7 worker
    ∷ PortCall.block_call "job-1" "private-bank" "SG" lease worker
    ∷ []

granted_once : granted bindings PortOperation.initial "job-1" calls kept ≡ 1
unfolding granted reserve record_owner_due block authorize spend postpone execute_update update_jobs
    fetchone rowcount connect update
granted_once = refl

run_ports-IsWithinBudgets_example :
    IsCounted PortOperation.initial "job-1" kept
      (run_ports bindings calls kept)
      (granted bindings PortOperation.initial "job-1" calls kept)
run_ports-IsWithinBudgets_example =
    run_ports-IsWithinBudgets PortOperation.initial "job-1" bindings calls kept
