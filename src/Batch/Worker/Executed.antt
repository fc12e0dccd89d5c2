-- ===== src/Batch/Worker/Executed.antt =====
-- The calls of the batch ledger in a pass, and the execution of an item, keep the invariant of the
-- batch ledger.
use lotus_report.Prelude.{Option-cases, ℕ, String, not, inl, inr, Bool-cases, str_eq}
use lotus_report.Sql.{fetchone, Result, ok, err, after_keeps}
use lotus_report.Clock.{Time}
use lotus_report.Batch.Models.{BatchItemStatus, item_is, ItemRow, ReportBatchRecord}
use lotus_report.Batch.Admission.{get_batch}
use lotus_report.Batch.Ledger.Tables.{LedgerError, is_item}
use lotus_report.Batch.Ledger.Items.{
  Failure, mark_item_failed, mark_item_succeeded, mark_item_waiting_on_report_job,
}
use lotus_report.Batch.Ledger.Control.{acquire_dispatch_items, recover_expired_leases}
use lotus_report.Batch.Ledger.Soundness.{IsSound}
use lotus_report.Batch.Ledger.Preservation.{execute-IsSound}
use lotus_report.Batch.Ledger.Commands.{Command, execute}
use lotus_report.Batch.World.{PassError, World, on_ledger}
use lotus_report.Jobs.Status.{ReportJobStatus, job_is}
use lotus_report.Batch.Execution.{
  BatchItemExecutionResult, JobRunner, JobView, JobExecution, Lookup, found, absent, fault,
  is_successful_job, fail_item, settle_job, settle_execution, run_linked, execute_loaded,
  execute_item,
}

module _ {J : Type 0} where
  abbrev pub Sound : World J → Type 0
  Sound w = IsSound w.db

  pub failed-IsSound :
      (id : String) (e : Failure) (now : Time) (w : World J)
      → Sound w
      → Sound (on_ledger (mark_item_failed id e now) w).1
  unfolding execute
  failed-IsSound id e now w h = execute-IsSound w.db h (Command.fail id e now)

  succeeded-IsSound :
      (id job : String) (now : Time) (w : World J)
      → Sound w
      → Sound (on_ledger (mark_item_succeeded id job now) w).1
  unfolding execute
  succeeded-IsSound id job now w h = execute-IsSound w.db h (Command.succeed id job now)

  pub waiting-IsSound :
      (id token job : String) (now : Time) (w : World J)
      → Sound w
      → Sound (on_ledger (mark_item_waiting_on_report_job id token job now) w).1
  unfolding execute
  waiting-IsSound id token job now w h = execute-IsSound w.db h (Command.wait id token job now)

  pub acquired-IsSound :
      (b w token : String) (n limit : ℕ) (now : Time) (v : World J)
      → Sound v
      → Sound (on_ledger (acquire_dispatch_items b w token n limit now) v).1
  unfolding execute
  acquired-IsSound b w token n limit now v h =
      execute-IsSound v.db h (Command.acquire b w token n limit now)

  pub recovered-IsSound :
      (b : String) (now : Time) (w : World J)
      → Sound w
      → Sound (on_ledger (recover_expired_leases b now) w).1
  unfolding execute
  recovered-IsSound b now w h = execute-IsSound w.db h (Command.recover b now)

  fail_item-IsSound :
      (b : String) (item : ItemRow) (job status : String) (e : Failure) (now : Time) (w : World J)
      → Sound w
      → Sound (fail_item b item job status e now w).1
  unfolding fail_item
  fail_item-IsSound b item job status e now w h =
      after_keeps Sound (on_ledger (mark_item_failed item.batch_item_id e now) w) _
        (failed-IsSound item.batch_item_id e now w h) (λ r v k. k)

  settle_job-IsSound :
      (b : String) (item : ItemRow) (job : JobView) (m : ℕ) (now : Time) (w : World J)
      → Sound w
      → Sound (settle_job b item job m now w).1
  settle_job-IsSound b item job m now w h = elim (Bool-cases (is_successful_job job)) [
    | inl e ↦ rw e (
        after_keeps Sound (on_ledger (mark_item_succeeded item.batch_item_id job.job_id now) w) _
          (succeeded-IsSound item.batch_item_id job.job_id now w h) (λ r v k. k))
    | inr e ↦ elim (Bool-cases (job_is job.status ReportJobStatus.failed)) [
      | inl f ↦ rw (e, f) (fail_item-IsSound b item job.job_id _ _ now w h)
      | inr f ↦ rw (e, f) h
    ]
  ]

  settle_execution-IsSound :
      (b : String) (item : ItemRow) (job_id : String) (m : ℕ) (now : Time)
      (result : Result String JobExecution) (w : World J)
      → Sound w
      → Sound (settle_execution b item job_id m now result w).1
  settle_execution-IsSound b item job_id m now (ok execution) w h =
      settle_job-IsSound b item execution.job m now w h
  settle_execution-IsSound b item job_id m now (err text) w h =
      fail_item-IsSound b item job_id _ _ now w h

module _ {J : Type 0} (runner : JobRunner J) where
  run_linked-IsSound :
      (batch : ReportBatchRecord) (item : ItemRow) (job_id : String) (m : ℕ) (now : Time)
      (l : Lookup) (w : World J)
      → Sound w
      → Sound (run_linked runner batch item job_id m now l w).1
  unfolding run_linked
  run_linked-IsSound batch item job_id m now absent w h =
      fail_item-IsSound batch.batch_id item job_id _ _ now w h
  run_linked-IsSound batch item job_id m now (fault text) w h =
      fail_item-IsSound batch.batch_id item job_id _ _ now w h
  run_linked-IsSound batch item job_id m now (found job) w h =
      elim (Bool-cases (str_eq job.tenant_id batch.tenant_id)) [
        | inl e ↦ rw e (
            settle_execution-IsSound batch.batch_id item job_id m now
              (runner.execute_job job_id w.jobs).0
              (record w { jobs = (runner.execute_job job_id w.jobs).1 }) h)
        | inr e ↦ rw e (fail_item-IsSound batch.batch_id item job_id _ _ now w h)
      ]

  execute_loaded-IsSound :
      (batch : ReportBatchRecord) (id : String) (m : ℕ) (now : Time) (w : World J)
      → Sound w
      → Sound (execute_loaded runner batch id m now w).1
  execute_loaded-IsSound batch id m now w h =
      elim (Option-cases (fetchone (is_item id) batch.items)) [
        | inl n ↦ rw (n, execute_loaded) h
        | inr (item, f) ↦
            elim (Bool-cases (not (item_is item.status BatchItemStatus.waiting_on_report_job))) [
              | inl e ↦ rw (f, execute_loaded, e) h
              | inr e ↦ elim (Option-cases item.report_job_id) [
                | inl n ↦ rw (f, execute_loaded, e, n) h
                | inr (job_id, l) ↦
                    rw (f, execute_loaded, e, l)
                      (run_linked-IsSound batch item job_id m now (runner.get_job job_id w.jobs) w
                        h)
              ]
            ]
      ]

  pub execute_item-IsSound :
      (b id : String) (m : ℕ) (now : Time) (w : World J)
      → Sound w
      → Sound (execute_item runner b id m now w).1
  unfolding execute_item
  execute_item-IsSound b id m now w h = go (get_batch b w.db)
    where
      go :
          (r : Result LedgerError ReportBatchRecord)
          → Sound (
              let x : Result PassError BatchItemExecutionResult × World J = elim r [
                | err e ↦ (err (PassError.ledger_error e), w)
                | ok batch ↦ execute_loaded runner batch id m now w
              ] in
              x.1)
      go (err e) = h
      go (ok batch) = execute_loaded-IsSound batch id m now w h
