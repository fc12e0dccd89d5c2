-- ===== src/Batch/Worker/Passes.antt =====
-- A pass keeps the invariant of the batch ledger, and touches nothing that it is not admitted to.
use lotus_report.Prelude.{ℕ, suc, String, not, inl, inr, List, [], ◌∷◌, Bool-cases}
use lotus_report.Sql.{Result, ok, err, after_keeps}
use lotus_report.Clock.{Time}
use lotus_report.Batch.Models.{BatchStatus, ReportBatchRecord}
use lotus_report.Batch.Selector.{ReportCallerContext}
use lotus_report.Batch.Admission.{get_batch}
use lotus_report.Batch.Ledger.Tables.{LedgerError, is_active}
use lotus_report.Batch.Ledger.Soundness.{IsSound}
use lotus_report.Batch.Dispatch.{dispatch_batch}
use lotus_report.Batch.World.{World, JobCreation}
use lotus_report.Batch.Execution.{JobRunner, execute_item}
use lotus_report.Batch.Worker.{
  PassRequest, execute_each, execute_waiting_items, read_batch, recover_first, run_runnable,
  run_admitted, run_once, waiting_item_ids, admitted,
}
use lotus_report.Batch.Worker.Executed.{Sound, recovered-IsSound, execute_item-IsSound}
use lotus_report.Batch.Worker.Steps.{dispatch_batch-IsSound}

module _ {J : Type 0} (creation : JobCreation J) (runner : JobRunner J) where
  execute_each-IsSound :
      (b : String) (m : ℕ) (executed_at : ℕ → Time) (k : ℕ) (ids : List String) (w : World J)
      → Sound w
      → Sound (execute_each creation runner b m executed_at k ids w).1
  unfolding execute_each
  execute_each-IsSound b m executed_at j [] w h = h
  execute_each-IsSound b m executed_at j (id ∷ ids) w h =
      after_keeps Sound (execute_item runner b id m (executed_at j) w) _
        (execute_item-IsSound runner b id m (executed_at j) w h)
        (λ first v k.
          after_keeps Sound (execute_each creation runner b m executed_at (suc j) ids v) _
            (execute_each-IsSound b m executed_at (suc j) ids v k) (λ rest u l. l))

  recover_first-IsSound :
      (b : String) (request : PassRequest) (w : World J)
      → Sound w
      → Sound (recover_first creation runner b request w).1
  recover_first-IsSound b request w h = elim (Bool-cases request.recover) [
    | inl e ↦ rw e (recovered-IsSound b request.recovered_at w h)
    | inr e ↦ rw e h
  ]

  waiting-IsSound :
      (b : String) (request : PassRequest) (w : World J)
      → Sound w
      → Sound (execute_waiting_items creation runner b request w).1
  waiting-IsSound b request w h =
      after_keeps Sound (read_batch creation runner b w) _ h (λ batch v k.
        execute_each-IsSound b request.max_attempts request.executed_at 0 (waiting_item_ids batch) v
          k)

  run_runnable-IsSound :
      (b : String) (status : BatchStatus) (caller : ReportCallerContext) (request : PassRequest)
      (w : World J)
      → Sound w
      → Sound (run_runnable creation runner b status caller request w).1
  unfolding run_runnable
  run_runnable-IsSound b status caller request w h =
      after_keeps Sound (recover_first creation runner b request w) _
        (recover_first-IsSound b request w h)
        (λ recovery w1 h1.
          after_keeps Sound
            (dispatch_batch creation b caller request.worker_id request.runtime_load
              request.dispatch_policy request.draws w1)
            _
            (dispatch_batch-IsSound creation b caller request.worker_id request.runtime_load
              request.dispatch_policy request.draws w1 h1)
            (λ dispatch w2 h2.
              after_keeps Sound (execute_waiting_items creation runner b request w2) _
                (waiting-IsSound b request w2 h2)
                (λ results w3 h3.
                  after_keeps Sound (read_batch creation runner b w3) _ h3 (λ last w4 h4. h4))))

  -- A worker's pass keeps the invariant of the batch ledger, wherever it stops and whatever the
  -- report-job side answers or raises.
  pub run_once-IsSound :
      (b : String) (caller : ReportCallerContext) (request : PassRequest) (w : World J)
      → IsSound w.db
      → IsSound (run_once creation runner b caller request w).1.db
  unfolding run_once
  run_once-IsSound b caller request w h = go (admitted creation runner (get_batch b w.db) caller)
    where
      go :
          (r : Result LedgerError ReportBatchRecord)
          → Sound (run_admitted creation runner r b caller request w).1
      go (err e) = h
      go (ok batch) = elim (Bool-cases (not (is_active batch.status))) [
        | inl e ↦ rw e h
        | inr e ↦ rw e (run_runnable-IsSound b batch.status caller request w h)
      ]
