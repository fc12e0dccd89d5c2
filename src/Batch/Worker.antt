-- ===== src/Batch/Worker.antt =====
-- src/app/report_batch_orchestrator/worker.py: one bounded pass over one batch.
pub mod Executed
pub mod Steps
pub mod Passes
use Prim.Native.String.{◌++◌ as text_append}
use lotus_report.Prelude.{
  ℕ, suc, String, Bool, true, false, not, ◌&&◌, ◌||◌, Option, none, some, List, [], ◌∷◌, map,
  length, if◌then◌else◌, is_none,
}
use lotus_report.Sql.{Result, ok, err, Call, after, select}
use lotus_report.Clock.{Time}
use lotus_report.Batch.Models.{
  BatchStatus, BatchItemStatus, item_is, ItemRow, ReportBatchRecord, BatchRecoveryResult,
}
use lotus_report.Batch.Selector.{ReportCallerContext}
use lotus_report.Batch.Admission.{get_batch, admit_batch}
use lotus_report.Batch.Ledger.Tables.{Db, LedgerError, is_active}
use lotus_report.Batch.Ledger.Control.{recover_expired_leases}
use lotus_report.Batch.Dispatch.{dispatch_batch}
use lotus_report.Batch.World.{
  BatchRuntimeLoad, BatchDispatchPolicy, BatchDispatchResult, PassError, World, JobCreation,
  PassDraws, on_ledger, ledger_answer,
}
use lotus_report.Batch.Execution.{JobRunner, BatchItemExecutionResult, execute_item}

pub record BatchWorkerRunResult : Type 0 where
  pub batch_id : String
  pub batch_status_before : BatchStatus
  pub batch_status_after : BatchStatus
  pub recovered_count : ℕ
  pub leased_count : ℕ
  pub dispatched_count : ℕ
  pub executed_count : ℕ
  pub report_job_ids : List String
  pub back_pressure_reasons : List String
  pub skipped_reason : Option String
  pub execution_results : List BatchItemExecutionResult

-- The arguments of a pass, and what it draws from outside.
pub record PassRequest : Type 0 where
  pub worker_id : String
  pub runtime_load : BatchRuntimeLoad
  pub dispatch_policy : BatchDispatchPolicy
  pub recover : Bool
  pub max_attempts : ℕ
  pub draws : PassDraws
  pub recovered_at : Time
  pub executed_at : ℕ → Time

abbrev batch_status_text : BatchStatus → String
batch_status_text BatchStatus.materialized = "materialized"
batch_status_text BatchStatus.running = "running"
batch_status_text BatchStatus.paused = "paused"
batch_status_text BatchStatus.cancelled = "cancelled"
batch_status_text BatchStatus.completed = "completed"
batch_status_text BatchStatus.completed_with_failures = "completed_with_failures"
batch_status_text BatchStatus.failed = "failed"

-- The ids of the items that wait on a report job.
abbrev pub waiting_item_ids : ReportBatchRecord → List String
waiting_item_ids batch =
    map (λ (r : ItemRow). r.batch_item_id)
      (select
        (λ (r : ItemRow).
          item_is r.status BatchItemStatus.waiting_on_report_job && not (is_none r.report_job_id))
        batch.items)

abbrev pub skipped : String → BatchStatus → BatchWorkerRunResult
skipped batch_id status = record {
  batch_id = batch_id;
  batch_status_before = status;
  batch_status_after = status;
  recovered_count = 0;
  leased_count = 0;
  dispatched_count = 0;
  executed_count = 0;
  report_job_ids = [];
  back_pressure_reasons = [];
  skipped_reason = some (text_append "batch_not_runnable:" (batch_status_text status));
  execution_results = [];
}

module _ {J : Type 0} (creation : JobCreation J) (runner : JobRunner J) where
  unfoldable pub execute_each :
      String
      → ℕ
      → (ℕ → Time)
      → ℕ
      → List String
      → Call (World J) PassError (List BatchItemExecutionResult)
  execute_each batch_id m executed_at k [] w = (ok [], w)
  execute_each batch_id m executed_at k (id ∷ ids) w =
      after (execute_item runner batch_id id m (executed_at k) w) λ first w1.
        after (execute_each batch_id m executed_at (suc k) ids w1)
          λ rest w2. (ok (first ∷ rest), w2)

  abbrev pub read_batch : String → Call (World J) PassError ReportBatchRecord
  read_batch batch_id w = (ledger_answer (get_batch batch_id w.db), w)

  -- `_execute_waiting_items`
  abbrev pub execute_waiting_items :
      String → PassRequest → Call (World J) PassError (List BatchItemExecutionResult)
  execute_waiting_items batch_id request w = after (read_batch batch_id w) λ batch w1.
      execute_each batch_id request.max_attempts request.executed_at 0 (waiting_item_ids batch) w1

  abbrev pub recover_first : String → PassRequest → Call (World J) PassError BatchRecoveryResult
  recover_first batch_id request w =
      if request.recover
      then on_ledger (recover_expired_leases batch_id request.recovered_at) w
      else (
        ok (record { batch_id = batch_id; recovered_count = 0; recovery_pending_item_ids = [] }),
        w,
      )

  -- The pass over a batch that is runnable.
  unfoldable pub run_runnable :
      String
      → BatchStatus
      → ReportCallerContext
      → PassRequest
      → Call (World J) PassError BatchWorkerRunResult
  run_runnable batch_id before caller request w =
      after (recover_first batch_id request w) λ recovery w1.
        after
          (dispatch_batch creation batch_id caller request.worker_id request.runtime_load
            request.dispatch_policy request.draws w1)
          λ dispatch w2. after (execute_waiting_items batch_id request w2) λ results w3.
            after (read_batch batch_id w3) λ last w4. (
              ok (record {
                batch_id = batch_id;
                batch_status_before = before;
                batch_status_after = last.status;
                recovered_count = recovery.recovered_count;
                leased_count = dispatch.leased_count;
                dispatched_count = dispatch.dispatched_count;
                executed_count = length results;
                report_job_ids = dispatch.report_job_ids;
                back_pressure_reasons = dispatch.back_pressure_reasons;
                skipped_reason = none;
                execution_results = results;
              }),
              w4,
            )

  abbrev pub run_admitted :
      Result LedgerError ReportBatchRecord
      → String
      → ReportCallerContext
      → PassRequest
      → Call (World J) PassError BatchWorkerRunResult
  run_admitted (err e) batch_id caller request w = (err (PassError.ledger_error e), w)
  run_admitted (ok batch) batch_id caller request w =
      if not (is_active batch.status)
      then (ok (skipped batch_id batch.status), w)
      else run_runnable batch_id batch.status caller request w

  -- `admit_batch(self._batch_ledger.get_batch(batch_id), ...)`
  abbrev pub admitted :
      Result LedgerError ReportBatchRecord
      → ReportCallerContext
      → Result LedgerError ReportBatchRecord
  admitted (err e) caller = err e
  admitted (ok batch) caller = admit_batch batch caller

  unfoldable pub run_once :
      String → ReportCallerContext → PassRequest → Call (World J) PassError BatchWorkerRunResult
  run_once batch_id caller request w =
      run_admitted (admitted (get_batch batch_id w.db) caller) batch_id caller request w
