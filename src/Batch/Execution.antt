-- ===== src/Batch/Execution.antt =====
-- src/app/report_batch_orchestrator/execution.py: the report job of a waiting item is run, or the
-- item is quarantined. The report-job side is a parameter, with a state of its own.
pub mod Quarantine
use lotus_report.Prelude.{
  ℕ, String, Bool, true, false, not, ◌&&◌, ◌||◌, Option, none, some, List, [], ◌∷◌, if◌then◌else◌,
  str_eq, coalesce,
}
use lotus_report.Sql.{Result, ok, err, Call, after, fetchone, is_in}
use lotus_report.Clock.{Time}
use lotus_report.Batch.Models.{BatchItemStatus, item_is, ItemRow, ReportBatchRecord}
use lotus_report.Batch.Admission.{get_batch}
use lotus_report.Batch.Ledger.Tables.{Db, LedgerError, is_item}
use lotus_report.Batch.Ledger.Items.{Failure, mark_item_failed, mark_item_succeeded}
use lotus_report.Batch.World.{PassError, World, on_ledger}
use lotus_report.Jobs.Status.{ReportJobStatus, job_is, one_of}

-- The accepted contract of a document, with its `report_data_contract_version` if that is a text.
pub record DocumentContract : Type 0 where
  pub report_data_contract_version : Option String

-- The part of a report job's record that the batch side reads.
pub record JobView : Type 0 where
  pub job_id : String
  pub tenant_id : String
  pub status : ReportJobStatus
  pub requested_output_formats : List String
  pub failure_category : Option String
  pub failure_message : Option String
  pub retry_eligible : Bool
  pub report_type : String
  pub idempotency_key : String
  pub accepted_document_contract : Option DocumentContract
  pub render_template_id : Option String
  pub render_template_version : Option String
  pub archive_document_id : Option String

-- ReportJobExecutionResult
pub record JobExecution : Type 0 where
  pub job : JobView
  pub waiting_on_owner : Bool

-- What `get_job` does: it finds a job, raises ReportJobNotFoundError, or raises something else with a
-- text.
pub data Lookup : Type 0 where
  found : JobView → Lookup
  absent : Lookup
  fault : String → Lookup

-- `get_job` of the report-job ledger and `execute_job` of its execution service; an exception is its
-- text, or the name of its class where it has none.
pub record JobRunner (J : Type 0) : Type 0 where
  pub get_job : String → J → Lookup
  pub execute_job : String → J → Result String JobExecution × J

pub record BatchItemExecutionResult : Type 0 where
  pub batch_id : String
  pub batch_item_id : String
  pub report_job_id : String
  pub item_status : BatchItemStatus
  pub report_job_status : String
  pub failure_category : Option String
  pub retry_eligible : Bool

abbrev pub status_text : ReportJobStatus → String
status_text ReportJobStatus.accepted = "accepted"
status_text ReportJobStatus.queued = "queued"
status_text ReportJobStatus.collecting_data = "collecting_data"
status_text ReportJobStatus.data_ready = "data_ready"
status_text ReportJobStatus.rendering = "rendering"
status_text ReportJobStatus.completed = "completed"
status_text ReportJobStatus.archiving = "archiving"
status_text ReportJobStatus.archived = "archived"
status_text ReportJobStatus.completed_with_warnings = "completed_with_warnings"
status_text ReportJobStatus.failed = "failed"
status_text ReportJobStatus.cancelled = "cancelled"

-- `_is_successful_job`
unfoldable pub is_successful_job : JobView → Bool
is_successful_job job =
    one_of
      (ReportJobStatus.completed ∷ ReportJobStatus.completed_with_warnings
        ∷ ReportJobStatus.archived ∷ [])
      job.status
    || job_is job.status ReportJobStatus.data_ready
      && not (is_in job.requested_output_formats "pdf")

-- `value or default` of a text
abbrev pub text_or : Option String → String → String
text_or none d = d
text_or (some s) d = if str_eq s "" then d else s

abbrev pub failure : String → String → Bool → ℕ → Failure
failure category summary retryable max_attempts = record {
  error_category = category;
  error_summary = summary;
  retryable = retryable;
  max_attempts = max_attempts;
  next_retry_at = none;
}

-- The answer on an item that was marked as failed.
abbrev pub failed_result : String → String → String → String → ItemRow → BatchItemExecutionResult
failed_result batch_id batch_item_id report_job_id job_status item = record {
  batch_id = batch_id;
  batch_item_id = batch_item_id;
  report_job_id = report_job_id;
  item_status = item.status;
  report_job_status = job_status;
  failure_category = item.last_error_category;
  retry_eligible = item.retry_eligible;
}

abbrev pub job_result : String → String → JobView → BatchItemStatus → BatchItemExecutionResult
job_result batch_id batch_item_id job status = record {
  batch_id = batch_id;
  batch_item_id = batch_item_id;
  report_job_id = job.job_id;
  item_status = status;
  report_job_status = status_text job.status;
  failure_category = none;
  retry_eligible = false;
}

abbrev pub tenant_mismatch_category : String
tenant_mismatch_category = "batch_item_tenant_mismatch"

abbrev pub missing_linked_job_category : String
missing_linked_job_category = "batch_item_report_job_missing"

abbrev missing_summary : String
missing_summary =
    "Linked report job does not exist; execution refused and the item quarantined for operator review."

abbrev mismatch_summary : String
mismatch_summary =
    "Linked report job belongs to a different tenant than its batch; execution refused and the item quarantined for operator review."

module _ {J : Type 0} where
  -- Both `mark_item_failed` and the result that reports it.
  unfoldable pub fail_item :
      String
      → ItemRow
      → String
      → String
      → Failure
      → Time
      → Call (World J) PassError BatchItemExecutionResult
  fail_item batch_id item report_job_id job_status e now w =
      after (on_ledger (mark_item_failed item.batch_item_id e now) w) λ marked w1.
        (ok (failed_result batch_id item.batch_item_id report_job_id job_status marked), w1)

  abbrev pub settle_job :
      String → ItemRow → JobView → ℕ → Time → Call (World J) PassError BatchItemExecutionResult
  settle_job batch_id item job max_attempts now w =
      if is_successful_job job
      then after (on_ledger (mark_item_succeeded item.batch_item_id job.job_id now) w)
          (λ marked w1. (ok (job_result batch_id item.batch_item_id job marked.status), w1))
      else if job_is job.status ReportJobStatus.failed
      then fail_item batch_id item job.job_id (status_text job.status)
          (failure (text_or job.failure_category "report_job_failed")
            (text_or job.failure_message "Report job failed.") job.retry_eligible max_attempts)
          now w
      else (ok (job_result batch_id item.batch_item_id job item.status), w)

  abbrev pub settle_execution :
      String
      → ItemRow
      → String
      → ℕ
      → Time
      → Result String JobExecution
      → Call (World J) PassError BatchItemExecutionResult
  settle_execution batch_id item report_job_id max_attempts now (ok execution) w =
      settle_job batch_id item execution.job max_attempts now w
  settle_execution batch_id item report_job_id max_attempts now (err text) w =
      fail_item batch_id item report_job_id "unknown"
        (failure "batch_execution_failed" text true max_attempts) now w

module _ {J : Type 0} (port : JobRunner J) where
  abbrev pub run_job :
      String → ItemRow → String → ℕ → Time → Call (World J) PassError BatchItemExecutionResult
  run_job batch_id item report_job_id max_attempts now w =
      settle_execution batch_id item report_job_id max_attempts now
        (port.execute_job report_job_id w.jobs).0
        (record w { jobs = (port.execute_job report_job_id w.jobs).1 })

  -- `_quarantine_unusable_linked_job`, and the run of the job that it lets pass
  unfoldable pub run_linked :
      ReportBatchRecord
      → ItemRow
      → String
      → ℕ
      → Time
      → Lookup
      → Call (World J) PassError BatchItemExecutionResult
  run_linked batch item report_job_id max_attempts now absent w =
      fail_item batch.batch_id item report_job_id "not_executed"
        (failure missing_linked_job_category missing_summary false max_attempts) now w
  run_linked batch item report_job_id max_attempts now (fault text) w =
      fail_item batch.batch_id item report_job_id "unknown"
        (failure "batch_execution_failed" text true max_attempts) now w
  run_linked batch item report_job_id max_attempts now (found job) w =
      if str_eq job.tenant_id batch.tenant_id
      then run_job batch.batch_id item report_job_id max_attempts now w
      else fail_item batch.batch_id item report_job_id "not_executed"
          (failure tenant_mismatch_category mismatch_summary false max_attempts) now w

  -- `_load_waiting_item` of a batch, and `execute_item` on the item that it finds
  abbrev pub execute_loaded :
      ReportBatchRecord → String → ℕ → Time → Call (World J) PassError BatchItemExecutionResult
  execute_loaded batch batch_item_id max_attempts now w =
      elim (fetchone (is_item batch_item_id) batch.items) [
        | none ↦ (err PassError.report_batch_item_not_found, w)
        | some item ↦
            if not (item_is item.status BatchItemStatus.waiting_on_report_job)
            then (err PassError.batch_item_not_waiting_on_report_job, w)
            else elim item.report_job_id [
              | none ↦ (err PassError.batch_item_report_job_missing, w)
              | some report_job_id ↦
                  run_linked batch item report_job_id max_attempts now
                    (port.get_job report_job_id w.jobs) w
            ]
      ]

  -- `max_attempts` is that of the service's retry policy.
  unfoldable pub execute_item :
      String → String → ℕ → Time → Call (World J) PassError BatchItemExecutionResult
  execute_item batch_id batch_item_id max_attempts now w = elim (get_batch batch_id w.db) [
    | err e ↦ (err (PassError.ledger_error e), w)
    | ok batch ↦ execute_loaded batch batch_item_id max_attempts now w
  ]
