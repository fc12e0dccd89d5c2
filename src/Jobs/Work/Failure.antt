-- ===== src/Jobs/Work/Failure.antt =====
-- `fail_work_item`, and the job that fails with its last attempt (src/app/reporting_jobs/ledger.py).
use Prim.Native.String.{◌++◌ as text_append}
use lotus_report.Prelude.{
  String, Bool, true, false, Option, none, some, [], ◌∷◌, if◌then◌else◌, str_eq,
}
use lotus_report.Sql.{Result, Tx, return, raise, fetchone, connect, ◌>>=◌, ◌>>◌}
use lotus_report.Clock.{Time}
use lotus_report.Text.{cut, squeeze}
use lotus_report.Jobs.Status.{ReportJobStatus, one_of}
use lotus_report.Jobs.Events.{EventType}
use lotus_report.Jobs.Tables.{WorkStatus, work_is, JobRow, WorkItemRow, Db, JobError, is_job}
use lotus_report.Jobs.Custody.{Context}
use lotus_report.Jobs.Transition.{Change, transition_job}
use lotus_report.Jobs.Work.{
  ReportJobWorkRetryPolicy, ReportJobWorkFailureDecision, decide_report_job_work_failure,
}
use lotus_report.Jobs.Work.Custody.{
  is_work, released, protect_work, validate_work, settle_verified_work, scheduled_at,
}
use lotus_report.Jobs.Work.Queue.{work_fence, load_work, fenced_work}

-- What `_terminalize_report_job_from_work` passes to `_transition_job`.
abbrev pub exhausted_change : String → String → Change
exhausted_change failure_category failure_summary = record {
  to_status = ReportJobStatus.failed;
  failure_category = some failure_category;
  failure_message = some (
      cut 500 (
        text_append "Durable report processing exhausted its permitted attempts. "
          (cut 240 (squeeze failure_summary))));
  current_step = "failed";
  retry_eligible = true;
  event_type = EventType.job_failed;
  event_message = some (cut 240 (squeeze failure_summary));
  set_started_at = true;
  set_completed_at = true;
  render_job_id = none;
  render_output_format = none;
  render_template_id = none;
  render_template_version = none;
  render_template_publication = none;
  render_artifact_sha256 = none;
  render_bounded_determinism_fingerprint = none;
  render_runtime_engine = none;
  render_runtime_engine_version = none;
  render_duration_ms = none;
  archive_request_id = none;
  archive_document_id = none;
  archive_completed_at = none;
}

abbrev pub job_over : ReportJobStatus → Bool
job_over s =
    one_of
      (ReportJobStatus.archived ∷ ReportJobStatus.completed_with_warnings ∷ ReportJobStatus.failed
        ∷ ReportJobStatus.cancelled ∷ [])
      s

-- The job of a work item, by the join of `_terminalize_report_job_from_work`
abbrev pub job_of_work : String → Db → Option JobRow
job_of_work work_id db = elim (fetchone (is_work work_id) db.work_items) [
  | none ↦ none
  | some w ↦ fetchone (is_job w.report_job_id) db.jobs
]

abbrev pub fail_job : String → Change → Context → Option JobRow → Tx Db JobError (Unit {0})
fail_job actor c ctx none = return tt
fail_job actor c ctx (some job) = if job_over job.status then return tt else do
  transition_job job.report_job_id c
      (record ctx { actor = actor; correlation_id = job.correlation_id; trace_id = job.trace_id })
  return tt

-- `_terminalize_report_job_from_work`
unfoldable pub terminalize : String → String → String → String → Context → Tx Db JobError (Unit {0})
unfolding protect_work transition_job
terminalize work_id actor failure_category failure_summary ctx = do
  protected ← protect_work work_id false ctx
  if protected then return tt else λ db.
      fail_job actor (exhausted_change failure_category failure_summary) ctx
        (job_of_work work_id db) db

-- `decision.status`, and the error that is recorded with it
abbrev pub retry_or_fail :
    ReportJobWorkFailureDecision → Time → String → String → Time → WorkItemRow → WorkItemRow
retry_or_fail decision available_at category summary now w = record (released w) {
  status = decision.status;
  available_at = available_at;
  last_error_category = some category;
  last_error_summary = some summary;
  updated_at = now;
}

-- str(lease_owner or "report-job-worker")
abbrev pub owner_or_worker : Option String → String
owner_or_worker none = "report-job-worker"
owner_or_worker (some owner) = if str_eq owner "" then "report-job-worker" else owner

abbrev pub fail_decided :
    String
    → String
    → String
    → String
    → ReportJobWorkFailureDecision
    → WorkItemRow
    → Context
    → Time
    → Tx Db JobError WorkItemRow
fail_decided work_id token category summary decision current ctx now = do
  due ← scheduled_at work_id decision.available_at
  fenced_work work_id token
      (retry_or_fail decision due (cut 80 category) (cut 240 (squeeze summary)) now)
  row ← load_work work_id
  if work_is decision.status WorkStatus.failed
      then terminalize work_id (owner_or_worker current.lease_owner)
          "operator_intervention_required" summary ctx
      else return tt
  return row

abbrev pub fail_current :
    String
    → String
    → String
    → String
    → ReportJobWorkRetryPolicy
    → Context
    → Time
    → Option WorkItemRow
    → Tx Db JobError WorkItemRow
fail_current work_id token category summary policy ctx now none =
    raise JobError.report_job_work_lease_not_owned
fail_current work_id token category summary policy ctx now (some current) =
    fail_decided work_id token category summary
      (decide_report_job_work_failure current.attempt_count now policy) current ctx now

abbrev pub fail_unsettled :
    String
    → String
    → String
    → String
    → ReportJobWorkRetryPolicy
    → Context
    → Time
    → Option WorkItemRow
    → Tx Db JobError WorkItemRow
fail_unsettled work_id token category summary policy ctx now (some settled) = return settled
fail_unsettled work_id token category summary policy ctx now none = λ db.
    fail_current work_id token category summary policy ctx now
      (fetchone (work_fence work_id token) db.work_items) db

unfoldable pub fail_work_item :
    String
    → String
    → String
    → String
    → ReportJobWorkRetryPolicy
    → Context
    → Time
    → Db
    → Result JobError WorkItemRow × Db
unfolding validate_work settle_verified_work scheduled_at fenced_work terminalize
fail_work_item work_id token category summary policy ctx now = connect do
  validate_work work_id token now
  settled ← settle_verified_work work_id ctx
  fail_unsettled work_id token category summary policy ctx now settled
