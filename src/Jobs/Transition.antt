-- ===== src/Jobs/Transition.antt =====
-- `_transition_job`, the `mark_*` operations and `cancel_job` of the ledger
-- (src/app/reporting_jobs/ledger.py).
pub mod Marks
pub mod Move
pub mod Guard
pub mod Effect
pub mod History
pub mod Terminal
pub mod Progress
use lotus_report.Prelude.{
  ℕ, String, Bool, true, false, not, Option, none, some, List, [], ◌∷◌, coalesce, if◌then◌else◌,
}
use lotus_report.Sql.{Result, ok, err, Tx, return, raise, fetchone, ◌>>=◌, ◌>>◌, connect}
use lotus_report.Clock.{Time}
use lotus_report.Jobs.Status.{
  ReportJobStatus, job_is, is_report_job_transition_allowed, is_report_job_cancellable,
}
use lotus_report.Jobs.Tables.{
  JobRow, Db, JobError, is_job, append_status_event, update_jobs, load_job,
}
use lotus_report.Jobs.Events.{
  EventType, EventPayload, empty_payload, StatusEvent, report_status_event_family,
}
use lotus_report.Jobs.Custody.{Context, guard_transition}

-- The keyword arguments of `_transition_job`.
pub record Change : Type 0 where
  pub to_status : ReportJobStatus
  pub failure_category : Option String
  pub failure_message : Option String
  pub current_step : String
  pub retry_eligible : Bool
  pub event_type : EventType
  pub event_message : Option String
  pub set_started_at : Bool
  pub set_completed_at : Bool
  pub render_job_id : Option String
  pub render_output_format : Option String
  pub render_template_id : Option String
  pub render_template_version : Option String
  pub render_template_publication : Option String
  pub render_artifact_sha256 : Option String
  pub render_bounded_determinism_fingerprint : Option String
  pub render_runtime_engine : Option String
  pub render_runtime_engine_version : Option String
  pub render_duration_ms : Option ℕ
  pub archive_request_id : Option String
  pub archive_document_id : Option String
  pub archive_completed_at : Option Time

-- The SET clause of `_transition_job`.
abbrev pub apply_change : Change → Time → JobRow → JobRow
apply_change c now r = record r {
  status = c.to_status;
  failure_category = c.failure_category;
  failure_message = c.failure_message;
  current_step = c.current_step;
  retry_eligible = c.retry_eligible;
  updated_at = now;
  started_at = coalesce r.started_at (if c.set_started_at then some now else none);
  completed_at = if c.set_completed_at then some now else none;
  render_job_id = coalesce c.render_job_id r.render_job_id;
  render_output_format = coalesce c.render_output_format r.render_output_format;
  render_template_id = coalesce c.render_template_id r.render_template_id;
  render_template_version = coalesce c.render_template_version r.render_template_version;
  render_template_publication =
      coalesce c.render_template_publication r.render_template_publication;
  render_artifact_sha256 = coalesce c.render_artifact_sha256 r.render_artifact_sha256;
  render_bounded_determinism_fingerprint =
      coalesce c.render_bounded_determinism_fingerprint r.render_bounded_determinism_fingerprint;
  render_runtime_engine = coalesce c.render_runtime_engine r.render_runtime_engine;
  render_runtime_engine_version =
      coalesce c.render_runtime_engine_version r.render_runtime_engine_version;
  render_duration_ms = coalesce c.render_duration_ms r.render_duration_ms;
  archive_request_id = coalesce c.archive_request_id r.archive_request_id;
  archive_document_id = coalesce c.archive_document_id r.archive_document_id;
  archive_completed_at = coalesce c.archive_completed_at r.archive_completed_at;
}

-- `_transition_event_payload`
abbrev pub transition_event_payload : Change → EventPayload
transition_event_payload c = record {
  current_step = some c.current_step;
  reason_code = none;
  report_type = none;
  cancel_requested = false;
  failure_category = c.failure_category;
  failure_message = c.failure_message;
  render_job_id = c.render_job_id;
  render_output_format = c.render_output_format;
  render_template_id = c.render_template_id;
  render_template_version = c.render_template_version;
  render_artifact_sha256 = c.render_artifact_sha256;
  render_bounded_determinism_fingerprint = c.render_bounded_determinism_fingerprint;
  render_runtime_engine = c.render_runtime_engine;
  render_runtime_engine_version = c.render_runtime_engine_version;
  render_duration_ms = c.render_duration_ms;
  archive_request_id = c.archive_request_id;
  archive_document_id = c.archive_document_id;
}

abbrev pub status_event :
    String
    → ReportJobStatus
    → ReportJobStatus
    → EventType
    → EventPayload
    → Option String
    → Context
    → StatusEvent
status_event job_id from_status to_status event_type payload message ctx = record {
  status_event_id = ctx.event_id;
  report_job_id = job_id;
  from_status = some from_status;
  to_status = to_status;
  event_type = event_type;
  event_family = report_status_event_family event_type;
  event_payload = payload;
  message = message;
  actor = ctx.actor;
  created_at = ctx.now;
  correlation_id = ctx.correlation_id;
  trace_id = ctx.trace_id;
}

-- The UPDATE, the event and the final SELECT that `_transition_job` and `cancel_job` share.
unfoldable pub write_status : String → (JobRow → JobRow) → StatusEvent → Tx Db JobError JobRow
unfolding update_jobs load_job
write_status job_id f event = do
  update_jobs (is_job job_id) f
  append_status_event event
  load_job job_id

-- `_transition_job` past its custody guard
unfoldable pub transition_unguarded : String → Change → Context → Tx Db JobError JobRow
transition_unguarded job_id c ctx db = elim (fetchone (is_job job_id) db.jobs) [
  | none ↦ err JobError.report_job_not_found
  | some existing ↦
      if job_is existing.status c.to_status
      then load_job job_id db
      else if is_report_job_transition_allowed existing.status c.to_status
      then write_status job_id (apply_change c ctx.now)
          (status_event job_id existing.status c.to_status c.event_type (transition_event_payload c)
            c.event_message ctx)
          db
      else err JobError.report_job_invalid_transition
]

unfoldable pub transition_job : String → Change → Context → Tx Db JobError JobRow
unfolding guard_transition transition_unguarded load_job
transition_job job_id c ctx = do
  settled ← guard_transition job_id c.to_status ctx
  if settled then load_job job_id else transition_unguarded job_id c ctx

abbrev pub cancel_message : String
cancel_message = "Report job cancelled before render or archive processing."

abbrev pub cancel_row : Time → JobRow → JobRow
cancel_row now r = record r {
  status = ReportJobStatus.cancelled;
  failure_category = some "cancelled";
  failure_message = some cancel_message;
  current_step = "cancelled";
  retry_eligible = false;
  cancel_requested = true;
  updated_at = now;
  cancelled_at = some now;
}

unfoldable pub cancel_unguarded : String → Context → Tx Db JobError JobRow
cancel_unguarded job_id ctx db = elim (fetchone (is_job job_id) db.jobs) [
  | none ↦ err JobError.report_job_not_found
  | some existing ↦
      if is_report_job_cancellable existing.status
      then write_status job_id (cancel_row ctx.now)
          (status_event job_id existing.status ReportJobStatus.cancelled EventType.job_cancelled
            (record empty_payload { current_step = some "cancelled"; cancel_requested = true })
            (some cancel_message) ctx)
          db
      else err JobError.report_job_cannot_be_cancelled
]

unfoldable pub cancel_job : String → Context → Db → Result JobError JobRow × Db
unfolding guard_transition cancel_unguarded load_job
cancel_job job_id ctx = connect do
  settled ← guard_transition job_id ReportJobStatus.cancelled ctx
  if settled then load_job job_id else cancel_unguarded job_id ctx
