-- ===== src/Jobs/Events.antt =====
-- The status events of report jobs and the contract of their payloads
-- (src/app/reporting_jobs/event_contracts.py, and the rows of report_status_event in ledger.py).
use lotus_report.Prelude.{ℕ, String, Bool, true, false, not, ◌&&◌, Option, none, some, str_eq}
use lotus_report.Clock.{Time}
use lotus_report.Jobs.Status.{ReportJobStatus}

pub data EventType : Type 0 where
  job_accepted job_collecting_data job_data_ready job_rendering job_completed : EventType
  job_archiving job_archived job_failed job_cancelled job_custody_parked : EventType

-- The keys of the payloads that the operations build; a key with `none` or `false` is absent.
pub record EventPayload : Type 0 where
  pub current_step : Option String
  pub reason_code : Option String
  pub report_type : Option String
  pub cancel_requested : Bool
  pub failure_category : Option String
  pub failure_message : Option String
  pub render_job_id : Option String
  pub render_output_format : Option String
  pub render_template_id : Option String
  pub render_template_version : Option String
  pub render_artifact_sha256 : Option String
  pub render_bounded_determinism_fingerprint : Option String
  pub render_runtime_engine : Option String
  pub render_runtime_engine_version : Option String
  pub render_duration_ms : Option ℕ
  pub archive_request_id : Option String
  pub archive_document_id : Option String

abbrev pub empty_payload : EventPayload
empty_payload = record {
  current_step = none;
  reason_code = none;
  report_type = none;
  cancel_requested = false;
  failure_category = none;
  failure_message = none;
  render_job_id = none;
  render_output_format = none;
  render_template_id = none;
  render_template_version = none;
  render_artifact_sha256 = none;
  render_bounded_determinism_fingerprint = none;
  render_runtime_engine = none;
  render_runtime_engine_version = none;
  render_duration_ms = none;
  archive_request_id = none;
  archive_document_id = none;
}

pub record StatusEvent : Type 0 where
  pub status_event_id : String
  pub report_job_id : String
  pub from_status : Option ReportJobStatus
  pub to_status : ReportJobStatus
  pub event_type : EventType
  pub event_family : String
  pub event_payload : EventPayload
  pub message : Option String
  pub actor : String
  pub created_at : Time
  pub correlation_id : String
  pub trace_id : String

-- `payload.get(field)` is neither missing nor empty
abbrev pub given : Option String → Bool
given none = false
given (some s) = not (str_eq s "")

-- _REQUIRED_PAYLOAD_FIELDS_BY_EVENT_TYPE
abbrev pub payload_complete : EventType → EventPayload → Bool
payload_complete EventType.job_accepted p = given p.report_type
payload_complete EventType.job_collecting_data p = true
payload_complete EventType.job_data_ready p = true
payload_complete EventType.job_rendering p =
    given p.render_output_format && given p.render_template_id
payload_complete EventType.job_completed p = given p.render_job_id
payload_complete EventType.job_archiving p = given p.archive_request_id
payload_complete EventType.job_archived p = given p.archive_document_id
payload_complete EventType.job_failed p = given p.failure_category && given p.failure_message
payload_complete EventType.job_cancelled p = true
payload_complete EventType.job_custody_parked p = true

abbrev pub report_status_event_family : EventType → String
report_status_event_family EventType.job_rendering = "render_lifecycle"
report_status_event_family EventType.job_completed = "render_lifecycle"
report_status_event_family EventType.job_archiving = "archive_lifecycle"
report_status_event_family EventType.job_archived = "archive_lifecycle"
report_status_event_family _ = "job_lifecycle"
