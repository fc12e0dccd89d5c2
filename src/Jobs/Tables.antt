-- ===== src/Jobs/Tables.antt =====
-- The rows of `report_job` and `report_job_work_item`, the appending of a status event, and the
-- triggers that protect custody (src/app/reporting_jobs/ledger.py, custody_schema.py).
use lotus_report.Prelude.{
  ℕ, String, Bool, true, false, not, ◌&&◌, ◌||◌, Option, none, some, List, [], ◌∷◌, ltb, ◌==◌,
  if◌then◌else◌, is_none, str_eq,
}
use lotus_report.Sql.{Tx, ok, err, update, rowcount, fetchone}
use lotus_report.Clock.{Time}
use lotus_report.Jobs.Status.{ReportJobStatus, job_is, one_of}
use lotus_report.Jobs.Events.{StatusEvent, payload_complete}

pub data CustodyState : Type 0 where
  ready waiting blocked refused verified : CustodyState

pub data WorkStatus : Type 0 where
  pending retry_pending leased completed failed : WorkStatus

abbrev work_code : WorkStatus → ℕ
work_code WorkStatus.pending = 0
work_code WorkStatus.retry_pending = 1
work_code WorkStatus.leased = 2
work_code WorkStatus.completed = 3
work_code WorkStatus.failed = 4

abbrev pub work_is : WorkStatus → WorkStatus → Bool
work_is a b = work_code a == work_code b

-- A row of `report_job` with the columns of its `report_request` that the operations read.
pub record JobRow : Type 0 where
  pub report_job_id : String
  pub report_request_id : String
  pub tenant_id : String
  pub region : String
  pub correlation_id : String
  pub trace_id : String
  pub status : ReportJobStatus
  pub failure_category : Option String
  pub failure_message : Option String
  pub current_step : String
  pub retry_eligible : Bool
  pub cancel_requested : Bool
  pub created_at : Time
  pub updated_at : Time
  pub started_at : Option Time
  pub completed_at : Option Time
  pub cancelled_at : Option Time
  pub render_job_id : Option String
  pub render_output_format : Option String
  pub render_template_id : Option String
  pub render_template_version : Option String
  pub render_template_publication : Option String
  pub render_artifact_sha256 : Option String
  pub render_bounded_determinism_fingerprint : Option String
  pub render_runtime_engine : Option String
  pub render_runtime_engine_version : Option String
  pub render_duration_ms : Option ℕ
  pub archive_request_id : Option String
  pub archive_document_id : Option String
  pub archive_completed_at : Option Time
  pub custody_policy : Option String
  pub custody_state : Option CustodyState
  pub custody_epoch : ℕ
  pub custody_initial_count : ℕ
  pub custody_dispatch_count : ℕ
  pub custody_poll_count : ℕ
  pub custody_window_started_at : Option Time
  pub custody_next_attempt_at : Option Time
  pub custody_reason : Option String
  pub render_offer_body : Option String
  pub render_offer_sha256 : Option String
  pub custody_verification_json : Option String

pub record WorkItemRow : Type 0 where
  pub work_item_id : String
  pub report_job_id : String
  pub status : WorkStatus
  pub attempt_count : ℕ
  pub available_at : Time
  pub lease_owner : Option String
  pub lease_token : Option String
  pub lease_acquired_at : Option Time
  pub lease_expires_at : Option Time
  pub last_error_category : Option String
  pub last_error_summary : Option String
  pub created_at : Time
  pub updated_at : Time
  pub completed_at : Option Time

-- The newest event comes first.
pub record Db : Type 0 where
  pub jobs : List JobRow
  pub work_items : List WorkItemRow
  pub events : List StatusEvent

pub data JobError : Type 0 where
  report_job_not_found report_job_cannot_be_cancelled report_job_invalid_transition : JobError
  custody_work_missing custody_stale_lease custody_worker_lease_required : JobError
  custody_fenced_transition_required custody_stale_write custody_trigger : JobError
  report_status_event_payload_missing : JobError
  custody_job_not_found custody_lease_budget_invalid custody_scope_mismatch : JobError
  custody_authority_unavailable custody_authority_refused : JobError
  report_job_work_lease_not_owned : JobError
  report_job_work_item_not_found type_error : JobError

abbrev pub is_job : String → JobRow → Bool
is_job job_id r = str_eq r.report_job_id job_id

-- `_append_status_event`
abbrev pub append_status_event : StatusEvent → Tx Db JobError (Unit {0})
append_status_event e db =
    if payload_complete e.event_type e.event_payload
    then ok (tt, record db { events = e ∷ db.events })
    else err JobError.report_status_event_payload_missing

-- REQUIRED_POLICY
abbrev pub required_policy : String
required_policy = "retained-render-offer.v1"

abbrev pub is_required : JobRow → Bool
is_required r = elim r.custody_policy [ none ↦ false | some p ↦ str_eq p required_policy ]

abbrev pub state_is_verified : Option CustodyState → Bool
state_is_verified (some CustodyState.verified) = true
state_is_verified _ = false

-- `a IS b`
abbrev pub same_column : Option String → Option String → Bool
same_column none none = true
same_column (some a) (some b) = str_eq a b
same_column _ _ = false

-- Trigger `report_custody_immutable`, for the columns that the operations write.
abbrev pub custody_immutable : JobRow → JobRow → Bool
custody_immutable old new =
    not (is_none old.render_offer_body)
      && not (
          same_column new.render_job_id old.render_job_id
          && same_column new.render_template_id old.render_template_id
          && same_column new.render_template_version old.render_template_version)
    || is_required old
      && not (is_none old.archive_request_id)
      && not (same_column new.archive_request_id old.archive_request_id)
    || state_is_verified old.custody_state
      && not (
          state_is_verified new.custody_state
          && job_is new.status ReportJobStatus.archived
          && same_column new.archive_document_id old.archive_document_id)

-- Trigger `report_custody_shape`, for the columns that the operations write.
abbrev pub custody_shape : JobRow → JobRow → Bool
custody_shape old new =
    is_required new
      && not (state_is_verified new.custody_state)
      && (not (is_none old.render_offer_sha256)
          || not (is_none old.render_job_id)
          || ltb 0 old.custody_initial_count
          || one_of
              (ReportJobStatus.rendering ∷ ReportJobStatus.completed ∷ ReportJobStatus.archiving
                ∷ [])
              old.status)
      && one_of
          (ReportJobStatus.failed ∷ ReportJobStatus.cancelled ∷ ReportJobStatus.archived
            ∷ ReportJobStatus.completed ∷ ReportJobStatus.completed_with_warnings ∷ [])
          new.status
    || ltb new.custody_initial_count old.custody_initial_count
    || state_is_verified new.custody_state
      && (is_none new.custody_verification_json
          || is_none new.archive_request_id
          || is_none new.archive_document_id
          || is_none old.render_offer_sha256)

-- UPDATE report_job under both triggers, which abort it.
unfoldable pub update_jobs : (JobRow → Bool) → (JobRow → JobRow) → Tx Db JobError (Unit {0})
update_jobs p f db =
    if rowcount (λ r. p r && (custody_immutable r (f r) || custody_shape r (f r))) db.jobs == 0
    then ok (tt, record db { jobs = update p f db.jobs })
    else err JobError.custody_trigger

-- `_load_by_request_id` of the request of this job; a request has one job.
unfoldable pub load_job : String → Tx Db JobError JobRow
load_job job_id db = elim (fetchone (is_job job_id) db.jobs) [
  | none ↦ err JobError.report_job_not_found
  | some r ↦ ok (r, db)
]
