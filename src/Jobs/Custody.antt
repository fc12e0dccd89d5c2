-- ===== src/Jobs/Custody.antt =====
-- The custody guard of a transition (src/app/reporting_jobs/custody_recovery.py, custody_policy.py),
-- as the SQLite ledger calls it.
use lotus_report.Prelude.{
  ◌+◌, String, Bool, true, false, not, ◌&&◌, ◌||◌, Option, none, some, [], ◌∷◌, ltb, ◌==◌,
  if◌then◌else◌, is_none, str_eq,
}
use lotus_report.Sql.{Tx, ok, err, return, raise, update, rowcount, fetchone, ◌>>=◌, ◌>>◌}
use lotus_report.Clock.{Time}
use lotus_report.Jobs.Status.{ReportJobStatus, job_is, one_of}
use lotus_report.Jobs.Tables.{
  CustodyState, WorkStatus, work_is, JobRow, WorkItemRow, Db, JobError, is_job, append_status_event,
  is_required, state_is_verified, update_jobs,
}
use lotus_report.Jobs.Events.{EventType, empty_payload, StatusEvent, given}

-- What a call draws from outside: the work lease of its context (`current_work_lease`: work item and
-- token), one reading of the clock for the guard and one for the transition, and a random event id.
pub record Context : Type 0 where
  pub actor : String
  pub correlation_id : String
  pub trace_id : String
  pub identity : Option (String × String)
  pub guard_now : Time
  pub now : Time
  pub event_id : String

abbrev pub work_of : String → WorkItemRow → Bool
work_of job_id w = str_eq w.report_job_id job_id

-- `lock_pair`: the work item of a job; a required job must have one.
abbrev pub lock_pair : JobRow → Tx Db JobError (Option WorkItemRow)
lock_pair row db = elim (fetchone (work_of row.report_job_id) db.work_items) [
  | none ↦ if is_required row then err JobError.custody_work_missing else ok (none, db)
  | some w ↦ ok (some w, db)
]

-- (as_datetime(work["lease_expires_at"]) or now) > now
abbrev pub unexpired : Option Time → Time → Bool
unexpired none now = false
unexpired (some t) now = ltb now t

abbrev pub has_token : Option String → String → Bool
has_token none token = false
has_token (some t) token = str_eq t token

-- `lease`: the caller's work item is leased to it under its token; the epoch is the row's own.
abbrev pub lease_holds : String × String → Option WorkItemRow → Time → Bool
lease_holds identity none now = false
lease_holds identity (some w) now =
    str_eq w.work_item_id identity.0
    && work_is w.status WorkStatus.leased
    && has_token w.lease_token identity.1
    && unexpired w.lease_expires_at now

abbrev pub custody_protected : JobRow → Bool
custody_protected row =
    is_required row
    && not (state_is_verified row.custody_state)
    && (given row.render_offer_sha256
        || given row.render_job_id
        || given row.archive_request_id
        || not (row.custody_initial_count == 0)
        || one_of
            (ReportJobStatus.rendering ∷ ReportJobStatus.completed ∷ ReportJobStatus.archiving ∷ [])
            row.status)

abbrev pub parked_work : String → Time → WorkItemRow → WorkItemRow
parked_work reason now w = record w {
  status = WorkStatus.failed;
  lease_token = none;
  lease_owner = none;
  lease_acquired_at = none;
  lease_expires_at = none;
  last_error_category = some reason;
  last_error_summary = some "Custody unresolved; automatic work parked.";
  updated_at = now;
}

abbrev pub parked_job : String → JobRow → JobRow
parked_job reason r = record r {
  custody_state = some CustodyState.blocked;
  custody_reason = some reason;
  custody_epoch = r.custody_epoch + 1;
}

-- `event`
abbrev pub parked_event : String → Context → JobRow → StatusEvent
parked_event reason ctx row = record {
  status_event_id = ctx.event_id;
  report_job_id = row.report_job_id;
  from_status = some row.status;
  to_status = row.status;
  event_type = EventType.job_custody_parked;
  event_family = "job_lifecycle";
  event_payload = record empty_payload { reason_code = some reason };
  message = some reason;
  actor = "report-job-worker";
  created_at = ctx.guard_now;
  correlation_id = row.correlation_id;
  trace_id = row.trace_id;
}

-- An UPDATE through `execute` of this class is refused unless it changes one row.
abbrev pub park_work : String → Time → WorkItemRow → Tx Db JobError (Unit {0})
park_work reason now work db =
    let here = λ (w : WorkItemRow).
      str_eq w.work_item_id work.work_item_id && work_is w.status work.status in
    if rowcount here db.work_items == 1
    then ok (tt, record db { work_items = update here (parked_work reason now) db.work_items })
    else err JobError.custody_stale_write

abbrev pub at_epoch : JobRow → JobRow → Bool
at_epoch row r = is_job row.report_job_id r && r.custody_epoch == row.custody_epoch

unfoldable pub park_job : String → JobRow → Tx Db JobError (Unit {0})
unfolding update_jobs
park_job reason row db =
    if rowcount (at_epoch row) db.jobs == 1
    then update_jobs (at_epoch row) (parked_job reason) db
    else err JobError.custody_stale_write

unfoldable pub park : String → Context → Option WorkItemRow → JobRow → Tx Db JobError (Unit {0})
unfolding park_job
park reason ctx none row =
    if state_is_verified row.custody_state then return tt else raise JobError.custody_work_missing
park reason ctx (some work) row = if state_is_verified row.custody_state then return tt else do
  park_work reason ctx.guard_now work
  park_job reason row
  append_status_event (parked_event reason ctx row)

abbrev pub check_identity :
    Option (String × String)
    → ReportJobStatus
    → Option WorkItemRow
    → Time
    → Tx Db JobError (Unit {0})
check_identity none to_status work now =
    if one_of (ReportJobStatus.collecting_data ∷ ReportJobStatus.data_ready ∷ []) to_status
    then raise JobError.custody_worker_lease_required
    else return tt
check_identity (some identity) to_status work now =
    if lease_holds identity work now then return tt else raise JobError.custody_stale_lease

-- The decision of `guard_transition` on a required job, after its identity is checked.
unfoldable pub decide_required :
    ReportJobStatus → Context → Option WorkItemRow → JobRow → Tx Db JobError Bool
unfolding park
decide_required to_status ctx work row =
    if state_is_verified row.custody_state
    then return (not (job_is to_status ReportJobStatus.archived))
    else if custody_protected row
        && one_of
            (ReportJobStatus.failed ∷ ReportJobStatus.cancelled ∷ ReportJobStatus.archived ∷ [])
            to_status
    then (do park "custody_transition_blocked" ctx work row; return true)
    else if one_of
        (ReportJobStatus.rendering ∷ ReportJobStatus.completed ∷ ReportJobStatus.archiving ∷ [])
        to_status
    then raise JobError.custody_fenced_transition_required
    else return false

abbrev pub guard_required : ReportJobStatus → Context → JobRow → Tx Db JobError Bool
guard_required to_status ctx row = do
  work ← lock_pair row
  if is_required row
      then (do
        check_identity ctx.identity to_status work ctx.guard_now
        decide_required to_status ctx work row)
      else return false

unfoldable pub guard_transition : String → ReportJobStatus → Context → Tx Db JobError Bool
unfolding decide_required
guard_transition job_id to_status ctx db = elim (fetchone (is_job job_id) db.jobs) [
  | none ↦ ok (false, db)
  | some row ↦
      if is_none row.custody_policy then ok (false, db) else guard_required to_status ctx row db
]
