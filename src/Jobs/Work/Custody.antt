-- ===== src/Jobs/Work/Custody.antt =====
-- What custody adds to the work queue: `validate_work`, `protect_work`, `settle_verified_work`,
-- `scheduled_at` and `claimed` (src/app/reporting_jobs/custody_recovery.py).
use lotus_report.Prelude.{
  ◌+◌, ℕ, String, Bool, true, false, ◌&&◌, Option, none, some, max, ltb, ◌==◌, if◌then◌else◌,
  str_eq,
}
use lotus_report.Sql.{Tx, ok, err, return, raise, update, rowcount, fetchone, ◌>>=◌, ◌>>◌}
use lotus_report.Clock.{Time}
use lotus_report.Jobs.Tables.{
  WorkStatus, JobRow, WorkItemRow, Db, JobError, is_job, is_required, state_is_verified,
  update_jobs,
}
use lotus_report.Jobs.Custody.{Context, lock_pair, lease_holds, custody_protected, park}

abbrev pub is_work : String → WorkItemRow → Bool
is_work work_id w = str_eq w.work_item_id work_id

-- SELECT ... FROM report_job_work_item WHERE work_item_id = ?
abbrev pub find_work : String → Tx Db JobError (Option WorkItemRow)
find_work work_id db = ok (fetchone (is_work work_id) db.work_items, db)

-- `metadata`; the columns of the request stand in the row.
abbrev pub metadata : String → Tx Db JobError JobRow
metadata job_id db = elim (fetchone (is_job job_id) db.jobs) [
  | none ↦ err JobError.custody_job_not_found
  | some r ↦ ok (r, db)
]

-- The lease columns of a work item that nobody holds.
abbrev pub released : WorkItemRow → WorkItemRow
released w = record w {
  lease_owner = none;
  lease_token = none;
  lease_acquired_at = none;
  lease_expires_at = none;
}

abbrev pub settled_work : WorkItemRow → WorkItemRow
settled_work w = record (released w) { status = WorkStatus.completed }

-- The UPDATE of `protect_work`, through `execute` of this class: it must change one row.
unfoldable pub settle_work : String → Tx Db JobError (Unit {0})
settle_work work_id db =
    if rowcount (is_work work_id) db.work_items == 1
    then ok (tt, record db { work_items = update (is_work work_id) settled_work db.work_items })
    else err JobError.custody_stale_write

abbrev pub protect_reason : Bool → String
protect_reason completing =
    if completing then "custody_completion_blocked" else "custody_retry_exhausted"

abbrev pub protect_locked :
    String → Bool → Context → Option WorkItemRow → JobRow → Tx Db JobError Bool
protect_locked work_id completing ctx work row =
    if is_required row && state_is_verified row.custody_state
    then (do settle_work work_id; return true)
    else if custody_protected row
    then (do park (protect_reason completing) ctx work row; return true)
    else return false

abbrev pub protect_selected : String → Bool → Context → Option WorkItemRow → Tx Db JobError Bool
protect_selected work_id completing ctx none = raise JobError.custody_work_missing
protect_selected work_id completing ctx (some w) = do
  row ← metadata w.report_job_id
  work ← lock_pair row
  protect_locked work_id completing ctx work row

unfoldable pub protect_work : String → Bool → Context → Tx Db JobError Bool
unfolding settle_work park
protect_work work_id completing ctx = do
  selected ← find_work work_id
  protect_selected work_id completing ctx selected

abbrev pub require_lease :
    String → String → Time → JobRow → Option WorkItemRow → Tx Db JobError (Unit {0})
require_lease work_id token now row work =
    if lease_holds (work_id, token) work now then return tt else raise JobError.custody_stale_lease

abbrev pub validate_found : String → String → Time → Option WorkItemRow → Tx Db JobError (Unit {0})
validate_found work_id token now none = return tt
validate_found work_id token now (some w) = do
  row ← metadata w.report_job_id
  work ← lock_pair row
  if is_required row then require_lease work_id token now row work else return tt

unfoldable pub validate_work : String → String → Time → Tx Db JobError (Unit {0})
validate_work work_id token now = do
  found ← find_work work_id
  validate_found work_id token now found

-- The join of `settle_verified_work`
abbrev pub verified_work : String → Db → Bool
verified_work work_id db = elim (fetchone (is_work work_id) db.work_items) [
  | none ↦ false
  | some w ↦ elim (fetchone (is_job w.report_job_id) db.jobs) [
    | none ↦ false
    | some r ↦ state_is_verified r.custody_state
  ]
]

unfoldable pub settle_verified_work : String → Context → Tx Db JobError (Option WorkItemRow)
unfolding protect_work
settle_verified_work work_id ctx db =
    if verified_work work_id db
    then (do protect_work work_id false ctx; find_work work_id) db
    else ok (none, db)

-- max(proposed, due) if due and row["custody_policy"] == REQUIRED_POLICY else proposed
abbrev pub not_before_due : JobRow → Time → Time
not_before_due row proposed = elim row.custody_next_attempt_at [
  | none ↦ proposed
  | some due ↦ if is_required row then max proposed due else proposed
]

-- On a work item that is not stored, `selected["report_job_id"]` subscripts None.
abbrev pub scheduled_selected : Time → Option WorkItemRow → Tx Db JobError Time
scheduled_selected proposed none = raise JobError.type_error
scheduled_selected proposed (some w) = do
  row ← metadata w.report_job_id
  return (not_before_due row proposed)

unfoldable pub scheduled_at : String → Time → Tx Db JobError Time
scheduled_at work_id proposed = do
  selected ← find_work work_id
  scheduled_selected proposed selected

abbrev pub advance_epoch : JobRow → JobRow
advance_epoch r = record r { custody_epoch = r.custody_epoch + 1 }

-- An UPDATE of `report_job` through `execute` of this class
unfoldable pub execute_update : (JobRow → Bool) → (JobRow → JobRow) → Tx Db JobError (Unit {0})
unfolding update_jobs
execute_update p f db =
    if rowcount p db.jobs == 1 then update_jobs p f db else err JobError.custody_stale_write

abbrev pub claimed_required :
    WorkItemRow → String → ℕ → Context → JobRow → Option WorkItemRow → Tx Db JobError (Unit {0})
claimed_required w token lease_seconds ctx row work =
    if ltb lease_seconds 120 then raise JobError.custody_lease_budget_invalid else (do
      require_lease w.work_item_id token ctx.guard_now row work
      execute_update (is_job w.report_job_id) advance_epoch)

-- `claimed`, on a work item that was just leased under `token`
unfoldable pub claimed : WorkItemRow → String → ℕ → Context → Tx Db JobError (Unit {0})
unfolding execute_update
claimed w token lease_seconds ctx = do
  row ← metadata w.report_job_id
  work ← lock_pair row
  if is_required row then claimed_required w token lease_seconds ctx row work else return tt
