-- ===== src/Jobs/Work/Queue.antt =====
-- The work queue of report jobs: the fence of a lease, `complete_work_item` and `defer_work_item`
-- (src/app/reporting_jobs/ledger.py).
use lotus_report.Prelude.{
  ℕ, ◌+◌, ◌-◌, String, Bool, true, false, ◌&&◌, Option, none, some, max, ◌==◌, if◌then◌else◌,
  str_eq,
}
use lotus_report.Sql.{Result, Tx, ok, err, return, raise, update, rowcount, connect, ◌>>=◌, ◌>>◌}
use lotus_report.Clock.{Time, seconds}
use lotus_report.Text.{cut}
use lotus_report.Jobs.Tables.{WorkStatus, work_is, WorkItemRow, Db, JobError}
use lotus_report.Jobs.Custody.{Context}
use lotus_report.Jobs.Work.Custody.{
  is_work, find_work, released, protect_work, validate_work, settle_verified_work, scheduled_at,
}

abbrev pub holds_token : String → Option String → Bool
holds_token token none = false
holds_token token (some t) = str_eq t token

-- status = 'leased' AND lease_token = ?
abbrev pub leased_under : String → WorkItemRow → Bool
leased_under token w = work_is w.status WorkStatus.leased && holds_token token w.lease_token

abbrev pub work_fence : String → String → WorkItemRow → Bool
work_fence work_id token w = is_work work_id w && leased_under token w

abbrev pub load_found : Option WorkItemRow → Tx Db JobError WorkItemRow
load_found none = raise JobError.report_job_work_item_not_found
load_found (some w) = return w

-- The SELECT after an UPDATE
abbrev pub load_work : String → Tx Db JobError WorkItemRow
load_work work_id = find_work work_id >>= load_found

-- One UPDATE under the fence, which must change one row.
unfoldable pub fenced_work :
    String → String → (WorkItemRow → WorkItemRow) → Tx Db JobError (Unit {0})
fenced_work work_id token f db =
    if rowcount (work_fence work_id token) db.work_items == 1
    then ok (tt, record db { work_items = update (work_fence work_id token) f db.work_items })
    else err JobError.report_job_work_lease_not_owned

abbrev pub complete : Time → WorkItemRow → WorkItemRow
complete now w = record (released w) {
  status = WorkStatus.completed;
  updated_at = now;
  completed_at = some now;
}

unfoldable pub complete_work_item :
    String → String → Context → Time → Db → Result JobError WorkItemRow × Db
unfolding validate_work protect_work fenced_work
complete_work_item work_id token ctx now = connect do
  validate_work work_id token now
  protected ← protect_work work_id true ctx
  if protected
      then load_work work_id
      else (do fenced_work work_id token (complete now); load_work work_id)

-- `MAX(attempt_count - 1, 0)` is subtraction on ℕ.
abbrev pub defer : String → Time → Time → WorkItemRow → WorkItemRow
defer wait_reason available_at now w = record (released w) {
  status = WorkStatus.retry_pending;
  attempt_count = w.attempt_count - 1;
  available_at = available_at;
  last_error_category = some (cut 80 wait_reason);
  last_error_summary = some "Waiting on owner-side work; the failure budget is untouched.";
  updated_at = now;
}

abbrev pub defer_unsettled :
    String → String → String → ℕ → Time → Option WorkItemRow → Tx Db JobError WorkItemRow
defer_unsettled work_id token wait_reason delay now (some settled) = return settled
defer_unsettled work_id token wait_reason delay now none = do
  due ← scheduled_at work_id (now + seconds (max delay 1))
  fenced_work work_id token (defer wait_reason due now)
  load_work work_id

unfoldable pub defer_work_item :
    String → String → String → ℕ → Context → Time → Db → Result JobError WorkItemRow × Db
unfolding validate_work settle_verified_work scheduled_at fenced_work
defer_work_item work_id token wait_reason delay ctx now = connect do
  validate_work work_id token now
  settled ← settle_verified_work work_id ctx
  defer_unsettled work_id token wait_reason delay now settled
