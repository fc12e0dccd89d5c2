-- ===== src/Batch/Ledger/Items.antt =====
-- The operations of `ReportBatchLedger` on one item: heartbeat, the hand-over to a report job,
-- success, failure, and the link to a replayed job (src/app/report_batch_orchestrator/ledger.py).
use lotus_report.Prelude.{
  ℕ, ◌+◌, String, Bool, false, ◌&&◌, Option, none, some, coalesce, is_none, ltb, ◌==◌,
  if◌then◌else◌, str_eq,
}
use lotus_report.Sql.{Result, ok, err, Tx, update, rowcount, fetchone, connect}
use lotus_report.Clock.{Time, seconds}
use lotus_report.Batch.Models.{BatchItemStatus, item_is, ItemRow}
use lotus_report.Batch.Lifecycle.{batch_item_failure_outcome}
use lotus_report.Batch.Ledger.Tables.{
  Db, LedgerError, is_item, in_batch, without_lease, load_batch, refresh_batch_status,
}

-- `column = ?` on a nullable column
abbrev pub column_is : Option String → String → Bool
column_is none v = false
column_is (some c) v = str_eq c v

-- UPDATE one leased item under its token; anything but one changed row is refused.
unfoldable pub fenced_update : (ItemRow → ItemRow) → String → String → Tx Db LedgerError ItemRow
fenced_update f batch_item_id lease_token db =
    let fence = λ (r : ItemRow).
      is_item batch_item_id r
      && column_is r.lease_token lease_token
      && item_is r.status BatchItemStatus.leased in
    if rowcount fence db.items == 1
    then (let items = update fence f db.items in
        elim (fetchone (is_item batch_item_id) items) [
          | none ↦ err LedgerError.report_batch_item_not_found
          | some r ↦ ok (r, record db { items = items })
        ])
    else err LedgerError.report_batch_item_not_found

abbrev pub beat : Time → ℕ → ItemRow → ItemRow
beat now lease_seconds r = record r {
  last_heartbeat_at = some now;
  lease_expires_at = some (now + seconds lease_seconds);
}

unfoldable pub heartbeat_item_lease :
    String → String → ℕ → Time → Db → Result LedgerError ItemRow × Db
unfolding fenced_update
heartbeat_item_lease batch_item_id lease_token lease_seconds now =
    connect (fenced_update (beat now lease_seconds) batch_item_id lease_token)

abbrev pub dispatch_to : String → Time → ItemRow → ItemRow
dispatch_to report_job_id now r = record r {
  status = BatchItemStatus.waiting_on_report_job;
  report_job_id = some report_job_id;
  dispatched_at = some now;
}

unfoldable pub mark_item_waiting_on_report_job :
    String → String → String → Time → Db → Result LedgerError ItemRow × Db
unfolding fenced_update
mark_item_waiting_on_report_job batch_item_id lease_token report_job_id now =
    connect (fenced_update (dispatch_to report_job_id now) batch_item_id lease_token)

-- UPDATE ... RETURNING * on one item, then `_refresh_batch_status` of its batch.
abbrev pub returning_update :
    (ItemRow → Bool) → (ItemRow → ItemRow) → Time → LedgerError → Tx Db LedgerError ItemRow
returning_update p f now refusal db = elim (fetchone p db.items) [
  | none ↦ err refusal
  | some r ↦
      ok (f r, refresh_batch_status r.batch_id now (record db { items = update p f db.items }))
]

abbrev pub succeed : Time → ItemRow → ItemRow
succeed now r = record (without_lease r) {
  status = BatchItemStatus.succeeded;
  retry_eligible = false;
  next_retry_at = none;
  last_error_category = none;
  last_error_summary = none;
  completed_at = some now;
}

abbrev pub awaits_job : String → String → ItemRow → Bool
awaits_job batch_item_id report_job_id r =
    is_item batch_item_id r
    && column_is r.report_job_id report_job_id
    && item_is r.status BatchItemStatus.waiting_on_report_job

unfoldable pub mark_item_succeeded : String → String → Time → Db → Result LedgerError ItemRow × Db
mark_item_succeeded batch_item_id report_job_id now = connect (
    returning_update (awaits_job batch_item_id report_job_id) (succeed now) now
      LedgerError.report_batch_item_not_found)

pub record Failure : Type 0 where
  pub error_category : String
  pub error_summary : String
  pub retryable : Bool
  pub max_attempts : ℕ
  pub next_retry_at : Option Time

-- The SET clause of `mark_item_failed`, with the attempt that it counts.
abbrev pub fail : Failure → Time → ItemRow → ItemRow
fail e now r =
    let (status, retry_eligible) =
      batch_item_failure_outcome e.retryable (r.attempt_count + 1) e.max_attempts in
    record (without_lease r) {
      status = status;
      attempt_count = r.attempt_count + 1;
      retry_eligible = retry_eligible;
      next_retry_at = e.next_retry_at;
      last_error_category = some e.error_category;
      last_error_summary = some e.error_summary;
      completed_at = some now;
    }

unfoldable pub mark_item_failed : String → Failure → Time → Db → Result LedgerError ItemRow × Db
mark_item_failed batch_item_id e now = connect (
    returning_update (is_item batch_item_id) (fail e now) now
      LedgerError.report_batch_item_not_found)

abbrev pub relink : String → Time → ItemRow → ItemRow
relink report_job_id now r = record (without_lease r) {
  status = BatchItemStatus.waiting_on_report_job;
  report_job_id = some report_job_id;
  retry_eligible = false;
  next_retry_at = none;
  last_error_category = none;
  last_error_summary = none;
  started_at = coalesce r.started_at (some now);
  completed_at = none;
  cancelled_at = none;
}

abbrev pub of_batch : String → String → ItemRow → Bool
of_batch batch_id batch_item_id r = in_batch batch_id r && is_item batch_item_id r

abbrev pub can_relink : String → String → ℕ → ItemRow → Bool
can_relink batch_id batch_item_id max_attempts r =
    of_batch batch_id batch_item_id r
    && item_is r.status BatchItemStatus.failed_retryable
    && r.retry_eligible
    && is_none r.lease_token
    && ltb r.attempt_count max_attempts

abbrev pub is_relinked : String → ItemRow → Bool
is_relinked report_job_id r =
    item_is r.status BatchItemStatus.waiting_on_report_job
    && column_is r.report_job_id report_job_id

unfoldable pub relink_body : String → String → String → ℕ → Time → Tx Db LedgerError ItemRow
relink_body batch_id batch_item_id report_job_id max_attempts now db =
    elim (fetchone (of_batch batch_id batch_item_id) db.items) [
      | none ↦ elim (load_batch batch_id db) [
        | err e ↦ err e
        | ok _ ↦ err LedgerError.report_batch_item_not_found
      ]
      | some existing ↦
          if is_relinked report_job_id existing
          then ok (existing, db)
          else elim (fetchone (can_relink batch_id batch_item_id max_attempts) db.items) [
            | none ↦ err LedgerError.report_batch_item_cannot_be_replayed
            | some r ↦ ok (
              relink report_job_id now r,
              refresh_batch_status batch_id now (record db {
                items =
                    update (can_relink batch_id batch_item_id max_attempts)
                      (relink report_job_id now) db.items;
              }),
            )
          ]
    ]

unfoldable pub relink_failed_item_for_replay :
    String → String → String → ℕ → Time → Db → Result LedgerError ItemRow × Db
unfolding relink_body
relink_failed_item_for_replay batch_id batch_item_id replayed_report_job_id max_attempts now =
    connect (relink_body batch_id batch_item_id replayed_report_job_id max_attempts now)
