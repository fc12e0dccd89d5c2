-- ===== src/Batch/Ledger/Tables.antt =====
-- The two tables of `ReportBatchLedger`, its exceptions, and the private methods that its operations
-- share: `_load_batch` and `_refresh_batch_status` (src/app/report_batch_orchestrator/ledger.py).
use lotus_report.Prelude.{
  String, Bool, not, ◌&&◌, ◌||◌, Option, none, some, List, map, coalesce, if◌then◌else◌, str_eq,
}
use lotus_report.Sql.{Tx, err, ok, select, update, fetchone, order_by}
use lotus_report.Clock.{Time}
use lotus_report.Batch.Models.{
  BatchStatus, BatchItemStatus, batch_is, ItemRow, BatchRow, ReportBatchRecord,
}
use lotus_report.Batch.Lifecycle.{reconciled_batch_status}
use lotus_report.Batch.Selector.{SelectorError}

pub record Db : Type 0 where
  pub batches : List BatchRow
  pub items : List ItemRow

pub data LedgerError : Type 0 where
  missing_batch_idempotency_key : LedgerError
  batch_idempotency_key_reused_with_different_request : LedgerError
  integrity_error : LedgerError
  report_batch_not_found : LedgerError
  report_batch_item_not_found : LedgerError
  report_batch_item_cannot_be_replayed : LedgerError
  selector_error : SelectorError → LedgerError

abbrev pub is_batch : String → BatchRow → Bool
is_batch batch_id r = str_eq r.batch_id batch_id

abbrev pub in_batch : String → ItemRow → Bool
in_batch batch_id r = str_eq r.batch_id batch_id

abbrev pub is_item : String → ItemRow → Bool
is_item batch_item_id r = str_eq r.batch_item_id batch_item_id

-- status IN ('materialized', 'running')
abbrev pub is_active : BatchStatus → Bool
is_active s = batch_is s BatchStatus.materialized || batch_is s BatchStatus.running

-- status IN ('paused', 'cancelled')
abbrev pub refresh_blocked : BatchStatus → Bool
refresh_blocked s = batch_is s BatchStatus.paused || batch_is s BatchStatus.cancelled

-- status IN ('completed', 'completed_with_failures', 'failed')
abbrev pub is_finished : BatchStatus → Bool
is_finished s =
    batch_is s BatchStatus.completed
    || batch_is s BatchStatus.completed_with_failures
    || batch_is s BatchStatus.failed

-- SET lease_owner = NULL, ..., last_heartbeat_at = NULL
abbrev pub without_lease : ItemRow → ItemRow
without_lease r = record r {
  lease_owner = none;
  lease_token = none;
  lease_acquired_at = none;
  lease_expires_at = none;
  last_heartbeat_at = none;
}

unfoldable pub load_batch : String → Tx Db LedgerError ReportBatchRecord
load_batch batch_id db = elim (fetchone (is_batch batch_id) db.batches) [
  | none ↦ err LedgerError.report_batch_not_found
  | some row ↦ ok (
    record {
      row = row;
      items = order_by (λ r. r.item_position) (select (in_batch batch_id) db.items);
    },
    db,
  )
]

-- The SET clause of `_refresh_batch_status`.
abbrev pub reconcile_row : BatchStatus → Time → BatchRow → BatchRow
reconcile_row status now r = record r {
  status = status;
  updated_at = some now;
  completed_at =
      if batch_is status BatchStatus.completed
        || batch_is status BatchStatus.completed_with_failures
      then coalesce r.completed_at (some now)
      else r.completed_at;
  cancelled_at =
      if batch_is status BatchStatus.cancelled
      then coalesce r.cancelled_at (some now)
      else r.cancelled_at;
  failed_at =
      if batch_is status BatchStatus.failed then coalesce r.failed_at (some now) else r.failed_at;
}

abbrev pub item_statuses : String → List ItemRow → List BatchItemStatus
item_statuses batch_id items = map (λ r. r.status) (select (in_batch batch_id) items)

abbrev pub write_status : Option BatchStatus → String → Time → Db → Db
write_status none batch_id now db = db
write_status (some status) batch_id now db = record db {
  batches =
      update (λ r. is_batch batch_id r && not (refresh_blocked r.status)) (reconcile_row status now)
        db.batches;
}

-- `_refresh_batch_status`; without rows there is no status to write.
unfoldable pub refresh_batch_status : String → Time → Db → Db
refresh_batch_status batch_id now db =
    write_status (reconciled_batch_status (item_statuses batch_id db.items)) batch_id now db
