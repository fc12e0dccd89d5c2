-- ===== src/Batch/Ledger/Control.antt =====
-- The operations of `ReportBatchLedger` on a whole batch: dispatch, retry, pause, resume, cancel and
-- the recovery of expired leases (src/app/report_batch_orchestrator/ledger.py).
use lotus_report.Prelude.{
  ℕ, suc, zero, ◌+◌, String, Bool, true, false, not, ◌&&◌, ◌||◌, Option, none, some, List, [], ◌∷◌,
  map, coalesce, is_none, take, ltb, length,
}
use lotus_report.Sql.{
  Result, ok, err, Tx, select, update, rowcount, fetchone, order_by, is_in, connect,
}
use lotus_report.Clock.{Time, seconds, before, not_after}
use lotus_report.Batch.Models.{
  BatchStatus, BatchItemStatus, batch_is, item_is, ItemRow, BatchRow, BatchControlResult,
  BatchRecoveryResult,
}
use lotus_report.Batch.Ledger.Tables.{
  Db, LedgerError, is_batch, in_batch, is_active, is_finished, without_lease, load_batch,
  refresh_batch_status,
}

-- lease_expires_at IS NOT NULL AND lease_expires_at < ?
abbrev pub lease_expired : Option Time → Time → Bool
lease_expired none now = false
lease_expired (some t) now = before t now

-- next_retry_at IS NULL OR next_retry_at <= ?
abbrev pub retry_due : Option Time → Time → Bool
retry_due none now = true
retry_due (some t) now = not_after t now

abbrev pub retry_ready : Time → ItemRow → Bool
retry_ready now r =
    item_is r.status BatchItemStatus.failed_retryable
    && r.retry_eligible
    && retry_due r.next_retry_at now

-- The status part of the WHERE clause of `acquire_dispatch_items`.
abbrev pub dispatch_ready : Time → ItemRow → Bool
dispatch_ready now r =
    item_is r.status BatchItemStatus.materialized
    || item_is r.status BatchItemStatus.recovery_pending
    || item_is r.status BatchItemStatus.leased && lease_expired r.lease_expires_at now
    || retry_ready now r

-- EXISTS (SELECT 1 FROM report_batch WHERE ... status IN ('materialized', 'running'))
abbrev pub batch_active : List BatchRow → String → Bool
batch_active batches batch_id =
    not (is_none (fetchone (λ b. is_batch batch_id b && is_active b.status) batches))

abbrev pub dispatchable : List BatchRow → String → Time → ItemRow → Bool
dispatchable batches batch_id now r =
    in_batch batch_id r
    && is_none r.report_job_id
    && batch_active batches r.batch_id
    && dispatch_ready now r

abbrev pub lease : String → String → ℕ → Time → ItemRow → ItemRow
lease worker_id lease_token lease_seconds now r = record r {
  status = BatchItemStatus.leased;
  lease_owner = some worker_id;
  lease_token = some lease_token;
  lease_acquired_at = some now;
  lease_expires_at = some (now + seconds lease_seconds);
  last_heartbeat_at = some now;
  started_at = coalesce r.started_at (some now);
}

abbrev pub start_running : Time → BatchRow → BatchRow
start_running now b = record b {
  status = BatchStatus.running;
  updated_at = some now;
  started_at = coalesce b.started_at (some now);
}

abbrev pub selected_ids : Db → String → Time → ℕ → List String
selected_ids db batch_id now limit =
    map (λ r. r.batch_item_id)
      (take limit
        (order_by (λ r. r.item_position) (select (dispatchable db.batches batch_id now) db.items)))

-- batch_item_id IN (...)
abbrev pub with_ids : List String → ItemRow → Bool
with_ids ids r = is_in ids r.batch_item_id

-- Both UPDATE statements of `acquire_dispatch_items`; no statement runs without a selected row.
abbrev pub lease_all : List String → String → String → String → ℕ → Time → Db → List ItemRow × Db
lease_all [] batch_id worker_id lease_token lease_seconds now db = ([], db)
lease_all (i ∷ is) batch_id worker_id lease_token lease_seconds now db =
    let items =
      update (with_ids (i ∷ is)) (lease worker_id lease_token lease_seconds now) db.items in
    let batches =
      update (λ b. is_batch batch_id b && batch_is b.status BatchStatus.materialized)
        (start_running now) db.batches in
    (
      order_by (λ r. r.item_position) (select (with_ids (i ∷ is)) items),
      record { batches = batches; items = items },
    )

-- `lease_token` stands for the fresh token of this call, `lease_` and a random UUID.
unfoldable pub acquire_dispatch_items :
    String → String → String → ℕ → ℕ → Time → Db → Result LedgerError (List ItemRow) × Db
acquire_dispatch_items batch_id worker_id lease_token lease_seconds zero now db = (ok [], db)
acquire_dispatch_items batch_id worker_id lease_token lease_seconds (suc limit) now db =
    connect
      (λ d. ok (
        lease_all (selected_ids d batch_id now (suc limit)) batch_id worker_id lease_token
          lease_seconds now d))
      db

abbrev pub control_result : String → ℕ → Tx Db LedgerError BatchControlResult
control_result batch_id affected db = elim (load_batch batch_id db) [
  | err e ↦ err e
  | ok (batch, db') ↦
      ok (
        record { batch_id = batch_id; affected_count = affected; batch_status = batch.status },
        db',
      )
]

abbrev pub can_retry : String → ℕ → Time → ItemRow → Bool
can_retry batch_id max_attempts now r =
    in_batch batch_id r
    && is_none r.report_job_id
    && ltb r.attempt_count max_attempts
    && retry_ready now r

abbrev pub rematerialize : ItemRow → ItemRow
rematerialize r = record (without_lease r) {
  status = BatchItemStatus.materialized;
  retry_eligible = false;
  next_retry_at = none;
}

unfoldable pub retry_failed_items :
    String → ℕ → Time → Db → Result LedgerError BatchControlResult × Db
retry_failed_items batch_id max_attempts now = connect λ db.
    control_result batch_id (rowcount (can_retry batch_id max_attempts now) db.items) (
      refresh_batch_status batch_id now
        (record db { items = update (can_retry batch_id max_attempts now) rematerialize db.items }))

abbrev pub set_batch : BatchStatus → Time → BatchRow → BatchRow
set_batch status now b = record b { status = status; updated_at = some now }

abbrev control_batch :
    (BatchStatus → Bool) → (BatchRow → BatchRow) → String → Tx Db LedgerError BatchControlResult
control_batch from f batch_id db =
    let p = λ (b : BatchRow). is_batch batch_id b && from b.status in
    control_result batch_id (rowcount p db.batches) (record db { batches = update p f db.batches })

unfoldable pub pause_batch : String → Time → Db → Result LedgerError BatchControlResult × Db
pause_batch batch_id now =
    connect (control_batch (λ s. is_active s) (set_batch BatchStatus.paused now) batch_id)

unfoldable pub resume_batch : String → Time → Db → Result LedgerError BatchControlResult × Db
resume_batch batch_id now = connect (
    control_batch (λ s. batch_is s BatchStatus.paused) (set_batch BatchStatus.materialized now)
      batch_id)

abbrev pub cancel_eligible : BatchItemStatus → Bool
cancel_eligible s =
    item_is s BatchItemStatus.materialized
    || item_is s BatchItemStatus.recovery_pending
    || item_is s BatchItemStatus.failed_retryable
    || item_is s BatchItemStatus.leased

abbrev pub can_cancel : String → ItemRow → Bool
can_cancel batch_id r = in_batch batch_id r && cancel_eligible r.status && is_none r.report_job_id

abbrev pub cancel_item : Time → ItemRow → ItemRow
cancel_item now r = record (without_lease r) {
  status = BatchItemStatus.cancelled;
  retry_eligible = false;
  next_retry_at = none;
  cancelled_at = some now;
}

abbrev pub cancel_row : Time → BatchRow → BatchRow
cancel_row now b = record b {
  status = BatchStatus.cancelled;
  updated_at = some now;
  cancelled_at = some now;
}

unfoldable pub cancel_batch : String → Time → Db → Result LedgerError BatchControlResult × Db
cancel_batch batch_id now = connect λ db.
    control_result batch_id (rowcount (can_cancel batch_id) db.items) (record {
      batches =
          update (λ b. is_batch batch_id b && not (is_finished b.status)) (cancel_row now)
            db.batches;
      items = update (can_cancel batch_id) (cancel_item now) db.items;
    })

abbrev pub can_recover : String → Time → ItemRow → Bool
can_recover batch_id now r =
    in_batch batch_id r
    && item_is r.status BatchItemStatus.leased
    && is_none r.report_job_id
    && lease_expired r.lease_expires_at now

abbrev pub recover_item : ItemRow → ItemRow
recover_item r = record (without_lease r) {
  status = BatchItemStatus.recovery_pending;
  retry_eligible = true;
  last_error_category = some "expired_item_lease";
  last_error_summary = some "Batch item lease expired before report-job dispatch.";
}

unfoldable pub recover_expired_leases :
    String → Time → Db → Result LedgerError BatchRecoveryResult × Db
recover_expired_leases batch_id now = connect λ db.
    let rows = select (can_recover batch_id now) db.items in
    ok (
      record {
        batch_id = batch_id;
        recovered_count = length rows;
        recovery_pending_item_ids = map (λ r. r.batch_item_id) rows;
      },
      refresh_batch_status batch_id now
          (record db { items = update (can_recover batch_id now) recover_item db.items }),
    )
