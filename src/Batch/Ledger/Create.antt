-- ===== src/Batch/Ledger/Create.antt =====
-- `create_batch` of `ReportBatchLedger`: one batch for each idempotency key, with one item for each
-- materialized portfolio (src/app/report_batch_orchestrator/ledger.py).
pub mod Keeps
pub mod Appends
use Prim.Native.String.{◌++◌ as text_append}
use lotus_report.Prelude.{
  ℕ, suc, String, Bool, false, ◌&&◌, ◌||◌, Option, none, some, List, [], ◌∷◌, ◌++◌, map, length,
  is_none, if◌then◌else◌, str_eq,
}
use lotus_report.Sql.{return, Result, ok, err, Tx, fetchone, ◌>>◌, connect}
use lotus_report.Clock.{Time}
use lotus_report.Text.{strip, decimal, sort_texts}
use lotus_report.Batch.Models.{BatchStatus, BatchItemStatus, ItemRow, BatchRow, ReportBatchRecord}
use lotus_report.Batch.Selector.{
  BatchSelectorMode, BatchCreateRequest, ReportCallerContext, MaterializedPortfolio, SelectorError,
  materialize_portfolios,
}
use lotus_report.Batch.Ledger.Tables.{Db, LedgerError, is_batch, is_item, load_batch}

-- `hash_payload` of `compute_batch_request_hash`
pub record HashPayload : Type 0 where
  pub selector_mode : BatchSelectorMode
  pub materialized_portfolio_ids : List String
  pub as_of_date : String
  pub requested_output_formats : List String
  pub reporting_currency : Option String
  pub options : String
  pub tenant_id : String
  pub region : String

unfoldable pub batch_hash_payload :
    BatchCreateRequest → ReportCallerContext → List MaterializedPortfolio → HashPayload
batch_hash_payload request caller ms = record {
  selector_mode = request.selector_mode;
  materialized_portfolio_ids = map (λ m. m.portfolio_id) ms;
  as_of_date = request.as_of_date;
  requested_output_formats = sort_texts request.requested_output_formats;
  reporting_currency = request.reporting_currency;
  options = request.options;
  tenant_id = caller.tenant_id;
  region = caller.region;
}

-- What the call draws from outside: the SHA-256 digest of a payload's canonical JSON, the random ids
-- `rbch_...` of the batch and `rbit_...` of the item at each position, and the time.
pub record Draws : Type 0 where
  pub sha256 : HashPayload → String
  pub batch_id : String
  pub item_id : ℕ → String
  pub now : Time

mode_text : BatchSelectorMode → String
mode_text BatchSelectorMode.explicit_portfolio_list = "explicit_portfolio_list"
mode_text BatchSelectorMode.selected_subset = "selected_subset"
mode_text BatchSelectorMode.all_active_portfolios = "all_active_portfolios"
mode_text BatchSelectorMode.batch_manifest = "batch_manifest"

unfoldable pub new_batch_row :
    BatchCreateRequest
    → ReportCallerContext
    → String
    → List MaterializedPortfolio
    → Draws
    → BatchRow
unfolding mode_text batch_hash_payload
new_batch_row request caller key ms draws = record {
  batch_id = draws.batch_id;
  selector_mode = mode_text request.selector_mode;
  tenant_id = caller.tenant_id;
  region = caller.region;
  booking_center_code = caller.booking_center_code;
  materialized_portfolio_ids = map (λ m. m.portfolio_id) ms;
  requested_output_formats = sort_texts request.requested_output_formats;
  as_of_date = request.as_of_date;
  reporting_currency = request.reporting_currency;
  options_json = request.options;
  trigger_type = caller.trigger_type;
  triggered_by = caller.triggered_by;
  caller_application = caller.caller_application;
  role = caller.role;
  idempotency_key = key;
  request_hash = draws.sha256 (batch_hash_payload request caller ms);
  status = BatchStatus.materialized;
  item_count = length ms;
  correlation_id = caller.correlation_id;
  trace_id = caller.trace_id;
  created_at = draws.now;
  updated_at = some draws.now;
  started_at = none;
  completed_at = none;
  cancelled_at = none;
  failed_at = none;
}

-- f"{key}:{as_of_date}:{position}:{portfolio_id}"
unfoldable pub item_idempotency_key : String → String → ℕ → String → String
item_idempotency_key key date position portfolio_id = text_append key (
    text_append ":" (
      text_append date
        (text_append ":" (text_append (decimal position) (text_append ":" portfolio_id)))))

unfoldable pub new_item_row :
    BatchCreateRequest → String → Draws → ℕ → MaterializedPortfolio → ItemRow
unfolding item_idempotency_key
new_item_row request key draws position m = record {
  batch_item_id = draws.item_id position;
  batch_id = draws.batch_id;
  item_position = position;
  portfolio_id = m.portfolio_id;
  item_idempotency_key = item_idempotency_key key request.as_of_date position m.portfolio_id;
  status = BatchItemStatus.materialized;
  source_system = m.source_system;
  source_object = m.source_object;
  created_at = draws.now;
  report_job_id = none;
  lease_owner = none;
  lease_token = none;
  lease_acquired_at = none;
  lease_expires_at = none;
  last_heartbeat_at = none;
  dispatched_at = none;
  attempt_count = 0;
  retry_eligible = false;
  next_retry_at = none;
  last_error_category = none;
  last_error_summary = none;
  started_at = none;
  completed_at = none;
  cancelled_at = none;
}

-- A row that breaks the primary key or a UNIQUE constraint of its table is refused.
abbrev batch_conflict : BatchRow → BatchRow → Bool
batch_conflict new old = is_batch new.batch_id old || str_eq old.idempotency_key new.idempotency_key

pub insert_batch : BatchRow → Tx Db LedgerError (Unit {0})
insert_batch row db =
    if is_none (fetchone (batch_conflict row) db.batches)
    then ok (tt, record db { batches = db.batches ++ row ∷ [] })
    else err LedgerError.integrity_error

abbrev item_conflict : ItemRow → ItemRow → Bool
item_conflict new old =
    is_item new.batch_item_id old
    || str_eq old.item_idempotency_key new.item_idempotency_key
    || str_eq old.batch_id new.batch_id && str_eq old.portfolio_id new.portfolio_id

pub insert_item : ItemRow → Tx Db LedgerError (Unit {0})
insert_item row db =
    if is_none (fetchone (item_conflict row) db.items)
    then ok (tt, record db { items = db.items ++ row ∷ [] })
    else err LedgerError.integrity_error

-- for position, portfolio in enumerate(materialized, start=1)
insert_items :
    (ℕ → MaterializedPortfolio → ItemRow)
    → ℕ
    → List MaterializedPortfolio
    → Tx Db LedgerError (Unit {0})
insert_items row position [] = return tt
insert_items row position (m ∷ ms) = do
  insert_item (row position m)
  insert_items row (suc position) ms

pub insert_new :
    BatchCreateRequest
    → ReportCallerContext
    → String
    → List MaterializedPortfolio
    → Draws
    → Tx Db LedgerError ReportBatchRecord
unfolding insert_batch insert_items insert_item new_batch_row new_item_row
insert_new request caller key ms draws = do
  insert_batch (new_batch_row request caller key ms draws)
  insert_items (new_item_row request key draws) 1 ms
  load_batch draws.batch_id

-- The body under the lock: the row of this key, if there is one, decides.
unfoldable pub create_in :
    BatchCreateRequest
    → ReportCallerContext
    → String
    → List MaterializedPortfolio
    → Draws
    → Tx Db LedgerError ReportBatchRecord
create_in request caller key ms draws db =
    elim (fetchone (λ b. str_eq b.idempotency_key key) db.batches) [
      | none ↦ insert_new request caller key ms draws db
      | some existing ↦
          if str_eq existing.request_hash (draws.sha256 (batch_hash_payload request caller ms))
          then load_batch existing.batch_id db
          else err LedgerError.batch_idempotency_key_reused_with_different_request
    ]

unfoldable pub create_materialized :
    BatchCreateRequest
    → ReportCallerContext
    → String
    → Draws
    → Result SelectorError (List MaterializedPortfolio)
    → Db
    → Result LedgerError ReportBatchRecord × Db
create_materialized request caller key draws (err e) db = (err (LedgerError.selector_error e), db)
create_materialized request caller key draws (ok ms) db =
    connect (create_in request caller key ms draws) db

unfoldable pub create_batch :
    BatchCreateRequest
    → ReportCallerContext
    → Option String
    → Draws
    → Db
    → Result LedgerError ReportBatchRecord × Db
unfolding create_materialized create_in insert_new
create_batch request caller none draws db = (err LedgerError.missing_batch_idempotency_key, db)
create_batch request caller (some key) draws db =
    if str_eq (strip key) ""
    then (err LedgerError.missing_batch_idempotency_key, db)
    else create_materialized request caller (strip key) draws
        (materialize_portfolios request caller) db
