-- ===== src/Batch/Tests.antt =====
-- A small table of batches, as commands make it, for the tests of the batch side.
mod Ledger
mod Passes
mod Replay
mod Projection
mod Settled
use lotus_report.Prelude.{
  ◌==◌, if◌then◌else◌, true, ℕ, String, ◌≡◌, refl, sym, subst, Option, none, some, List, [], ◌∷◌,
}
use lotus_report.Sql.{connect, select, is_in, fetchone, Result, ok}
use lotus_report.Clock.{Time, seconds}
use lotus_report.Text.{decimal, strip}
use lotus_report.Batch.Models.{BatchStatus, BatchItemStatus, ItemRow, BatchRow, ReportBatchRecord}
use lotus_report.Batch.Selector.{
  MaterializedPortfolio, BatchSelectorMode, PortfolioBatchCandidate, BatchCreateRequest,
  ReportCallerContext, materialize_portfolios,
}
use lotus_report.Batch.Ledger.Tables.{Db, load_batch}
use lotus_report.Batch.Ledger.Control.{lease, start_running, acquire_dispatch_items}
use lotus_report.Batch.Ledger.Create.{
  Draws, HashPayload, create_batch, create_in, create_materialized, insert_new, new_batch_row,
  new_item_row,
}
use lotus_report.Batch.Ledger.Commands.{Command, execute, run, empty_db}
use lotus_report.Batch.Ledger.Soundness.{IsSound}
use lotus_report.Batch.Ledger.Preservation.{run-IsSound, empty_db-IsSound}

abbrev pub advisor : ReportCallerContext
advisor = record {
  tenant_id = "private-bank";
  region = "SG";
  booking_center_code = some "SGPB";
  trigger_type = "scheduled";
  triggered_by = "scheduler";
  caller_application = "lotus-report";
  role = none;
  correlation_id = "corr-1";
  trace_id = "trace-1";
}

abbrev pub stranger : ReportCallerContext
stranger = record advisor { tenant_id = "other-bank" }

abbrev pub candidate : String → PortfolioBatchCandidate
candidate id = record {
  portfolio_id = id;
  tenant_id = "private-bank";
  region = "SG";
  active = true;
  selected = true;
  source_system = "lotus-core";
  source_object = "portfolio";
}

abbrev pub request : BatchCreateRequest
request = record {
  selector_mode = BatchSelectorMode.explicit_portfolio_list;
  portfolio_ids = " PF-2 " ∷ "PF-1" ∷ [];
  source_candidates = candidate "PF-1" ∷ candidate "PF-2" ∷ candidate "PF-3" ∷ [];
  as_of_date = "2026-04-22";
  requested_output_formats = "pdf" ∷ "json" ∷ [];
  reporting_currency = some "SGD";
  options = "{}";
  max_batch_size = 10;
}

-- A digest that tells payloads apart by their date.
abbrev pub draws : String → Time → Draws
draws id now = record {
  sha256 = λ (p : HashPayload). p.as_of_date;
  batch_id = id;
  item_id = λ position. if position == 1 then "item-1" else "item-2";
  now = now;
}

abbrev pub create_command : Command
create_command = Command.create request advisor (some " key-1 ") (draws "batch-1" 5000000)

abbrev pub portfolio : String → MaterializedPortfolio
portfolio id = record {
  portfolio_id = id;
  source_system = "lotus-core";
  source_object = "portfolio";
}

abbrev pub batch_row : BatchRow
batch_row =
    new_batch_row request advisor "key-1" (portfolio "PF-2" ∷ portfolio "PF-1" ∷ [])
      (draws "batch-1" 5000000)

abbrev pub item : ℕ → String → ItemRow
item position id = new_item_row request "key-1" (draws "batch-1" 5000000) position (portfolio id)

-- The tables after the request is accepted.
abbrev pub created : Db
created = run (create_command ∷ []) empty_db

-- The same, written out.
abbrev pub tables : Db
tables = record { batches = batch_row ∷ []; items = item 1 "PF-2" ∷ item 2 "PF-1" ∷ [] }

pub created-tables : created ≡ tables
unfolding run execute create_batch materialize_portfolios strip is_in select fetchone connect
    decimal load_batch
created-tables = refl

pub tables-IsSound : IsSound tables
tables-IsSound =
    subst (λ d. IsSound d) created-tables
      (run-IsSound (create_command ∷ []) empty_db empty_db-IsSound)
