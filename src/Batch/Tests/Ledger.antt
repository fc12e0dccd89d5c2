-- ===== src/Batch/Tests/Ledger.antt =====
-- The theorems of the batch ledger at small tables.
use lotus_report.Text.{strip, decimal}
use lotus_report.Prelude.{
  Bool, str_eq, ℕ, String, ◌≡◌, ◌≢◌, ◌≤◌, refl, true, none, some, List, [], ◌∷◌, All, arith, length,
}
use lotus_report.Sql.{select, is_in, order_by, connect, ok, fetchone, rowcount, update}
use lotus_report.Clock.{before, Time}
use lotus_report.Batch.Models.{BatchStatus, BatchItemStatus, ItemRow, BatchRow, ReportBatchRecord}
use lotus_report.Batch.Lifecycle.{reconciled_batch_status}
use lotus_report.Batch.Selector.{materialize_portfolios}
use lotus_report.Batch.Selector.Scope.{IsMaterialized, materialize_portfolios-IsMaterialized}
use lotus_report.Batch.Ledger.Tables.{load_batch, Db, is_batch}
use lotus_report.Batch.Ledger.Items.{Failure}
use lotus_report.Batch.Ledger.Control.{
  start_running, lease, dispatchable, acquire_dispatch_items, retry_failed_items,
}
use lotus_report.Batch.Ledger.Create.{new_batch_row, new_item_row, create_batch}
use lotus_report.Batch.Ledger.Commands.{Command, run, empty_db}
use lotus_report.Batch.Ledger.Invariant.{IsWellFormed}
use lotus_report.Batch.Ledger.Soundness.{IsSound}
use lotus_report.Batch.Ledger.Preservation.{run-IsSound}
use lotus_report.Batch.Ledger.Leases.{acquire_exclusive}
use lotus_report.Batch.Ledger.Progress.{acquire-progress}
use lotus_report.Batch.Ledger.Once.{create-once}
use lotus_report.Batch.Ledger.Cancelled.{run-cancelled}
use lotus_report.Batch.Ledger.Status.{status_of_tallies, reconciled-tallies}
use lotus_report.Batch.Ledger.Retry.{retry-stranded}
use lotus_report.Batch.Tests.{
  advisor, request, draws, portfolio, batch_row, item, tables, tables-IsSound,
}

abbrev broken : Failure
broken = record {
  error_category = "batch_execution_failed";
  error_summary = "timeout";
  retryable = true;
  max_attempts = 3;
  next_retry_at = none;
}

abbrev script : List Command
script =
    Command.acquire "batch-1" "worker-1" "token-1" 300 1 6000000
    ∷ Command.heartbeat "item-1" "token-1" 300 7000000
    ∷ Command.wait "item-1" "token-1" "job-1" 8000000
    ∷ Command.fail "item-2" broken 9000000
    ∷ Command.cancel "batch-1" 10000000
    ∷ Command.recover "batch-1" 900000000
    ∷ []

run-IsSound_example : IsSound (run script tables)
run-IsSound_example = run-IsSound script tables tables-IsSound

abbrev first : ItemRow
first = lease "worker-1" "token-1" 300 6000000 (item 1 "PF-2")

abbrev second : ItemRow
second = lease "worker-2" "token-2" 300 7500000 (item 2 "PF-1")

acquire_exclusive_example :
    All
      (λ (x : ItemRow). All (λ (y : ItemRow). x.batch_item_id ≢ y.batch_item_id) (second ∷ []))
      (first ∷ [])
unfolding acquire_dispatch_items connect order_by select new_item_row fetchone new_batch_row update
    is_in before
acquire_exclusive_example =
    acquire_exclusive tables "batch-1" "worker-1" "token-1" 300 1 6000000 (first ∷ []) "batch-1"
      "worker-2" "token-2" 300 5 7500000 (second ∷ []) tables-IsSound refl refl (omega arith)

acquire-progress_example :
    (rows : List ItemRow) × ((acquire_dispatch_items "batch-1" "worker-1" "token-1" 300 1 6000000
        tables).0
      ≡ ok rows)
    × (1 ≤ length rows)
unfolding rowcount new_item_row fetchone new_batch_row
acquire-progress_example =
    acquire-progress tables "batch-1" "worker-1" "token-1" 300 6000000 1 (omega arith)
      (le_two (rowcount (dispatchable tables.batches "batch-1" 6000000) tables.items) refl)
  where
    le_two : (n : ℕ) → n ≡ 2 → 1 ≤ n
    le_two n e = omega (arith, e)

abbrev leased_tables : Db
leased_tables = record {
  batches = start_running 6000000 batch_row ∷ [];
  items = first ∷ item 2 "PF-1" ∷ [];
}

abbrev created_batch : ReportBatchRecord
created_batch = record { row = batch_row; items = item 1 "PF-2" ∷ item 2 "PF-1" ∷ [] }

abbrev later : Db
later =
    run script (create_batch request advisor (some " key-1 ") (draws "batch-1" 5000000) empty_db).1

create-once_example :
    (s : ReportBatchRecord) × (create_batch request advisor
        (some " key-1 ")
        (draws "batch-9" 99000000)
        later
      ≡ (ok s, later))
    × (s.batch_id ≡ "batch-1")
unfolding create_batch strip materialize_portfolios is_in select fetchone connect decimal load_batch
    order_by
create-once_example =
    create-once request advisor (some " key-1 ") (draws "batch-1" 5000000)
      (draws "batch-9" 99000000) empty_db created_batch script refl refl

abbrev cancelled_row : BatchRow
cancelled_row = record batch_row { status = BatchStatus.cancelled }

abbrev cancelled_tables : Db
cancelled_tables = record { batches = cancelled_row ∷ []; items = item 1 "PF-2" ∷ [] }

one_row : {A : Type 0} (p : A → Bool) (r : A) → rowcount p (r ∷ []) ≤ 1
unfolding rowcount
one_row p r = ground arith

one_batch-IsSound :
    (b : BatchRow) (r : ItemRow)
    → IsWellFormed r
    → IsSound (record { batches = b ∷ []; items = r ∷ [] })
one_batch-IsSound b r h = record {
  rows = (h, tt);
  item_ids = λ k. one_row (λ (x : ItemRow). str_eq x.batch_item_id k) r;
  batch_ids = λ k. one_row (λ (x : BatchRow). str_eq x.batch_id k) b;
  batch_keys = λ k. one_row (λ (x : BatchRow). str_eq x.idempotency_key k) b;
}

item_one-IsWellFormed : IsWellFormed (item 1 "PF-2")
unfolding new_item_row
item_one-IsWellFormed = ground arith

run-cancelled_example :
    (next : BatchRow) × (fetchone (is_batch "batch-1") (run script cancelled_tables).batches
      ≡ some next)
    × (next.status ≡ BatchStatus.cancelled)
    × (next.tenant_id ≡ "private-bank")
    × ((w token : String) (n limit : ℕ) (now : Time)
        → acquire_dispatch_items "batch-1" w token n limit now (run script cancelled_tables)
          ≡ (ok [], run script cancelled_tables))
unfolding fetchone new_batch_row
run-cancelled_example =
    run-cancelled script cancelled_tables "batch-1" cancelled_row
      (one_batch-IsSound cancelled_row (item 1 "PF-2") item_one-IsWellFormed) refl refl

reconciled-tallies_example :
    reconciled_batch_status
      (BatchItemStatus.succeeded ∷ BatchItemStatus.failed_terminal ∷ BatchItemStatus.succeeded ∷ [])
    ≡ status_of_tallies 3 2 0 1 0
unfolding rowcount
reconciled-tallies_example =
    reconciled-tallies
      (BatchItemStatus.succeeded ∷ BatchItemStatus.failed_terminal ∷ BatchItemStatus.succeeded ∷ [])

materialize_portfolios-IsMaterialized_example :
    IsMaterialized request advisor (portfolio "PF-2" ∷ portfolio "PF-1" ∷ [])
unfolding materialize_portfolios is_in select strip fetchone
materialize_portfolios-IsMaterialized_example =
    materialize_portfolios-IsMaterialized request advisor (portfolio "PF-2" ∷ portfolio "PF-1" ∷ [])
      refl

abbrev failed_row : BatchRow
failed_row = record batch_row { status = BatchStatus.failed }

abbrev failed_tables : Db
failed_tables = record {
  batches = failed_row ∷ [];
  items =
      record (item 1 "PF-2") {
        status = BatchItemStatus.failed_retryable;
        attempt_count = 1;
        retry_eligible = true;
      }
      ∷ [];
}

retry-stranded_example :
    let after = (retry_failed_items "batch-1" 3 20000000 failed_tables).1 in
    (fetchone (is_batch "batch-1") after.batches ≡ some failed_row)
    × ((w token : String) (n limit : ℕ) (now : Time)
        → acquire_dispatch_items "batch-1" w token n limit now after ≡ (ok [], after))
unfolding fetchone new_batch_row rowcount new_item_row
retry-stranded_example =
    retry-stranded failed_tables "batch-1" 3 20000000 failed_row
      (λ k. one_row (λ (x : BatchRow). str_eq x.batch_id k) failed_row) refl refl (omega arith)
