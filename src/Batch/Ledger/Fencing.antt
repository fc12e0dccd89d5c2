-- ===== src/Batch/Ledger/Fencing.antt =====
-- A lease token fences the item: only the worker that holds the current token can extend the lease
-- or hand the item to a report job.
use mathlib.Core.Option
use lotus_report.Prelude.{String, ◌≡◌, ◌≢◌, Bool, ◌&&◌, some}
use lotus_report.Sql.{Result, ok, fetchone}
use lotus_report.Batch.Models.{BatchItemStatus, item_is, ItemRow}
use lotus_report.Batch.Ledger.Tables.{Db, LedgerError, is_item}
use lotus_report.Batch.Ledger.Items.{column_is}

-- The row is leased under this token.
abbrev pub holds : String → ItemRow → Bool
holds token r = column_is r.lease_token token && item_is r.status BatchItemStatus.leased

-- The call returned the row, which stands in the table under its id; every other item and the batches
-- are as they were.
pub record IsWritten (i : String) (row : ItemRow) (before : Db)
    (run : Result LedgerError ItemRow × Db) : Type 0 where
  pub answer : run.0 ≡ ok row
  pub stored : fetchone (is_item i) run.1.items ≡ some row
  pub others :
      (k : String) → k ≢ i → fetchone (is_item k) run.1.items ≡ fetchone (is_item k) before.items
  pub batches : run.1.batches ≡ before.batches
