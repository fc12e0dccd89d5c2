-- ===== src/Sql.antt =====
-- The SQL statements that the SQLite ledgers run, over a table as the list of its rows
-- (src/app/report_batch_orchestrator/ledger.py, src/app/reporting_jobs/ledger.py). A `WHERE` clause
-- is a Boolean test, `SET` a function on rows, and `rowcount` the number of rows that pass the test.
mod Statements
mod Laws
mod Keys
mod Found
mod Transactions
mod Calls
mod Steps
unfoldable pub use Statements.{
  select, update, rowcount, fetchone, insert_by, order_by, insert_row, sort_rows, is_in,
}
pub use Statements.{IsUnique}
pub use Laws.*
pub use Keys.*
pub use Found.*
pub use Transactions.{
  Result, ok, err, Tx, return, raise, lift, ◌>>=◌, ◌>>◌, error_rolls_back, connect_keeps, bind-ok,
  bind_step, connect-returned, returned-connect,
}
unfoldable pub use Transactions.{connect}
pub use Calls.*
pub use Steps.*
