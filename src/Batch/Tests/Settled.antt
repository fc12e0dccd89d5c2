-- ===== src/Batch/Tests/Settled.antt =====
-- An ended item of the small tables, through commands that try to take it up again.
use lotus_report.Prelude.{◌≡◌, refl, false, none, some, List, [], ◌∷◌}
use lotus_report.Sql.{fetchone, update, connect, select}
use lotus_report.Batch.Models.{ItemRow}
use lotus_report.Batch.Ledger.Tables.{refresh_batch_status, is_item}
use lotus_report.Batch.Ledger.Items.{mark_item_failed, Failure, fail}
use lotus_report.Batch.Lifecycle.{batch_item_failure_outcome, reconciled_batch_status}
use lotus_report.Batch.Ledger.Create.{new_item_row}
use lotus_report.Batch.Ledger.Commands.{execute, Command, run}
use lotus_report.Batch.Ledger.Preservation.{run-IsSound}
use lotus_report.Batch.Ledger.Settled.{run-settled}
use lotus_report.Batch.Tests.{item, tables, tables-IsSound}

abbrev final : Failure
final = record {
  error_category = "batch_execution_failed";
  error_summary = "rejected";
  retryable = false;
  max_attempts = 3;
  next_retry_at = none;
}

abbrev gone : ItemRow
gone = fail final 6000000 (item 1 "PF-2")

abbrev failing : List Command
failing = Command.fail "item-1" final 6000000 ∷ []

abbrev attempts : List Command
attempts =
    Command.acquire "batch-1" "worker-1" "token-1" 300 5 7000000
    ∷ Command.heartbeat "item-1" "token-1" 300 8000000
    ∷ Command.wait "item-1" "token-1" "job-1" 8000000
    ∷ Command.fail "item-2" final 9000000
    ∷ Command.retry "batch-1" 9 10000000
    ∷ Command.relink "batch-1" "item-1" "job-2" 9 11000000
    ∷ Command.cancel "batch-1" 12000000
    ∷ []

gone-found : fetchone (is_item "item-1") (run failing tables).items ≡ some gone
unfolding run execute mark_item_failed connect fetchone update refresh_batch_status new_item_row
    reconciled_batch_status select batch_item_failure_outcome
gone-found = refl

run-settled_example :
    fetchone (is_item "item-1") (run attempts (run failing tables)).items ≡ some gone
unfolding batch_item_failure_outcome
run-settled_example =
    run-settled attempts (run failing tables) "item-1" gone
      (run-IsSound failing tables tables-IsSound) gone-found refl refl
