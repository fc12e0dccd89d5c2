-- ===== src/Batch/Ledger/Commands.antt =====
-- Every operation of `ReportBatchLedger` that writes, as one type of commands, and their runs.
use lotus_report.Prelude.{ℕ, String, Option, List, [], ◌∷◌}
use lotus_report.Clock.{Time}
use lotus_report.Batch.Selector.{BatchCreateRequest, ReportCallerContext}
use lotus_report.Batch.Ledger.Tables.{Db}
use lotus_report.Batch.Ledger.Create.{Draws, create_batch}
use lotus_report.Batch.Ledger.Items.{
  Failure, heartbeat_item_lease, mark_item_waiting_on_report_job, mark_item_succeeded,
  mark_item_failed, relink_failed_item_for_replay,
}
use lotus_report.Batch.Ledger.Control.{
  acquire_dispatch_items, retry_failed_items, pause_batch, resume_batch, cancel_batch,
  recover_expired_leases,
}

pub data Command : Type 0 where
  create : BatchCreateRequest → ReportCallerContext → Option String → Draws → Command
  acquire : String → String → String → ℕ → ℕ → Time → Command
  heartbeat : String → String → ℕ → Time → Command
  wait : String → String → String → Time → Command
  succeed : String → String → Time → Command
  fail : String → Failure → Time → Command
  relink : String → String → String → ℕ → Time → Command
  retry : String → ℕ → Time → Command
  pause : String → Time → Command
  resume : String → Time → Command
  cancel : String → Time → Command
  recover : String → Time → Command

-- The tables after one command, whatever it returns or raises.
unfoldable pub execute : Command → Db → Db
execute (create request caller key draws) db = (create_batch request caller key draws db).1
execute (acquire b w token n limit now) db = (acquire_dispatch_items b w token n limit now db).1
execute (heartbeat i token n now) db = (heartbeat_item_lease i token n now db).1
execute (wait i token job now) db = (mark_item_waiting_on_report_job i token job now db).1
execute (succeed i job now) db = (mark_item_succeeded i job now db).1
execute (fail i e now) db = (mark_item_failed i e now db).1
execute (relink b i job m now) db = (relink_failed_item_for_replay b i job m now db).1
execute (retry b m now) db = (retry_failed_items b m now db).1
execute (pause b now) db = (pause_batch b now db).1
execute (resume b now) db = (resume_batch b now db).1
execute (cancel b now) db = (cancel_batch b now db).1
execute (recover b now) db = (recover_expired_leases b now db).1

-- Any sequence of commands, from any callers and in any order.
unfoldable pub run : List Command → Db → Db
unfolding execute
run [] db = db
run (c ∷ cs) db = run cs (execute c db)

abbrev pub empty_db : Db
empty_db = record { batches = []; items = [] }
