-- ===== src/Batch/Tests/Replay.antt =====
-- The theorems on the replay of batch items at a small world.
use lotus_report.Prelude.{ℕ, String, ◌≡◌, refl, none, some, [], ◌∷◌, arith}
use lotus_report.Sql.{ok, err, fetchone, order_by, select}
use lotus_report.Text.{strip}
use lotus_report.Batch.Models.{BatchItemStatus, ItemRow}
use lotus_report.Batch.Admission.{load_admitted_batch}
use lotus_report.Batch.Ledger.Items.{of_batch}
use lotus_report.Batch.Ledger.Create.{new_batch_row, new_item_row}
use lotus_report.Batch.World.{World}
use lotus_report.Batch.Execution.{JobView, found}
use lotus_report.Batch.Replay.{
  ReplayError, LineageEvent, ReplayJobs, BatchItemReplayResult, replay_branch_for, replay_key,
  lineage_type,
}
use lotus_report.Batch.Replay.Service.{replay_item}
use lotus_report.Batch.Replay.Refusals.{replay_item-idle}
use lotus_report.Batch.Replay.Tenancy.{replay_item-own_tenant}
use lotus_report.Jobs.Status.{ReportJobStatus}
use lotus_report.Batch.Tests.{advisor}
use lotus_report.Batch.Tests.Passes.{waiting_item, waiting_tables, job, waiting_world}

abbrev replayed : String → JobView
replayed tenant = record (job tenant ReportJobStatus.failed) {
  idempotency_key = "batch-item-replay:item-1:again";
}

abbrev lineage : LineageEvent
lineage = record {
  event_type = lineage_type;
  replayed_job_id = some "job-0";
  source_job_id = some "job-0";
}

-- Every job belongs to the tenant, and replays the job `job-0`.
abbrev replays : String → ReplayJobs ℕ
replays tenant = record {
  get_job = λ id n. found (replayed tenant);
  list_status_events = λ id n. ok (lineage ∷ []);
  rejects = λ r. none;
  create_portfolio_review_job = λ r caller key n. (ok (replayed tenant), n);
  upsert_job_relationship = λ r n. (ok tt, n);
  append_job_event = λ id draft n. (ok tt, n);
}

-- The linked item has succeeded.
abbrev settled_world : World ℕ
settled_world = record waiting_world {
  db = record waiting_tables {
    items = record waiting_item { status = BatchItemStatus.succeeded } ∷ [];
  };
}

settled_idle :
    (r : ItemRow)
    → fetchone (of_batch "batch-1" "item-1") settled_world.db.items ≡ some r
    → replay_branch_for r ≡ none
unfolding fetchone new_item_row replay_branch_for
settled_idle r e = ground arith

replay_item-idle_example :
    (e : ReplayError) × ((port : ReplayJobs ℕ)
      → replay_item port "batch-1" "item-1" "again" advisor (some "again") 9000000 settled_world
        ≡ (err e, settled_world))
replay_item-idle_example =
    replay_item-idle "again" advisor (some "again") 9000000 settled_world "batch-1" "item-1"
      settled_idle

abbrev found_again : BatchItemReplayResult
found_again = record {
  batch_id = "batch-1";
  item = waiting_item;
  source_report_job = replayed "private-bank";
  replayed_report_job = replayed "private-bank";
  idempotency_key = " again ";
}

replay_item-own_tenant_example : found_again.source_report_job.tenant_id ≡ advisor.tenant_id
unfolding replay_item load_admitted_batch fetchone new_batch_row order_by select new_item_row
    replay_key replay_branch_for strip
replay_item-own_tenant_example =
    replay_item-own_tenant (replays "private-bank") "batch-1" "item-1" "again" advisor
      (some " again ") 9000000 waiting_world found_again refl
