-- ===== src/Batch/Tests/Passes.antt =====
-- The theorems of admission, dispatch, execution and the worker at small worlds.
use lotus_report.Batch.Ledger.Create.{new_batch_row, new_item_row}
use lotus_report.Prelude.{
  ℕ, ◌+◌, ◌≤◌, String, ◌≡◌, ◌≢◌, ◌⊎◌, ◌↔◌, refl, true, false, none, some, [], ◌∷◌, length,
}
use lotus_report.Sql.{rowcount, select, order_by, connect, update, is_in, ok, err, fetchone}
use lotus_report.Text.{decimal, strip}
use lotus_report.Batch.Models.{ItemRow, BatchRow, ReportBatchRecord}
use lotus_report.Batch.Admission.{
  SchedulerScope, admit_scheduler, load_admitted_batch, admit_scheduler_lem,
  load_admitted_batch_lem, get_batch,
}
use lotus_report.Batch.Ledger.Tables.{load_batch, Db, LedgerError, is_batch}
use lotus_report.Batch.Ledger.Commands.{Command, run}
use lotus_report.Batch.Ledger.Soundness.{IsSound}
use lotus_report.Batch.Ledger.Preservation.{run-IsSound}
use lotus_report.Batch.Ledger.Control.{acquire_dispatch_items, start_running, lease}
use lotus_report.Batch.Ledger.Items.{mark_item_waiting_on_report_job, dispatch_to}
use lotus_report.Batch.Dispatch.{
  runtime_load_for_batch, dispatch_batch, evaluate_back_pressure, dispatch_items,
}
use lotus_report.Batch.World.{
  BatchRuntimeLoad, BatchDispatchPolicy, BatchDispatchResult, World, JobCreation, PassDraws,
}
use lotus_report.Batch.Dispatch.Bounds.{dispatch_batch-bounded}
use lotus_report.Batch.Execution.{JobRunner, JobView, found, execute_item}
use lotus_report.Batch.Execution.Quarantine.{is_foreign, IsQuarantined, execute_item-quarantines}
use lotus_report.Batch.Worker.{PassRequest, run_once}
use lotus_report.Batch.Worker.Passes.{run_once-IsSound}
use lotus_report.Jobs.Status.{ReportJobStatus}
use lotus_report.Batch.Tests.{advisor, stranger, batch_row, item, tables, tables-IsSound}

-- The report-job side counts its jobs and names each by the item's key.
abbrev creation : JobCreation ℕ
creation = record {
  rejects = λ r. none;
  create_portfolio_review_job = λ r caller key n. (ok key, n + 1);
}

abbrev no_load : BatchRuntimeLoad
no_load = record {
  active_batches = 0;
  active_items = 0;
  active_upstream_jobs = 0;
  active_render_jobs = 0;
  active_archive_jobs = 0;
}

abbrev policy : BatchDispatchPolicy
policy = record {
  max_active_batches = 1;
  max_active_items = 5;
  max_active_upstream_jobs = 3;
  max_active_render_jobs = 2;
  max_active_archive_jobs = 2;
  lease_seconds = 300;
}

abbrev pass_draws : PassDraws
pass_draws = record { lease_token = "token-1"; acquired_at = 6000000; item_at = λ k. 7000000 + k }

abbrev start : World ℕ
start = record { db = tables; jobs = 0 }

abbrev loaded : ReportBatchRecord
loaded = record { row = batch_row; items = item 1 "PF-2" ∷ item 2 "PF-1" ∷ [] }

abbrev dispatched : BatchDispatchResult
dispatched = record {
  batch_id = "batch-1";
  leased_count = 2;
  dispatched_count = 2;
  report_job_ids = "key-1:2026-04-22:1:PF-2" ∷ "key-1:2026-04-22:2:PF-1" ∷ [];
  back_pressure_reasons = [];
}

dispatch_batch-bounded_example :
    ((dispatched.leased_count ≡ 0)
      × (dispatched.dispatched_count ≡ 0)
      × (dispatched.back_pressure_reasons ≢ [])
      × ((dispatch_batch creation "batch-1" advisor "worker-1" no_load policy pass_draws start).1
          ≡ start))
    ⊎ (((runtime_load_for_batch loaded no_load tables).active_items + dispatched.leased_count
          ≤ policy.max_active_items)
        × (dispatched.dispatched_count ≤ dispatched.leased_count)
        × (length dispatched.report_job_ids ≡ dispatched.dispatched_count))
unfolding get_batch fetchone new_batch_row order_by select new_item_row dispatch_batch
    evaluate_back_pressure runtime_load_for_batch rowcount acquire_dispatch_items connect
    dispatch_items update is_in mark_item_waiting_on_report_job decimal load_batch
dispatch_batch-bounded_example =
    dispatch_batch-bounded creation "batch-1" advisor "worker-1" no_load policy pass_draws start
      loaded dispatched tables-IsSound refl refl

-- The tables after the first item is handed to a job.
abbrev pub waiting_item : ItemRow
waiting_item = dispatch_to "job-1" 7000000 (lease "worker-1" "token-1" 300 6000000 (item 1 "PF-2"))

abbrev pub waiting_tables : Db
waiting_tables = record {
  batches = start_running 6000000 batch_row ∷ [];
  items = waiting_item ∷ item 2 "PF-1" ∷ [];
}

pub waiting_tables-IsSound : IsSound waiting_tables
unfolding run mark_item_waiting_on_report_job connect rowcount acquire_dispatch_items order_by
    select new_item_row fetchone new_batch_row update is_in
waiting_tables-IsSound =
    run-IsSound
      (Command.acquire "batch-1" "worker-1" "token-1" 300 1 6000000
        ∷ Command.wait "item-1" "token-1" "job-1" 7000000
        ∷ [])
      tables tables-IsSound

abbrev pub waiting_batch : ReportBatchRecord
waiting_batch = record {
  row = start_running 6000000 batch_row;
  items = waiting_item ∷ item 2 "PF-1" ∷ [];
}

abbrev pub job : String → ReportJobStatus → JobView
job tenant status = record {
  job_id = "job-1";
  tenant_id = tenant;
  status = status;
  requested_output_formats = "pdf" ∷ [];
  failure_category = none;
  failure_message = none;
  retry_eligible = false;
  report_type = "portfolio_review";
  idempotency_key = "key-1:2026-04-22:1:PF-2";
  accepted_document_contract = none;
  render_template_id = none;
  render_template_version = none;
  archive_document_id = none;
}

-- Every job belongs to the tenant, and its execution completes while it waits on its owner.
abbrev runner : String → JobRunner ℕ
runner tenant = record {
  get_job = λ id n. found (job tenant ReportJobStatus.rendering);
  execute_job = λ id n.
      (ok (record { job = job tenant ReportJobStatus.completed; waiting_on_owner = true }), n + 1);
}

abbrev pub waiting_world : World ℕ
waiting_world = record { db = waiting_tables; jobs = 7 }

pub other_bank : stranger.tenant_id ≢ advisor.tenant_id
other_bank e = cc

execute_item-quarantines_example :
    IsQuarantined "item-1" waiting_world
      (execute_item (runner "other-bank") "batch-1" "item-1" 3 8000000 waiting_world)
unfolding get_batch fetchone new_batch_row order_by select new_item_row
execute_item-quarantines_example =
    execute_item-quarantines (runner "other-bank") "batch-1" "item-1" 3 8000000 waiting_world
      waiting_batch waiting_item "job-1" waiting_tables-IsSound refl refl refl refl
      (is_foreign (job "other-bank" ReportJobStatus.rendering) (λ e. other_bank e))

abbrev pass : PassRequest
pass = record {
  worker_id = "worker-1";
  runtime_load = no_load;
  dispatch_policy = policy;
  recover = true;
  max_attempts = 3;
  draws = pass_draws;
  recovered_at = 5500000;
  executed_at = λ k. 8000000 + k;
}

run_once-IsSound_example :
    IsSound (run_once creation (runner "private-bank") "batch-1" advisor pass start).1.db
run_once-IsSound_example =
    run_once-IsSound creation (runner "private-bank") "batch-1" advisor pass start tables-IsSound

abbrev scope : SchedulerScope
scope = record { tenant_id = "private-bank"; region = "SG"; booking_center_code = some "SGPB" }

admit_scheduler_example : (admit_scheduler scope advisor ≡ true) ↔ (
    (strip scope.tenant_id ≢ "")
    × (strip scope.region ≢ "")
    × (scope.tenant_id ≡ advisor.tenant_id)
    × (scope.region ≡ advisor.region)
    × (scope.booking_center_code ≡ advisor.booking_center_code))
admit_scheduler_example = admit_scheduler_lem scope advisor

load_admitted_batch_example :
    ((r : ReportBatchRecord)
      → load_admitted_batch "batch-1" advisor tables ≡ ok r
      → (fetchone (is_batch "batch-1") tables.batches ≡ some r.row)
        × (r.tenant_id ≡ "private-bank"))
    × ((row : BatchRow)
        → fetchone (is_batch "batch-1") tables.batches ≡ some row
        → row.tenant_id ≡ "private-bank"
        → (r : ReportBatchRecord) × (load_admitted_batch "batch-1" advisor tables ≡ ok r)
          × (r.row ≡ row))
    × ((row : BatchRow)
        → fetchone (is_batch "batch-1") tables.batches ≡ some row
        → row.tenant_id ≢ "private-bank"
        → load_admitted_batch "batch-1" advisor tables ≡ err LedgerError.report_batch_not_found)
    × (fetchone (is_batch "batch-1") tables.batches ≡ none
        → load_admitted_batch "batch-1" advisor tables ≡ err LedgerError.report_batch_not_found)
load_admitted_batch_example = load_admitted_batch_lem "batch-1" advisor tables
