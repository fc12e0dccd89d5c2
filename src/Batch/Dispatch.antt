-- ===== src/Batch/Dispatch.antt =====
-- src/app/report_batch_orchestrator/dispatch.py: back pressure, and the hand-over of leased items to
-- report jobs. The ledger of report jobs is a parameter, with a state of its own.
pub mod Bounds
use Prim.Native.String.{◌++◌ as text_append}
use lotus_report.Prelude.{
  ◌||◌, ℕ, suc, ◌+◌, ◌-◌, min, String, Bool, true, false, Option, none, some, List, [], ◌∷◌, ◌++◌,
  if◌then◌else◌, leb, length,
}
use lotus_report.Sql.{Result, ok, err, Call, after, rowcount}
use lotus_report.Clock.{Time}
use lotus_report.Text.{cut}
use lotus_report.Batch.Models.{
  BatchStatus, BatchItemStatus, batch_is, item_is, ItemRow, ReportBatchRecord,
}
use lotus_report.Batch.Selector.{ReportCallerContext}
use lotus_report.Batch.Admission.{get_batch}
use lotus_report.Batch.Ledger.Tables.{Db, LedgerError}
use lotus_report.Batch.Ledger.Items.{Failure, mark_item_failed, mark_item_waiting_on_report_job}
use lotus_report.Batch.Ledger.Control.{acquire_dispatch_items}
use lotus_report.Batch.World.{
  BatchDispatchPolicy, BatchDispatchResult, BatchRuntimeLoad, JobCreation, JobRequest, PassDraws,
  PassError, World, on_jobs, on_ledger,
}

-- `reasons.append(reason)` under its condition
abbrev pub reason_if : Bool → String → List String → List String
reason_if b reason rest = if b then reason ∷ rest else rest

unfoldable pub evaluate_back_pressure : BatchRuntimeLoad → BatchDispatchPolicy → List String
evaluate_back_pressure load policy =
    reason_if (leb policy.max_active_batches load.active_batches) "max_active_batches_reached" (
      reason_if (leb policy.max_active_items load.active_items) "max_active_items_reached" (
        reason_if (leb policy.max_active_upstream_jobs load.active_upstream_jobs)
          "max_active_upstream_jobs_reached"
          (reason_if (leb policy.max_active_render_jobs load.active_render_jobs)
            "max_active_render_jobs_reached"
            (reason_if (leb policy.max_active_archive_jobs load.active_archive_jobs)
              "max_active_archive_jobs_reached" []))))

-- `count_active_batches`
unfoldable pub count_active_batches : Db → ℕ
count_active_batches db = rowcount (λ b. batch_is b.status BatchStatus.running) db.batches

-- `count_active_items`
unfoldable pub count_active_items : Db → ℕ
count_active_items db =
    rowcount
      (λ (r : ItemRow).
        item_is r.status BatchItemStatus.leased
        || item_is r.status BatchItemStatus.waiting_on_report_job)
      db.items

-- `_runtime_load_for_batch`; subtraction on ℕ stops at 0 like `max(0, ...)`.
unfoldable pub runtime_load_for_batch : ReportBatchRecord → BatchRuntimeLoad → Db → BatchRuntimeLoad
unfolding count_active_batches count_active_items
runtime_load_for_batch batch external db = record {
  active_batches =
      (if batch_is batch.status BatchStatus.running
        then count_active_batches db - 1
        else count_active_batches db)
      + external.active_batches;
  active_items = count_active_items db + external.active_items;
  active_upstream_jobs = external.active_upstream_jobs;
  active_render_jobs = external.active_render_jobs;
  active_archive_jobs = external.active_archive_jobs;
}

abbrev pub request_of : ReportBatchRecord → ItemRow → JobRequest
request_of batch item = record {
  portfolio_ids = item.portfolio_id ∷ [];
  as_of_date = batch.as_of_date;
  requested_output_formats = batch.requested_output_formats;
  reporting_currency = batch.reporting_currency;
  options = batch.options_json;
}

-- The call of `mark_item_failed` on a refused request, under the default retry policy.
abbrev pub rejection : String → Failure
rejection msg = record {
  error_category = "validation_failed";
  error_summary = cut 500 (text_append "Report job request rejected: " msg);
  retryable = false;
  max_attempts = 3;
  next_retry_at = none;
}

module _ {J : Type 0} (port : JobCreation J) where
  abbrev pub hand_over :
      ReportBatchRecord
      → ReportCallerContext
      → ItemRow
      → String
      → Time
      → Option String
      → Call (World J) PassError (List String)
  hand_over batch caller item token now (some msg) w =
      after (on_ledger (mark_item_failed item.batch_item_id (rejection msg) now) w)
        λ _ w1. (ok [], w1)
  hand_over batch caller item token now none w =
      after
        (on_jobs
          (port.create_portfolio_review_job (request_of batch item) caller
            item.item_idempotency_key)
          w)
        λ job_id w1.
          after (on_ledger (mark_item_waiting_on_report_job item.batch_item_id token job_id now) w1)
            λ _ w2. (ok (job_id ∷ []), w2)

  abbrev pub dispatch_item :
      ReportBatchRecord
      → ReportCallerContext
      → ItemRow
      → Time
      → Call (World J) PassError (List String)
  dispatch_item batch caller item now w = elim item.lease_token [
    | none ↦ (err PassError.batch_item_missing_lease_token, w)
    | some token ↦ hand_over batch caller item token now (port.rejects (request_of batch item)) w
  ]

  -- for item in leased_items
  unfoldable pub dispatch_items :
      ReportBatchRecord
      → ReportCallerContext
      → (ℕ → Time)
      → ℕ
      → List ItemRow
      → Call (World J) PassError (List String)
  dispatch_items batch caller item_at k [] w = (ok [], w)
  dispatch_items batch caller item_at k (item ∷ items) w =
      after (dispatch_item batch caller item (item_at k) w) λ first w1.
        after (dispatch_items batch caller item_at (suc k) items w1)
          λ rest w2. (ok (first ++ rest), w2)

  abbrev pub dispatch_leased :
      String
      → ReportBatchRecord
      → ReportCallerContext
      → PassDraws
      → List ItemRow
      → Call (World J) PassError BatchDispatchResult
  dispatch_leased batch_id batch caller draws items w =
      after (dispatch_items batch caller draws.item_at 0 items w) λ ids w1. (
        ok (record {
          batch_id = batch_id;
          leased_count = length items;
          dispatched_count = length ids;
          report_job_ids = ids;
          back_pressure_reasons = [];
        }),
        w1,
      )

  abbrev pub dispatch_under :
      List String
      → String
      → ReportBatchRecord
      → ReportCallerContext
      → String
      → BatchRuntimeLoad
      → BatchDispatchPolicy
      → PassDraws
      → Call (World J) PassError BatchDispatchResult
  dispatch_under (reason ∷ reasons) batch_id batch caller worker_id load policy draws w = (
    ok (record {
      batch_id = batch_id;
      leased_count = 0;
      dispatched_count = 0;
      report_job_ids = [];
      back_pressure_reasons = reason ∷ reasons;
    }),
    w,
  )
  dispatch_under [] batch_id batch caller worker_id load policy draws w =
      after
        (on_ledger
          (acquire_dispatch_items batch_id worker_id draws.lease_token policy.lease_seconds
            (min policy.max_active_items (policy.max_active_items - load.active_items))
            draws.acquired_at)
          w)
        λ items w1. dispatch_leased batch_id batch caller draws items w1

  unfoldable pub dispatch_batch :
      String
      → ReportCallerContext
      → String
      → BatchRuntimeLoad
      → BatchDispatchPolicy
      → PassDraws
      → Call (World J) PassError BatchDispatchResult
  dispatch_batch batch_id caller worker_id external policy draws w =
      elim (get_batch batch_id w.db) [
        | err e ↦ (err (PassError.ledger_error e), w)
        | ok batch ↦
            let load = runtime_load_for_batch batch external w.db in
            dispatch_under (evaluate_back_pressure load policy) batch_id batch caller worker_id load
              policy draws w
      ]
