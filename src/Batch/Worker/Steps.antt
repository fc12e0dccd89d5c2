-- ===== src/Batch/Worker/Steps.antt =====
-- Dispatch keeps the invariant of the batch ledger.
use lotus_report.Prelude.{
  Option-cases, min, ◌-◌, ℕ, suc, String, inl, inr, Option, none, some, List, [], ◌∷◌,
}
use lotus_report.Sql.{Result, ok, err, after_keeps}
use lotus_report.Clock.{Time}
use lotus_report.Batch.Models.{ItemRow, ReportBatchRecord}
use lotus_report.Batch.Selector.{ReportCallerContext}
use lotus_report.Batch.Admission.{get_batch}
use lotus_report.Batch.Ledger.Tables.{LedgerError}
use lotus_report.Batch.Ledger.Items.{mark_item_failed, mark_item_waiting_on_report_job}
use lotus_report.Batch.Ledger.Control.{acquire_dispatch_items}
use lotus_report.Batch.Dispatch.{
  request_of, rejection, hand_over, dispatch_item, dispatch_items, dispatch_under, dispatch_batch,
  evaluate_back_pressure, runtime_load_for_batch,
}
use lotus_report.Batch.World.{
  BatchRuntimeLoad, BatchDispatchPolicy, BatchDispatchResult, PassError, World, JobCreation,
  PassDraws, on_ledger, on_jobs,
}
use lotus_report.Batch.Worker.Executed.{Sound, failed-IsSound, waiting-IsSound, acquired-IsSound}

module _ {J : Type 0} (creation : JobCreation J) (batch : ReportBatchRecord)
    (caller : ReportCallerContext) where
  hand_over-IsSound :
      (item : ItemRow) (token : String) (now : Time) (refusal : Option String) (w : World J)
      → Sound w
      → Sound (hand_over creation batch caller item token now refusal w).1
  hand_over-IsSound item token now (some msg) w h =
      after_keeps Sound (on_ledger (mark_item_failed item.batch_item_id (rejection msg) now) w) _
        (failed-IsSound item.batch_item_id (rejection msg) now w h) (λ r v k. k)
  hand_over-IsSound item token now none w h =
      after_keeps Sound
        (on_jobs
          (creation.create_portfolio_review_job (request_of batch item) caller
            item.item_idempotency_key)
          w)
        _ h
        (λ job v k.
          after_keeps Sound
            (on_ledger (mark_item_waiting_on_report_job item.batch_item_id token job now) v) _
            (waiting-IsSound item.batch_item_id token job now v k) (λ r u l. l))

  dispatch_item-IsSound :
      (item : ItemRow) (now : Time) (w : World J)
      → Sound w
      → Sound (dispatch_item creation batch caller item now w).1
  dispatch_item-IsSound item now w h = elim (Option-cases item.lease_token) [
    | inl n ↦ rw n h
    | inr (token, t) ↦
        rw t (hand_over-IsSound item token now (creation.rejects (request_of batch item)) w h)
  ]

  dispatch_items-IsSound :
      (item_at : ℕ → Time) (k : ℕ) (items : List ItemRow) (w : World J)
      → Sound w
      → Sound (dispatch_items creation batch caller item_at k items w).1
  unfolding dispatch_items
  dispatch_items-IsSound item_at j [] w h = h
  dispatch_items-IsSound item_at j (item ∷ items) w h =
      after_keeps Sound (dispatch_item creation batch caller item (item_at j) w) _
        (dispatch_item-IsSound item (item_at j) w h)
        (λ first v k.
          after_keeps Sound (dispatch_items creation batch caller item_at (suc j) items v) _
            (dispatch_items-IsSound item_at (suc j) items v k) (λ rest u l. l))

  dispatch_under-IsSound :
      (reasons : List String) (b worker : String) (load : BatchRuntimeLoad)
      (policy : BatchDispatchPolicy) (draws : PassDraws) (w : World J)
      → Sound w
      → Sound (dispatch_under creation reasons b batch caller worker load policy draws w).1
  dispatch_under-IsSound (r ∷ rs) b worker load policy draws w h = h
  dispatch_under-IsSound [] b worker load policy draws w h =
      after_keeps Sound
        (on_ledger
          (acquire_dispatch_items b worker draws.lease_token policy.lease_seconds
            (min policy.max_active_items (policy.max_active_items - load.active_items))
            draws.acquired_at)
          w)
        _
        (acquired-IsSound b worker draws.lease_token policy.lease_seconds
          (min policy.max_active_items (policy.max_active_items - load.active_items))
          draws.acquired_at w h)
        (λ items v k.
          after_keeps Sound (dispatch_items creation batch caller draws.item_at 0 items v) _
            (dispatch_items-IsSound draws.item_at 0 items v k) (λ ids u l. l))

module _ {J : Type 0} (creation : JobCreation J) where
  pub dispatch_batch-IsSound :
      (b : String) (caller : ReportCallerContext) (worker : String) (external : BatchRuntimeLoad)
      (policy : BatchDispatchPolicy) (draws : PassDraws) (w : World J)
      → Sound w
      → Sound (dispatch_batch creation b caller worker external policy draws w).1
  unfolding dispatch_batch
  dispatch_batch-IsSound b caller worker external policy draws w h = go (get_batch b w.db)
    where
      go :
          (r : Result LedgerError ReportBatchRecord)
          → Sound (
              let x : Result PassError BatchDispatchResult × World J = elim r [
                | err e ↦ (err (PassError.ledger_error e), w)
                | ok batch ↦
                    dispatch_under creation
                      (evaluate_back_pressure (runtime_load_for_batch batch external w.db) policy)
                      b
                      batch
                      caller
                      worker
                      (runtime_load_for_batch batch external w.db)
                      policy
                      draws
                      w
              ] in
              x.1)
      go (err e) = h
      go (ok batch) =
          dispatch_under-IsSound creation batch caller
            (evaluate_back_pressure (runtime_load_for_batch batch external w.db) policy) b worker
            (runtime_load_for_batch batch external w.db) policy draws w h
