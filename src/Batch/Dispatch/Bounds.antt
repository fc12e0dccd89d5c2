-- ===== src/Batch/Dispatch/Bounds.antt =====
-- A dispatch pass keeps to its limits, and keeps the invariant of the batch ledger.
use lotus_report.Prelude.{
  ℕ, suc, ◌+◌, ◌-◌, ◌≤◌, ◌<◌, min, String, ◌≡◌, ◌≢◌, refl, sym, ◌∙◌, ap, ◌⊎◌, inl, inr, Option,
  none, some, List, [], ◌∷◌, ◌++◌, arith, length, Option-cases,
}
use lotus_report.Sql.{Result, ok, after, after-ok, ok_injective}
use lotus_report.Clock.{Time}
use lotus_report.Batch.Models.{ItemRow, ReportBatchRecord}
use lotus_report.Batch.Selector.{ReportCallerContext}
use lotus_report.Batch.Admission.{get_batch}
use lotus_report.Batch.Ledger.Tables.{LedgerError}
use lotus_report.Batch.Ledger.Items.{mark_item_failed, mark_item_waiting_on_report_job}
use lotus_report.Batch.Ledger.Control.{acquire_dispatch_items}
use lotus_report.Batch.Ledger.Soundness.{IsSound}
use lotus_report.Batch.Ledger.Leases.{acquire_leases}
use lotus_report.Batch.Dispatch.{
  request_of, rejection, hand_over, dispatch_item, dispatch_items, dispatch_leased, dispatch_under,
  dispatch_batch, runtime_load_for_batch, evaluate_back_pressure,
}
use lotus_report.Batch.World.{
  BatchRuntimeLoad, BatchDispatchPolicy, BatchDispatchResult, PassError, World, JobCreation,
  PassDraws, on_ledger, on_jobs, ledger_answer,
}

length-append : {A : Type 0} (xs ys : List A) → length (xs ++ ys) ≡ length xs + length ys
length-append [] ys = omega arith
length-append (x ∷ xs) ys = omega (arith, length-append xs ys)

module _ {J : Type 0} (port : JobCreation J) (batch : ReportBatchRecord)
    (caller : ReportCallerContext) where
  abbrev returned : List String → World J → Result PassError (List String) × World J
  returned ids w = (ok ids, w)

  hand_over-le :
      (item : ItemRow) (token : String) (now : Time) (refusal : Option String) (w : World J)
      (ids : List String)
      → (hand_over port batch caller item token now refusal w).0 ≡ ok ids
      → length ids ≤ 1
  hand_over-le item token now none w ids h =
      let call =
        port.create_portfolio_review_job (request_of batch item) caller item.item_idempotency_key in
      let waits = λ (job_id : String) (w1 : World J).
        after (on_ledger (mark_item_waiting_on_report_job item.batch_item_id token job_id now) w1)
          λ _ (w2 : World J). returned (job_id ∷ []) w2 in
      let (job_id, _, k) = after-ok (on_jobs call w) waits ids h in
      let (_, _, l) =
        after-ok
          (on_ledger (mark_item_waiting_on_report_job item.batch_item_id token job_id now)
            (on_jobs call w).1)
          (λ _ w2. returned (job_id ∷ []) w2) ids k in
      let e : job_id ∷ [] ≡ ids = ok_injective l in rw (← e) (omega arith)
  hand_over-le item token now (some msg) w ids h =
      let (_, _, l) =
        after-ok (on_ledger (mark_item_failed item.batch_item_id (rejection msg) now) w)
          (λ _ w1. returned [] w1) ids h in
      let e : [] ≡ ids = ok_injective l in rw (← e) (omega arith)

  dispatch_item-le :
      (item : ItemRow) (now : Time) (w : World J) (ids : List String)
      → (dispatch_item port batch caller item now w).0 ≡ ok ids
      → length ids ≤ 1
  dispatch_item-le item now w ids h = elim (Option-cases item.lease_token) [
    | inl n ↦ absurd (ground arith)
    | inr (token, t) ↦
        hand_over-le item token now (port.rejects (request_of batch item)) w ids (ground arith)
  ]

  dispatch_items-le :
      (item_at : ℕ → Time) (k : ℕ) (items : List ItemRow) (w : World J) (ids : List String)
      → (dispatch_items port batch caller item_at k items w).0 ≡ ok ids
      → length ids ≤ length items
  unfolding dispatch_items
  dispatch_items-le item_at j [] w ids h = let e : [] ≡ ids = ground arith in rw (← e) (omega arith)
  dispatch_items-le item_at j (item ∷ items) w ids h =
      let w1 = (dispatch_item port batch caller item (item_at j) w).1 in
      let more = λ (first : List String) (v : World J).
        after (dispatch_items port batch caller item_at (suc j) items v)
          λ rest (w2 : World J). returned (first ++ rest) w2 in
      let (first, p, k) =
        after-ok (dispatch_item port batch caller item (item_at j) w) more ids h in
      let (rest, q, l) =
        after-ok (dispatch_items port batch caller item_at (suc j) items w1)
          (λ r w2. returned (first ++ r) w2) ids k in
      let e : first ++ rest ≡ ids = ok_injective l in
      rw (← e) (
        omega (
          arith,
          length-append first rest,
          dispatch_item-le item (item_at j) w first p,
          dispatch_items-le item_at (suc j) items w1 rest q,
        ))

module _ {J : Type 0} (port : JobCreation J) where
  -- What a pass that is not held back by back pressure reports.
  under-bounded :
      (batch_id : String) (batch : ReportBatchRecord) (caller : ReportCallerContext)
      (worker_id : String) (load : BatchRuntimeLoad) (policy : BatchDispatchPolicy)
      (draws : PassDraws) (w : World J) (r : BatchDispatchResult)
      → IsSound w.db
      → (dispatch_under port [] batch_id batch caller worker_id load policy draws w).0 ≡ ok r
      → (r.leased_count ≤ policy.max_active_items - load.active_items)
        × (r.dispatched_count ≤ r.leased_count)
        × (length r.report_job_ids ≡ r.dispatched_count)
  under-bounded batch_id batch caller worker_id load policy draws w r s h =
      let limit = min policy.max_active_items (policy.max_active_items - load.active_items) in
      let call =
        acquire_dispatch_items batch_id worker_id draws.lease_token policy.lease_seconds limit
          draws.acquired_at in
      let w1 = (on_ledger call w).1 in
      let (items, p, k) =
        after-ok (on_ledger call w)
          (λ items v. dispatch_leased port batch_id batch caller draws items v) r h in
      let (ids, q, l) =
        after-ok (dispatch_items port batch caller draws.item_at 0 items w1)
          (λ ids v. (ok (result_of batch_id items ids), v)) r k in
      let e : result_of batch_id items ids ≡ r = ok_injective l in
      let leased =
        (acquire_leases w.db s batch_id worker_id draws.lease_token policy.lease_seconds
          draws.acquired_at limit items (answered (call w.db).0 items p)).0 in
      rw (← e) (
        omega (arith, leased),
        dispatch_items-le port batch caller draws.item_at 0 items w1 ids q,
        refl,
      )
    where
      result_of : String → List ItemRow → List String → BatchDispatchResult
      result_of batch_id items ids = record {
        batch_id = batch_id;
        leased_count = length items;
        dispatched_count = length ids;
        report_job_ids = ids;
        back_pressure_reasons = [];
      }

      answered :
          (o : Result LedgerError (List ItemRow)) (items : List ItemRow)
          → ledger_answer o ≡ ok items
          → o ≡ ok items
      answered o items h = ground arith

  reasons_when_full :
      (load : BatchRuntimeLoad) (policy : BatchDispatchPolicy)
      → evaluate_back_pressure load policy ≡ []
      → load.active_items < policy.max_active_items
  unfolding evaluate_back_pressure
  reasons_when_full load policy h = ground arith

  dispatch-found :
      (batch_id : String) (caller : ReportCallerContext) (worker_id : String)
      (external : BatchRuntimeLoad) (policy : BatchDispatchPolicy) (draws : PassDraws) (w : World J)
      (batch : ReportBatchRecord) (reasons : List String)
      → get_batch batch_id w.db ≡ ok batch
      → evaluate_back_pressure (runtime_load_for_batch batch external w.db) policy ≡ reasons
      → dispatch_batch port batch_id caller worker_id external policy draws w
        ≡ dispatch_under port reasons batch_id batch caller worker_id
            (runtime_load_for_batch batch external w.db)
            policy
            draws
            w
  unfolding dispatch_batch
  dispatch-found batch_id caller worker_id external policy draws w batch reasons found e =
      ground (arith, found, e)

  -- A dispatch pass that returns either was held back, and then it changed nothing and reports
  -- nothing leased or dispatched, with a reason; or it leased no more than brings the active items,
  -- those of the ledger and those reported from outside, to the policy's maximum, and dispatched no
  -- more than it leased, with one report job id for each.
  pub dispatch_batch-bounded :
      (batch_id : String) (caller : ReportCallerContext) (worker_id : String)
      (external : BatchRuntimeLoad) (policy : BatchDispatchPolicy) (draws : PassDraws) (w : World J)
      (batch : ReportBatchRecord) (r : BatchDispatchResult)
      → IsSound w.db
      → get_batch batch_id w.db ≡ ok batch
      → (dispatch_batch port batch_id caller worker_id external policy draws w).0 ≡ ok r
      → ((r.leased_count ≡ 0)
          × (r.dispatched_count ≡ 0)
          × (r.back_pressure_reasons ≢ [])
          × ((dispatch_batch port batch_id caller worker_id external policy draws w).1 ≡ w))
        ⊎ (((runtime_load_for_batch batch external w.db).active_items + r.leased_count
              ≤ policy.max_active_items)
            × (r.dispatched_count ≤ r.leased_count)
            × (length r.report_job_ids ≡ r.dispatched_count))
  dispatch_batch-bounded batch_id caller worker_id external policy draws w batch r s found h =
      let load = runtime_load_for_batch batch external w.db in
      elim (reasons_cases (evaluate_back_pressure load policy)) [
        | inl e ↦
            let d =
              dispatch-found batch_id caller worker_id external policy draws w batch [] found e in
            let b =
              under-bounded batch_id batch caller worker_id load policy draws w r s
                (ap (λ (x : Result PassError BatchDispatchResult × World J). x.0) (sym d) ∙ h) in
            inr (omega (arith, b.0, reasons_when_full load policy e), b.1, b.2)
        | inr (x, xs, e) ↦
            let d =
              dispatch-found batch_id caller worker_id external policy draws w batch (x ∷ xs) found
                e in
            let same =
              ok_injective
                (ap (λ (p : Result PassError BatchDispatchResult × World J). p.0) (sym d) ∙ h) in
            inl (
              ap (λ (p : BatchDispatchResult). p.leased_count) (sym same),
              ap (λ (p : BatchDispatchResult). p.dispatched_count) (sym same),
              λ n.
                  cons_not_nil x xs
                    (ap (λ (p : BatchDispatchResult). p.back_pressure_reasons) same ∙ n),
              ap (λ (p : Result PassError BatchDispatchResult × World J). p.1) d,
            )
      ]
    where
      reasons_cases :
          (rs : List String) → (rs ≡ []) ⊎ ((x : String) × (xs : List String) × (rs ≡ x ∷ xs))
      reasons_cases [] = inl refl
      reasons_cases (x ∷ xs) = inr (x, xs, refl)

      cons_not_nil : (x : String) (xs : List String) → x ∷ xs ≢ []
      cons_not_nil x xs e = cc
