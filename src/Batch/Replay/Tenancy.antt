-- ===== src/Batch/Replay/Tenancy.antt =====
-- A replay that returns shows a source job of the caller's tenant.
use lotus_report.Prelude.{
  String, ◌≡◌, refl, inl, inr, Option, none, some, arith, ap, sym, subst, ◌∙◌, Bool-cases, str_eq,
  if◌then◌else◌, not,
}
use lotus_report.Sql.{Result-cases, ok, err, after, after-ok, ok_injective}
use lotus_report.Sql.{fetchone}
use lotus_report.Batch.Ledger.Items.{of_batch}
use lotus_report.Batch.Admission.{load_admitted_batch, load_admitted_batch_lem}
use lotus_report.Batch.Replay.{replay_branch_for, replay_key}
use lotus_report.Batch.Replay.Service.{raw_text}
use lotus_report.Prelude.{Option-cases}
use lotus_report.Clock.{Time}
use lotus_report.Batch.Models.{ItemRow, ReportBatchRecord}
use lotus_report.Batch.Ledger.Items.{relink_failed_item_for_replay}
use lotus_report.Batch.World.{World}
use lotus_report.Batch.Execution.{JobView, found}
use lotus_report.Batch.Replay.{
  is_replay_eligible, ReportCallerContext, ReplayError, ReplayJobs, BatchItemReplayResult,
  ReplayBranch, default_max_attempts, lineage_source,
}
use lotus_report.Batch.Replay.Links.{
  at_ledger, at_jobs, job_answer, refuse_foreign_linked_job, load_job, events_of,
  source_job_for_replayed_job, replay_again,
}
use lotus_report.Batch.Replay.Service.{
  create_replay, replay_admitted, replay_linked, bind_replay, replay_new, replay_item, relation_of,
  requested_draft, lineage_draft, append_source_event_once,
}
use lotus_report.Batch.Replay.Foreign.{linked-own, same_tenant-own}

module _ {J : Type 0} (port : ReplayJobs J) (batch : ReportBatchRecord) where
  again-own :
      (item : ItemRow) (job_id key raw : String) (w : World J) (r : BatchItemReplayResult)
      → (replay_again port batch item job_id key raw w).0 ≡ ok r
      → r.source_report_job.tenant_id ≡ batch.tenant_id
  unfolding replay_again source_job_for_replayed_job
  again-own item job_id key raw w r h =
      let (replayed, e, k) = after-ok (load_job port job_id w) _ r h in
      elim (Bool-cases (str_eq replayed.idempotency_key key)) [
        | inr t ↦ absurd (ground (arith, t))
        | inl t ↦
            let (source, e1, k1) =
              after-ok (source_job_for_replayed_job port batch replayed w) _ r (
                subst
                  (λ b.
                    (if not b
                      then (err ReplayError.report_batch_item_cannot_be_replayed, w)
                      else after (source_job_for_replayed_job port batch replayed w) (λ source w2. (
                        ok (record {
                          batch_id = batch.batch_id;
                          item = item;
                          source_report_job = source;
                          replayed_report_job = replayed;
                          idempotency_key = raw;
                        }),
                        w2,
                      ))).0
                    ≡ ok r)
                  t k) in
            let (events, e2, k2) = after-ok (events_of port replayed.job_id w) _ source e1 in
            ap (λ (x : BatchItemReplayResult). x.source_report_job.tenant_id)
              (sym (ok_injective k1))
            ∙ same_tenant-own port batch (lineage_source events) w source k2
      ]

  bound-source :
      (id reason : String) (caller : ReportCallerContext) (raw : String) (now : Time)
      (source replayed : JobView) (w : World J) (r : BatchItemReplayResult)
      → (bind_replay port batch id reason caller raw now source replayed w).0 ≡ ok r
      → r.source_report_job ≡ source
  unfolding bind_replay
  bound-source id reason caller raw now source replayed w r h =
      let related =
        at_jobs (port.upsert_job_relationship (relation_of reason caller source replayed)) w in
      let (_, _, h1) = after-ok related _ r h in
      let relinked =
        at_ledger
          (relink_failed_item_for_replay batch.batch_id id replayed.job_id default_max_attempts now)
          related.1 in
      let (linked, _, h2) = after-ok relinked _ r h1 in
      let requested =
        append_source_event_once port source.job_id
          (requested_draft id reason caller source replayed) relinked.1 in
      let (_, _, h3) = after-ok requested _ r h2 in
      let (_, _, h4) =
        after-ok
          (append_source_event_once port replayed.job_id (lineage_draft id caller source replayed)
            requested.1)
          _ r h3 in
      ap (λ (x : BatchItemReplayResult). x.source_report_job) (sym (ok_injective h4))

  new-own :
      (item : ItemRow) (job_id reason : String) (caller : ReportCallerContext) (key raw : String)
      (now : Time) (w : World J) (r : BatchItemReplayResult) (job : JobView)
      → port.get_job job_id w.jobs ≡ found job
      → (replay_new port batch item job_id reason caller key raw now w).0 ≡ ok r
      → r.source_report_job ≡ job
  unfolding replay_new
  new-own item job_id reason caller key raw now w r job f h =
      let (source, e, k) = after-ok (load_job port job_id w) _ r h in
      let same : source ≡ job = ok_injective (sym e ∙ ap job_answer f) in
      elim (Bool-cases (is_replay_eligible source)) [
        | inr t ↦ absurd (ground (arith, t))
        | inl t ↦
            let (replayed, _, k1) =
              after-ok (create_replay port batch item caller key w)
                (λ replayed w2.
                  bind_replay port batch item.batch_item_id reason caller raw now source replayed
                    w2)
                r
                (subst
                  (λ b.
                    (if b
                      then after (create_replay port batch item caller key w) (λ replayed w2.
                        bind_replay port batch item.batch_item_id reason caller raw now source
                          replayed w2)
                      else (err ReplayError.report_job_cannot_be_replayed, w)).0
                    ≡ ok r)
                  t k) in
            bound-source item.batch_item_id reason caller raw now source replayed _ r k1 ∙ same
      ]

  branch-own :
      (item : ItemRow) (reason : String) (caller : ReportCallerContext) (key raw : String)
      (now : Time) (w : World J) (r : BatchItemReplayResult) (o : Option ReplayBranch)
      (l : Option String)
      → item.report_job_id ≡ l
      → (after
          (refuse_foreign_linked_job port batch item o now w)
          (λ _ w1. replay_linked port batch item reason caller key raw now o l w1)).0
        ≡ ok r
      → r.source_report_job.tenant_id ≡ batch.tenant_id
  branch-own item reason caller key raw now w r none l e h =
      let (_, _, k) = after-ok (refuse_foreign_linked_job port batch item none now w) _ r h in cc
  branch-own item reason caller key raw now w r (some b) none e h =
      let (_, _, k) = after-ok (refuse_foreign_linked_job port batch item (some b) now w) _ r h in
      nothing b _ k
    where
      nothing :
          (b : ReplayBranch) (v : World J)
          → (replay_linked port batch item reason caller key raw now (some b) none v).0 ≡ ok r
          → r.source_report_job.tenant_id ≡ batch.tenant_id
      nothing ReplayBranch.idempotent_replay v k = cc
      nothing ReplayBranch.new_replay v k = cc
  branch-own item reason caller key raw now w r (some ReplayBranch.idempotent_replay) (some id) e
        h =
      let (_, _, k) = after-ok (refuse_foreign_linked_job port batch item _ now w) _ r h in
      again-own item id key raw _ r k
  branch-own item reason caller key raw now w r (some ReplayBranch.new_replay) (some id) e h =
      let (u, p, k) = after-ok (refuse_foreign_linked_job port batch item _ now w) _ r h in
      let (job, f, t, s) = linked-own port batch item ReplayBranch.new_replay id now w u e p in
      ap (λ (x : JobView). x.tenant_id)
        (new-own item id reason caller key raw now w r job f
          (subst (λ v. (replay_new port batch item id reason caller key raw now v).0 ≡ ok r) s k))
      ∙ t

module _ {J : Type 0} (port : ReplayJobs J) where
  -- A replay that returns a result, newly created or found again, shows as its source a report job of the
  -- caller's tenant, whatever links and lineage events the two sides hold.
  pub replay_item-own_tenant :
      (batch_id id reason : String) (caller : ReportCallerContext) (key : Option String)
      (now : Time) (w : World J) (r : BatchItemReplayResult)
      → (replay_item port batch_id id reason caller key now w).0 ≡ ok r
      → r.source_report_job.tenant_id ≡ caller.tenant_id
  unfolding replay_item replay_admitted
  replay_item-own_tenant batch_id id reason caller key now w r h =
      elim (Result-cases (load_admitted_batch batch_id caller w.db)) [
        | inl (e, k) ↦ absurd (ground (arith, k))
        | inr (batch, k) ↦ elim (Option-cases (fetchone (of_batch batch_id id) w.db.items)) [
          | inl n ↦ absurd (ground (arith, k, n))
          | inr (item, f) ↦ elim (Result-cases (replay_key id key)) [
            | inl (e, q) ↦ absurd (ground (arith, k, f, q))
            | inr (full, q) ↦
                branch-own port batch item reason caller full (raw_text key) now w r
                  (replay_branch_for item) item.report_job_id refl (ground (arith, k, f, q))
                ∙ ((load_admitted_batch_lem batch_id caller w.db).0 batch k).1
          ]
        ]
      ]
