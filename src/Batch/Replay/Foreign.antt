-- ===== src/Batch/Replay/Foreign.antt =====
-- What a replay knows of a linked report job once the refusal of foreign ones let it pass.
use lotus_report.Prelude.{
  String, false, ◌≡◌, refl, inl, inr, Option, none, some, arith, ap, sym, subst, ◌∙◌, Bool-cases,
  str_eq, eq_iff,
}
use lotus_report.Sql.{Result, ok, err, after-ok, ok_injective}
use lotus_report.Clock.{Time}
use lotus_report.Batch.Models.{ItemRow, ReportBatchRecord}
use lotus_report.Batch.Ledger.Items.{mark_item_failed}
use lotus_report.Batch.World.{World}
use lotus_report.Batch.Execution.{
  JobView, Lookup, found, absent, fault, failure, tenant_mismatch_category,
}
use lotus_report.Batch.Replay.{
  ReplayError, ReplayJobs, ReplayBranch, default_max_attempts, dangling_link_category,
  dangling_summary, foreign_summary,
}
use lotus_report.Batch.Replay.Links.{
  at_ledger, job_answer, quarantine, refuse_foreign, refuse_foreign_linked_job, load_job,
  same_tenant_source,
}

pub answered : (l : Lookup) (job : JobView) → job_answer l ≡ ok job → l ≡ found job
answered (found j) job h = ap (λ (x : JobView). found x) (ok_injective h)
answered absent job h = cc
answered (fault text) job h = cc

module _ {J : Type 0} where
  quarantine-raises :
      (id category summary : String) (now : Time) (w : World J) (u : Unit {0})
      → (quarantine id category summary now w).0 ≡ ok u
      → ⊥
  unfolding quarantine
  quarantine-raises id category summary now w u h =
      let (a, e, k) =
        after-ok
          (at_ledger (mark_item_failed id (failure category summary false default_max_attempts) now)
            w)
          (λ _ w1. (err ReplayError.report_batch_item_cannot_be_replayed, w1)) u h in
      clash k
    where
      clash :
          {e : ReplayError} {v : Unit {0}} → Path (Result ReplayError (Unit {0})) (err e) (ok v) → ⊥
      clash k = cc

  refuse_foreign-own :
      (batch : ReportBatchRecord) (item : ItemRow) (now : Time) (l : Lookup) (w : World J)
      (u : Unit {0})
      → (refuse_foreign batch item now l w).0 ≡ ok u
      → (job : JobView) × (l ≡ found job)
        × (job.tenant_id ≡ batch.tenant_id)
        × ((refuse_foreign batch item now l w).1 ≡ w)
  unfolding refuse_foreign
  refuse_foreign-own batch item now absent w u h =
      absurd
        (quarantine-raises item.batch_item_id dangling_link_category dangling_summary now w u h)
  refuse_foreign-own batch item now (fault text) w u h = cc
  refuse_foreign-own batch item now (found job) w u h =
      elim (Bool-cases (str_eq job.tenant_id batch.tenant_id)) [
        | inl e ↦ (job, refl, (eq_iff job.tenant_id batch.tenant_id).0 e, ground (arith, e))
        | inr e ↦ absurd (
            quarantine-raises item.batch_item_id tenant_mismatch_category foreign_summary now w u
              (ground (arith, e)))
      ]

module _ {J : Type 0} (port : ReplayJobs J) (batch : ReportBatchRecord) where
  -- The job that a link leads to past the refusal of foreign ones.
  pub linked-own :
      (item : ItemRow) (b : ReplayBranch) (job_id : String) (now : Time) (w : World J)
      (u : Unit {0})
      → item.report_job_id ≡ some job_id
      → (refuse_foreign_linked_job port batch item (some b) now w).0 ≡ ok u
      → (job : JobView) × (port.get_job job_id w.jobs ≡ found job)
        × (job.tenant_id ≡ batch.tenant_id)
        × ((refuse_foreign_linked_job port batch item (some b) now w).1 ≡ w)
  unfolding refuse_foreign_linked_job
  linked-own item b job_id now w u l h =
      let e : refuse_foreign_linked_job port batch item (some b) now w
          ≡ refuse_foreign batch item now (port.get_job job_id w.jobs) w =
        ground (arith, l) in
      let (job, f, t, s) =
        refuse_foreign-own batch item now (port.get_job job_id w.jobs) w u
          (subst (λ (r : Result ReplayError (Unit {0}) × World J). r.0 ≡ ok u) e h) in
      (job, f, t, ap (λ (r : Result ReplayError (Unit {0}) × World J). r.1) e ∙ s)

  pub same_tenant-own :
      (o : Option String) (w : World J) (job : JobView)
      → (same_tenant_source port batch o w).0 ≡ ok job
      → job.tenant_id ≡ batch.tenant_id
  same_tenant-own none w job h = cc
  same_tenant-own (some id) w job h =
      let (source, e, k) = after-ok (load_job port id w) _ job h in
      elim (Bool-cases (str_eq source.tenant_id batch.tenant_id)) [
        | inl t ↦
            let same : source ≡ job = ground (arith, t) in
            ap (λ (x : JobView). x.tenant_id) (sym same)
            ∙ (eq_iff source.tenant_id batch.tenant_id).0 t
        | inr t ↦ absurd (ground (arith, t))
      ]
