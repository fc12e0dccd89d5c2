-- ===== src/Jobs/Work/Recovery.antt =====
-- The recovery of expired leases keeps what every step on a work item keeps.
use lotus_report.Prelude.{
  ◌==◌, ◌||◌, ℕ, ◌≡◌, String, Bool, true, false, refl, inl, inr, none, some, List, [], ◌∷◌, arith,
  All, In, All-refl, In-All, All-imp, All-take, Bool-cases, ap, subst, take, eq_refl,
}
use lotus_report.Sql.{
  update, rowcount, select, sort_rows, Keeps, Keeps-bind, Keeps-if, Keeps-reads, return,
  Reads-return, All-of_In, All-select, All-sort_rows,
}
use lotus_report.Clock.{Time}
use lotus_report.Jobs.Tables.{WorkStatus, work_is, WorkItemRow, Db}
use lotus_report.Jobs.Custody.{Context}
use lotus_report.Jobs.Work.{ReportJobWorkRetryPolicy, decide_report_job_work_failure}
use lotus_report.Jobs.Work.Custody.{is_work}
use lotus_report.Jobs.Work.Failure.{terminalize, owner_or_worker, retry_or_fail}
use lotus_report.Jobs.Work.Claims.{
  work_expired, expired_fence, expires_first, expiry_summary, recover_expired, expiry_decision,
  recover_each, recover_expired_work_items,
}
use lotus_report.Jobs.Work.Stock.{AllowsOver}
use lotus_report.Jobs.Work.Invariant.{IsConsistent, items-IsConsistent}
use lotus_report.Jobs.Work.Closed.{IsClosed}
use lotus_report.Jobs.Work.Operations.{Sound, terminalize-IsConsistent, the_item}

-- A row still leased has the attempts that the rows `ws` were read with.
abbrev Agrees : List WorkItemRow → WorkItemRow → Type 0
Agrees ws w =
    work_is w.status WorkStatus.leased ≡ true
    → All (λ (x : WorkItemRow). is_work x.work_item_id w ≡ true → w.attempt_count ≡ x.attempt_count)
        ws

abbrev Tracked : (WorkItemRow → Type 0) → List WorkItemRow → WorkItemRow → Type 0
Tracked R ws w = R w × Agrees ws w

imp-IsConsistent :
    (ids : List String) (P Q : WorkItemRow → Type 0) (db : Db)
    → ((w : WorkItemRow) → In w db.work_items → P w → Q w)
    → IsConsistent ids P db
    → IsConsistent ids Q db
imp-IsConsistent ids P Q db f c = record {
  stocked = record {
    stored = c.stocked.stored;
    rows = All-of_In db.work_items (λ w m. f w m (In-All P db.work_items c.stocked.rows w m));
    work_ids = c.stocked.work_ids;
  };
  audited = c.audited;
}

retried_free :
    (n : ℕ) (at due now : Time) (policy : ReportJobWorkRetryPolicy) (category summary : String)
    (w : WorkItemRow)
    → work_is
        (retry_or_fail
          (decide_report_job_work_failure n at policy)
          due
          category
          summary
          now
          w).status
        WorkStatus.leased
      ≡ false
unfolding decide_report_job_work_failure
retried_free n at due now policy category summary w = ground arith

module _ (ids : List String) (policy : ReportJobWorkRetryPolicy) (R : WorkItemRow → Type 0)
    (closed : IsClosed policy R) where
  Tracked-AllowsOver : (ws : List WorkItemRow) → AllowsOver (Tracked R ws)
  Tracked-AllowsOver ws w over free =
      (closed.over w over free, λ leased. absurd (not_leased w over leased))
    where
      not_leased :
          (w : WorkItemRow)
          → (work_is w.status WorkStatus.completed || work_is w.status WorkStatus.failed) ≡ true
          → work_is w.status WorkStatus.leased ≡ true
          → ⊥
      not_leased w over leased = ground arith

  module _ (now : Time) where
    recover_expired-IsConsistent :
        (ws : List WorkItemRow) (x : WorkItemRow) (ctx : Context)
        → In x ws
        → Keeps
            (IsConsistent ids (Tracked R ws))
            (recover_expired x (expiry_decision x now policy) now ctx)
    unfolding recover_expired
    recover_expired-IsConsistent ws x ctx m db u db' h c =
        let decision = expiry_decision x now policy in
        let f =
          retry_or_fail decision decision.available_at "expired_work_lease" expiry_summary now in
        let updated =
          items-IsConsistent (Tracked R ws) (expired_fence x now) f db (λ w. refl)
            (λ w stored r p.
              let n : w.attempt_count ≡ x.attempt_count =
                In-All _ ws (r.1 (ground arith)) x m (ground arith) in
              (
                subst
                    (λ (k : ℕ). R (
                      retry_or_fail
                        (decide_report_job_work_failure k
                          (elim x.lease_expires_at [ none ↦ now | some t ↦ t ]) policy)
                        decision.available_at "expired_work_lease" expiry_summary now w))
                    n
                    (closed.retries w now (elim x.lease_expires_at [ none ↦ now | some t ↦ t ])
                      decision.available_at "expired_work_lease" expiry_summary r.0 (ground arith)),
                λ leased. absurd (
                    clash _
                      (retried_free x.attempt_count
                        (elim x.lease_expires_at [ none ↦ now | some t ↦ t ]) decision.available_at
                        now policy "expired_work_lease" expiry_summary w)
                      leased),
              ))
            c in
        elim (Bool-cases (rowcount (expired_fence x now) db.work_items == 1)) [
          | inl one ↦
              Keeps-if (IsConsistent ids (Tracked R ws)) (work_is decision.status WorkStatus.failed)
                (terminalize x.work_item_id (owner_or_worker x.lease_owner) "timeout"
                  "Report job work lease expired after the final permitted attempt." ctx)
                (return tt)
                (terminalize-IsConsistent (Tracked R ws) (Tracked-AllowsOver ws) x.work_item_id
                  (owner_or_worker x.lease_owner) "timeout"
                  "Report job work lease expired after the final permitted attempt." ctx)
                (Keeps-reads (IsConsistent ids (Tracked R ws)) _ (Reads-return tt))
                (record db { work_items = update (expired_fence x now) f db.work_items }) u db'
                (ground arith) updated
          | inr more ↦ absurd (ground arith)
        ]
      where
        clash : (b : Bool) → b ≡ false → b ≡ true → ⊥
        clash b e k = ground arith

    recover_each-IsConsistent :
        (ws xs : List WorkItemRow) (draws : String → Context)
        → All (λ (x : WorkItemRow). In x ws) xs
        → Keeps (IsConsistent ids (Tracked R ws)) (recover_each xs policy now draws)
    unfolding recover_each
    recover_each-IsConsistent ws [] draws m =
        Keeps-reads (IsConsistent ids (Tracked R ws)) _ (Reads-return tt)
    recover_each-IsConsistent ws (x ∷ xs) draws m =
        Keeps-bind (IsConsistent ids (Tracked R ws))
          (recover_expired x (expiry_decision x now policy) now (draws x.work_item_id))
          (λ _. recover_each xs policy now draws)
          (recover_expired-IsConsistent ws x (draws x.work_item_id) m.0)
          (λ _. recover_each-IsConsistent ws xs draws m.1)

    -- The rows that the recovery reads are rows of the table.
    expired_rows : Db → List WorkItemRow
    expired_rows db = take 5 (sort_rows expires_first (select (work_expired now) db.work_items))

    expired-stored : (db : Db) → All (λ (x : WorkItemRow). In x db.work_items) (expired_rows db)
    unfolding expired_rows
    expired-stored db = All-take _ 5 _ (
        All-sort_rows _ expires_first _ (
          All-imp _ _ (select (work_expired now) db.work_items) (λ x m. m.0)
            (All-select (λ x. In x db.work_items) (work_expired now) db.work_items
              (All-refl db.work_items))))

    tracked :
        (db : Db) → Sound ids policy R closed db → IsConsistent ids (Tracked R (expired_rows db)) db
    tracked db c =
        imp-IsConsistent ids R (Tracked R (expired_rows db)) db
          (λ w m r. (
            r,
            λ leased.
                All-imp _ _ (expired_rows db)
                  (λ x stored own.
                    ap (λ (y : WorkItemRow). y.attempt_count)
                      (the_item x.work_item_id db.work_items w x c.stocked.work_ids m stored own
                        (eq_refl x.work_item_id)))
                  (expired-stored db),
          ))
          c

    pub recover-IsConsistent :
        (draws : String → Context)
        → Keeps (Sound ids policy R closed) (recover_expired_work_items policy now draws)
    unfolding recover_expired_work_items expired_rows
    recover-IsConsistent draws db u db' h c =
        imp-IsConsistent ids (Tracked R (expired_rows db)) R db' (λ w m r. r.0)
          (recover_each-IsConsistent (expired_rows db) (expired_rows db) draws
            (All-refl (expired_rows db)) db u db' h (tracked db c))
