-- ===== src/Jobs/Work/Invariant.antt =====
-- What holds of the work items, the jobs and their events between the steps of a transaction of the
-- work queue: each step keeps it.
use lotus_report.Prelude.{
  List, In, ℕ, ltb, String, Bool, true, false, ◌≡◌, refl, inl, inr, Option, none, some, arith,
  Bool-cases, ap, subst, ◌∙◌, ◌&&◌,
}
use lotus_report.Sql.{
  Result, ok, update, fetchone, bind-ok, step-ok, connect-returned, Keeps, Keeps-bind, Keeps-if,
  Keeps-reads, Reads-return, Reads-raise, All-update, IsUnique-update,
}
use lotus_report.Jobs.Tables.{
  update_jobs, JobRow, WorkItemRow, Db, JobError, is_job, is_required, state_is_verified,
}
use lotus_report.Jobs.Custody.{Context, lock_pair, custody_protected, park}
use lotus_report.Jobs.Transition.{Change, transition_job}
use lotus_report.Jobs.Transition.Guard.{park-Effect, lock_pair-ok}
use lotus_report.Jobs.Transition.Effect.{transition-Effect}
use lotus_report.Jobs.Transition.History.{IsAudited, Effect-IsAudited, replays}
use lotus_report.Jobs.Work.Custody.{
  settle_work, find_work, metadata, protect_locked, protect_selected, protect_work, require_lease,
  settle_verified_work, execute_update, advance_epoch, verified_work, claimed, protect_reason,
}
use lotus_report.Jobs.Work.Stock.{
  update_stored-IsStocked, IsStocked, AllowsOver, settle_work-IsStocked, park-IsStocked,
  transition-IsStocked,
}
use lotus_report.Jobs.Work.Readings.{
  metadata-ok, metadata-Reads, lock_pair-Reads, find_work-Reads, require_lease-Reads,
}

-- Every work item satisfies `R`, and the log of events explains the jobs.
pub record IsConsistent (ids : List String) (R : WorkItemRow → Type 0) (db : Db) : Type 0 where
  pub stocked : IsStocked ids R db
  pub audited : IsAudited db

pub logged-IsAudited :
    (before after : Db)
    → after.jobs ≡ before.jobs
    → after.events ≡ before.events
    → IsAudited before
    → IsAudited after
logged-IsAudited before after e k a = record {
  history = rw (e, k) a.history;
  job_ids = rw e a.job_ids;
}

settle_work-log :
    (work_id : String) (db db' : Db) (u : Unit {0})
    → settle_work work_id db ≡ ok (u, db')
    → (db'.jobs ≡ db.jobs) × (db'.events ≡ db.events)
unfolding settle_work
settle_work-log work_id db db' u h = (ground arith, ground arith)

module _ {ids : List String} (R : WorkItemRow → Type 0) (over : AllowsOver R) where
  settle-IsConsistent : (work_id : String) → Keeps (IsConsistent ids R) (settle_work work_id)
  settle-IsConsistent work_id db u db' h c =
      let (jobs, events) = settle_work-log work_id db db' u h in
      record {
        stocked = settle_work-IsStocked R over work_id db u db' h c.stocked;
        audited = logged-IsAudited db db' jobs events c.audited;
      }

  park-IsConsistent :
      (job_id reason : String) (ctx : Context) (work : Option WorkItemRow) (row : JobRow)
      (db db' : Db) (u : Unit {0})
      → fetchone (is_job job_id) db.jobs ≡ some row
      → custody_protected row ≡ true
      → park reason ctx work row db ≡ ok (u, db')
      → IsConsistent ids R db
      → IsConsistent ids R db'
  park-IsConsistent job_id reason ctx work row db db' u found custody h c = record {
    stocked = park-IsStocked R over reason ctx work row db u db' h c.stocked;
    audited =
        Effect-IsAudited job_id db db' c.audited
          (park-Effect job_id reason ctx work row db db' u found custody h);
  }

  protect_locked-IsConsistent :
      (work_id job_id : String) (completing b : Bool) (ctx : Context) (work : Option WorkItemRow)
      (row : JobRow) (db db' : Db)
      → fetchone (is_job job_id) db.jobs ≡ some row
      → protect_locked work_id completing ctx work row db ≡ ok (b, db')
      → IsConsistent ids R db
      → IsConsistent ids R db'
  protect_locked-IsConsistent work_id job_id completing b ctx work row db db' found h c =
      elim (Bool-cases (is_required row && state_is_verified row.custody_state)) [
        | inl v ↦
            settle-IsConsistent work_id db tt db'
              (step-ok (settle_work work_id) true b db db' (ground arith)) c
        | inr v ↦ elim (Bool-cases (custody_protected row)) [
          | inl p ↦
              let reason = protect_reason completing in
              park-IsConsistent job_id reason ctx work row db db' tt found p
                (step-ok (park reason ctx work row) true b db db' (ground arith)) c
          | inr p ↦ let e : db ≡ db' = ground arith in subst (IsConsistent ids R) e c
        ]
      ]

  pub protect_work-IsConsistent :
      (work_id : String) (completing : Bool) (ctx : Context)
      → Keeps (IsConsistent ids R) (protect_work work_id completing ctx)
  unfolding protect_work
  protect_work-IsConsistent work_id completing ctx =
      Keeps-bind (IsConsistent ids R) (find_work work_id) (protect_selected work_id completing ctx)
        (Keeps-reads (IsConsistent ids R) (find_work work_id) (find_work-Reads work_id)) selected
    where
      selected :
          (w : Option WorkItemRow)
          → Keeps (IsConsistent ids R) (protect_selected work_id completing ctx w)
      selected none db b db' h c = cc
      selected (some w) db b db' h c =
          let (row, d, h1, h2) = bind-ok (metadata w.report_job_id) _ db h in
          let (found, same) = metadata-ok w.report_job_id db d row h1 in
          let (work, e, h3, h4) = bind-ok (lock_pair row) _ d h2 in
          let same2 = lock_pair-ok row d e work h3 in
          protect_locked-IsConsistent work_id w.report_job_id completing b ctx work row db db' found
            (subst (λ x. protect_locked work_id completing ctx work row x ≡ ok (b, db'))
              (same2 ∙ same) h4)
            c

  pub transition-IsConsistent :
      (job_id : String) (change : Change) (ctx : Context)
      → Keeps (IsConsistent ids R) (transition_job job_id change ctx)
  transition-IsConsistent job_id change ctx db r db' h c = record {
    stocked = transition-IsStocked R over job_id change ctx db r db' h c.stocked;
    audited = Effect-IsAudited job_id db db' c.audited (
        rw
          (← ap (λ (x : Result JobError JobRow × Db). x.1)
            (connect-returned (transition_job job_id change ctx) db r db' h))
          (transition-Effect job_id change ctx db));
  }

  -- A settled item is returned; any other is left to the caller.
  pub settle_verified-IsConsistent :
      (work_id : String) (ctx : Context)
      → Keeps (IsConsistent ids R) (settle_verified_work work_id ctx)
  unfolding settle_verified_work
  settle_verified-IsConsistent work_id ctx db w db' h c =
      elim (Bool-cases (verified_work work_id db)) [
        | inl v ↦
            Keeps-bind (IsConsistent ids R) (protect_work work_id false ctx)
              (λ _. find_work work_id) (protect_work-IsConsistent work_id false ctx)
              (λ _. Keeps-reads (IsConsistent ids R) (find_work work_id) (find_work-Reads work_id))
              db w db' (ground arith) c
        | inr v ↦ let e : db ≡ db' = ground arith in subst (IsConsistent ids R) e c
      ]

advance-ok :
    (job_id : String) (db db' : Db) (u : Unit {0})
    → execute_update (is_job job_id) advance_epoch db ≡ ok (u, db')
    → db' ≡ record db { jobs = update (is_job job_id) advance_epoch db.jobs }
unfolding execute_update update_jobs
advance-ok job_id db db' u h = ground arith

module _ {ids : List String} (R : WorkItemRow → Type 0) where
  -- An UPDATE of the work items, which the log does not see.
  pub items-IsConsistent :
      (p : WorkItemRow → Bool) (f : WorkItemRow → WorkItemRow) (db : Db)
      → ((w : WorkItemRow) → (f w).work_item_id ≡ w.work_item_id)
      → ((w : WorkItemRow) → In w db.work_items → R w → p w ≡ true → R (f w))
      → IsConsistent ids R db
      → IsConsistent ids R (record db { work_items = update p f db.work_items })
  items-IsConsistent p f db same keep c = record {
    stocked =
        update_stored-IsStocked R p f db (record db { work_items = update p f db.work_items }) refl
          same keep c.stocked;
    audited =
        logged-IsAudited db (record db { work_items = update p f db.work_items }) refl refl
          c.audited;
  }

  pub advance-IsConsistent :
      (job_id : String) → Keeps (IsConsistent ids R) (execute_update (is_job job_id) advance_epoch)
  advance-IsConsistent job_id db u db' h c = rw (advance-ok job_id db db' u h) (record {
    stocked = record {
      stored = c.stocked.stored;
      rows = c.stocked.rows;
      work_ids = c.stocked.work_ids;
    };
    audited = record {
      history =
          All-update (λ (r : JobRow). replays r.report_job_id db.events (some r.status) ≡ true)
            (is_job job_id) advance_epoch db.jobs (λ r p at. p) c.audited.history;
      job_ids =
          IsUnique-update (λ (r : JobRow). r.report_job_id) (is_job job_id) advance_epoch db.jobs
            (λ r. refl) c.audited.job_ids;
    };
  })

  pub claimed-IsConsistent :
      (w : WorkItemRow) (token : String) (n : ℕ) (ctx : Context)
      → Keeps (IsConsistent ids R) (claimed w token n ctx)
  unfolding claimed
  claimed-IsConsistent w token n ctx =
      Keeps-bind (IsConsistent ids R) (metadata w.report_job_id) _
        (Keeps-reads (IsConsistent ids R) _ (metadata-Reads w.report_job_id))
        (λ row.
          Keeps-bind (IsConsistent ids R) (lock_pair row) _
            (Keeps-reads (IsConsistent ids R) _ (lock_pair-Reads row))
            (λ work.
              Keeps-if (IsConsistent ids R) (is_required row) _ _
                (Keeps-if (IsConsistent ids R) (ltb n 120) _ _
                  (Keeps-reads (IsConsistent ids R) _
                    (Reads-raise JobError.custody_lease_budget_invalid))
                  (Keeps-bind (IsConsistent ids R)
                    (require_lease w.work_item_id token ctx.guard_now row work) _
                    (Keeps-reads (IsConsistent ids R) _
                      (require_lease-Reads w.work_item_id token ctx.guard_now row work))
                    (λ _. advance-IsConsistent w.report_job_id)))
                (Keeps-reads (IsConsistent ids R) _ (Reads-return tt))))
