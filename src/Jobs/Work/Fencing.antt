-- ===== src/Jobs/Work/Fencing.antt =====
-- A lease token fences a work item: without it nobody completes, defers or fails the item.
use lotus_report.Prelude.{
  Option, ◌∙◌, if◌then◌else◌, none, ℕ, true, Bool, ◌+◌, max, ◌≡◌, String, false, inl, inr, some,
  arith, In, All-refl, Bool-cases, Option-cases, ap, ◌⊎◌,
}
use lotus_report.Sql.{
  bind_step, bind_raised, connect-raised, connect, ◌>>=◌, Tx, Result, ok, err, fetchone, IsUnique,
  rowcount_of_unique, All-fetchone,
}
use lotus_report.Clock.{seconds, Time}
use lotus_report.Jobs.Tables.{
  state_is_verified, JobRow, WorkItemRow, Db, JobError, is_job, is_required,
}
use lotus_report.Jobs.Custody.{Context, lease_holds, work_of}
use lotus_report.Jobs.Work.Custody.{
  not_before_due, settle_verified_work, scheduled_at, protect_work, is_work, validate_work,
}
use lotus_report.Jobs.Work.Queue.{
  complete, work_fence, defer, load_work, defer_unsettled, defer_work_item, complete_work_item,
  leased_under, fenced_work,
}
use lotus_report.Jobs.Work.Operations.{the_item}
use lotus_report.Jobs.Work.{ReportJobWorkRetryPolicy}
use lotus_report.Jobs.Work.Failure.{fail_work_item, fail_unsettled, fail_current}
use lotus_report.Sql.{◌>>◌, Tx, connect, fetchone_of_unique}

-- The call raised, and left the tables as they were.
abbrev pub IsRefused : Db → Result JobError WorkItemRow × Db → Type 0
IsRefused db r = (x : JobError) × (r ≡ (err x, db))

module _ (db : Db) (i token : String) (w : WorkItemRow) (row : JobRow) (now : Time)
    (u : IsUnique (λ (x : WorkItemRow). x.work_item_id) db.work_items)
    (found : fetchone (is_work i) db.work_items ≡ some w)
    (job : fetchone (is_job w.report_job_id) db.jobs ≡ some row)
    (unheld : leased_under token w ≡ false) where
  fence-refuses :
      (f : WorkItemRow → WorkItemRow)
      → fenced_work i token f db ≡ err JobError.report_job_work_lease_not_owned
  unfolding fenced_work
  fence-refuses f = ground (
    arith,
    rowcount_of_unique (λ (x : WorkItemRow). x.work_item_id) i (leased_under token) db.work_items w
        u found,
  )

  not_leased :
      (v : WorkItemRow)
      → fetchone (work_of row.report_job_id) db.work_items ≡ some v
      → lease_holds (i, token) (some v) now ≡ false
  not_leased v e = elim (Bool-cases (is_work i v)) [
    | inl own ↦
        let (stored, _) =
          All-fetchone (λ x. In x db.work_items) (work_of row.report_job_id) db.work_items
            (All-refl db.work_items) e in
        let (here, mine) =
          All-fetchone (λ x. In x db.work_items) (is_work i) db.work_items (All-refl db.work_items)
            found in
        let same = the_item i db.work_items v w u stored here own mine in
        ground (arith, ap (λ (x : WorkItemRow). leased_under token x) same)
    | inr other ↦ ground arith
  ]

  -- A required job refuses the lease; on any other the lease is not looked at.
  validates :
      ((x : JobError) × (validate_work i token now db ≡ err x))
      ⊎ ((is_required row ≡ false) × (validate_work i token now db ≡ ok (tt, db)))
  unfolding validate_work
  validates = elim (Bool-cases (is_required row)) [
    | inl q ↦ elim (Option-cases (fetchone (work_of row.report_job_id) db.work_items)) [
      | inl n ↦ inl (JobError.custody_work_missing, ground (arith, found, job, n, q))
      | inr (v, e) ↦
          inl (JobError.custody_stale_lease, ground (arith, found, job, e, q, not_leased v e))
    ]
    | inr q ↦ inr (q, ground (arith, found, job, q))
  ]

  unprotected :
      (completing : Bool) (ctx : Context)
      → is_required row ≡ false
      → protect_work i completing ctx db ≡ ok (false, db)
  unfolding protect_work
  unprotected completing ctx q = ground (arith, found, job, q)

  module _ (shaped : state_is_verified row.custody_state ≡ true → is_required row ≡ true)
      (ctx : Context) where
    unsettled : is_required row ≡ false → settle_verified_work i ctx db ≡ ok (none, db)
    unfolding settle_verified_work
    unsettled q = ground (arith, found, job, q, shaped)

    scheduled : (proposed : Time) → (due : Time) × (scheduled_at i proposed db ≡ ok (due, db))
    unfolding scheduled_at
    scheduled proposed = (not_before_due row proposed, ground (arith, found, job))

    by_fence :
        (body : Tx Db JobError WorkItemRow)
        → (is_required row ≡ false → body db ≡ err JobError.report_job_work_lease_not_owned)
        → IsRefused db (connect (validate_work i token now >>= λ _. body) db)
    by_fence body fenced = elim validates [
      | inl (x, e) ↦
          (x, connect-raised _ db x (bind_raised (validate_work i token now) (λ _. body) db x e))
      | inr (q, e) ↦ (
        JobError.report_job_work_lease_not_owned,
        connect-raised _ db JobError.report_job_work_lease_not_owned
            (bind_step (validate_work i token now) (λ _. body) db tt db e ∙ fenced q),
      )
    ]

    complete-IsRefused : IsRefused db (complete_work_item i token ctx now db)
    unfolding complete_work_item
    complete-IsRefused =
        by_fence
          (do
            protected ← protect_work i true ctx
            if protected then load_work i else (do fenced_work i token (complete now); load_work i))
          (λ q.
            bind_step (protect_work i true ctx) _ db false db (unprotected true ctx q)
            ∙ bind_raised (fenced_work i token (complete now)) _ db _
                (fence-refuses (complete now)))

    defer-IsRefused :
        (reason : String) (delay : ℕ)
        → IsRefused db (defer_work_item i token reason delay ctx now db)
    unfolding defer_work_item
    defer-IsRefused reason delay =
        by_fence
          (settle_verified_work i ctx >>= λ settled.
            defer_unsettled i token reason delay now settled)
          (λ q.
            let (due, e) = scheduled (now + seconds (max delay 1)) in
            bind_step (settle_verified_work i ctx) _ db none db (unsettled q)
            ∙ bind_step (scheduled_at i (now + seconds (max delay 1))) _ db due db e
            ∙ bind_raised (fenced_work i token (defer reason due now)) _ db _
                (fence-refuses (defer reason due now)))

    fail-IsRefused :
        (category summary : String) (policy : ReportJobWorkRetryPolicy)
        → IsRefused db (fail_work_item i token category summary policy ctx now db)
    unfolding fail_work_item
    fail-IsRefused category summary policy =
        by_fence
          (settle_verified_work i ctx >>= λ settled.
            fail_unsettled i token category summary policy ctx now settled)
          (λ q.
            bind_step (settle_verified_work i ctx) _ db none db (unsettled q)
            ∙ ap
                (λ (o : Option WorkItemRow).
                  fail_current i token category summary policy ctx now o db)
                nobody)
      where
        nobody : fetchone (work_fence i token) db.work_items ≡ none
        nobody =
            fetchone_of_unique (λ (x : WorkItemRow). x.work_item_id) i (leased_under token)
              db.work_items w u found unheld

    -- Where the stored item is not leased under the given token, completing it, deferring it and
    -- failing it are all refused, and none of them changes anything.
    pub unheld-IsRefused :
        (reason category summary : String) (delay : ℕ) (policy : ReportJobWorkRetryPolicy)
        → IsRefused db (complete_work_item i token ctx now db)
          × IsRefused db (defer_work_item i token reason delay ctx now db)
          × IsRefused db (fail_work_item i token category summary policy ctx now db)
    unheld-IsRefused reason category summary delay policy =
        (complete-IsRefused, defer-IsRefused reason delay, fail-IsRefused category summary policy)
