-- ===== src/Jobs/Work/Held.antt =====
-- The holder of a lease on the work item of a job outside custody completes it or defers it.
use mathlib.Core.Option
use lotus_report.Prelude.{
  ℕ, ◌+◌, max, ◌≡◌, ◌≢◌, ◌-◌, String, Bool, true, false, refl, none, some, arith, ap, ◌∙◌, str_eq,
  if◌then◌else◌,
}
use lotus_report.Sql.{
  Result, fetchone-update_other, ok, fetchone, update, IsUnique, rowcount_of_unique, bind_step,
  connect-returned, fetchone-update, fetchone-true,
}
use lotus_report.Clock.{Time, seconds}
use lotus_report.Text.{cut}
use lotus_report.Jobs.Tables.{JobRow, WorkItemRow, WorkStatus, Db, JobError, is_job}
use lotus_report.Jobs.Custody.{Context}
use lotus_report.Jobs.Transition.Progress.{IsLegacy}
use lotus_report.Jobs.Work.Custody.{
  is_work, validate_work, protect_work, settle_verified_work, scheduled_at,
}
use lotus_report.Jobs.Work.Queue.{
  leased_under, work_fence, fenced_work, complete, complete_work_item, defer, defer_work_item,
  load_work,
}

-- Both tables hold the item and its job, which custody never began for.
pub record IsHeld (db : Db) (i token : String) (w : WorkItemRow) (row : JobRow) : Type 0 where
  pub work_ids : IsUnique (λ (x : WorkItemRow). x.work_item_id) db.work_items
  pub found : fetchone (is_work i) db.work_items ≡ some w
  pub job : fetchone (is_job w.report_job_id) db.jobs ≡ some row
  pub legacy : IsLegacy row
  pub held : leased_under token w ≡ true

-- The call returned the row, which stands in the table under its id; every other item, the jobs and the
-- events are as they were.
pub record IsWritten (i : String) (row : WorkItemRow) (before : Db)
    (run : Result JobError WorkItemRow × Db) : Type 0 where
  pub answer : run.0 ≡ ok row
  pub stored : fetchone (is_work i) run.1.work_items ≡ some row
  pub others :
      (k : String)
      → k ≢ i
      → fetchone (is_work k) run.1.work_items ≡ fetchone (is_work k) before.work_items
  pub jobs : run.1.jobs ≡ before.jobs
  pub events : run.1.events ≡ before.events

module _ (i : String) (w : WorkItemRow) (row : JobRow) (db : Db)
    (found : fetchone (is_work i) db.work_items ≡ some w)
    (job : fetchone (is_job w.report_job_id) db.jobs ≡ some row) (legacy : IsLegacy row) where
  pub validated : (token : String) (now : Time) → validate_work i token now db ≡ ok (tt, db)
  unfolding validate_work
  validated token now = ground (arith, found, job, legacy.policy)

  pub unprotected :
      (completing : Bool) (ctx : Context) → protect_work i completing ctx db ≡ ok (false, db)
  unfolding protect_work
  unprotected completing ctx = ground (arith, found, job, legacy.policy)

  pub unsettled : (ctx : Context) → settle_verified_work i ctx db ≡ ok (none, db)
  unfolding settle_verified_work
  unsettled ctx = ground (arith, found, job, legacy.state)

  pub scheduled : (proposed : Time) → scheduled_at i proposed db ≡ ok (proposed, db)
  unfolding scheduled_at
  scheduled proposed = ground (arith, found, job, legacy.policy)

module _ (i token : String) (w : WorkItemRow) (row : JobRow) (db : Db)
    (h : IsHeld db i token w row) where
  pub fence-writes :
      (f : WorkItemRow → WorkItemRow)
      → fenced_work i token f db
        ≡ ok (tt, record db { work_items = update (work_fence i token) f db.work_items })
  unfolding fenced_work
  fence-writes f = ground (
    arith,
    rowcount_of_unique (λ (x : WorkItemRow). x.work_item_id) i (leased_under token) db.work_items w
        h.work_ids h.found,
    h.held,
  )

  own : is_work i w ≡ true
  own = fetchone-true (is_work i) db.work_items w h.found

  pub reads_back :
      (f : WorkItemRow → WorkItemRow)
      → ((x : WorkItemRow) → (f x).work_item_id ≡ x.work_item_id)
      → fetchone (is_work i) (update (work_fence i token) f db.work_items) ≡ some (f w)
  reads_back f same =
      fetchone-update (is_work i) (work_fence i token) f db.work_items
        (λ x. ap (λ k. str_eq k i) (same x))
      ∙ ap (λ o. Option.map (λ x. if work_fence i token x then f x else x) o) h.found
      ∙ rw (own, h.held) refl

  pub loads :
      (f : WorkItemRow → WorkItemRow) (d : Db)
      → ((x : WorkItemRow) → (f x).work_item_id ≡ x.work_item_id)
      → d.work_items ≡ update (work_fence i token) f db.work_items
      → load_work i d ≡ ok (f w, d)
  loads f d same e = ground (arith, ap (λ rows. fetchone (is_work i) rows) e, reads_back f same)

  pub unseen :
      (f : WorkItemRow → WorkItemRow)
      → ((x : WorkItemRow) → (f x).work_item_id ≡ x.work_item_id)
      → (k : String) → k ≢ i
      → fetchone (is_work k) (update (work_fence i token) f db.work_items)
        ≡ fetchone (is_work k) db.work_items
  unseen f same k ne =
      fetchone-update_other (λ (x : WorkItemRow). x.work_item_id) k i (work_fence i token) f
        db.work_items same (λ x e. ground arith) ne

  -- What one UPDATE under the fence leaves.
  pub written :
      (f : WorkItemRow → WorkItemRow) (run : Result JobError WorkItemRow × Db)
      → ((x : WorkItemRow) → (f x).work_item_id ≡ x.work_item_id)
      → run ≡ (ok (f w), record db { work_items = update (work_fence i token) f db.work_items })
      → IsWritten i (f w) db run
  written f run same e = record {
    answer = ap (λ (q : Result JobError WorkItemRow × Db). q.0) e;
    stored =
        ap (λ (q : Result JobError WorkItemRow × Db). fetchone (is_work i) q.1.work_items) e
        ∙ reads_back f same;
    others = λ k ne.
        ap (λ (q : Result JobError WorkItemRow × Db). fetchone (is_work k) q.1.work_items) e
        ∙ unseen f same k ne;
    jobs = ap (λ (q : Result JobError WorkItemRow × Db). q.1.jobs) e;
    events = ap (λ (q : Result JobError WorkItemRow × Db). q.1.events) e;
  }

  complete-held :
      (ctx : Context) (now : Time)
      → complete_work_item i token ctx now db ≡ (
        ok (complete now w),
        record db { work_items = update (work_fence i token) (complete now) db.work_items },
      )
  unfolding complete_work_item
  complete-held ctx now =
      let after = record db {
        work_items = update (work_fence i token) (complete now) db.work_items;
      } in
      connect-returned _ db (complete now w) after (
        bind_step (validate_work i token now) _ db tt db
          (validated i w row db h.found h.job h.legacy token now)
        ∙ bind_step (protect_work i true ctx) _ db false db
            (unprotected i w row db h.found h.job h.legacy true ctx)
        ∙ bind_step (fenced_work i token (complete now)) _ db tt after (fence-writes (complete now))
        ∙ loads (complete now) after (λ x. refl) refl)

  defer-held :
      (reason : String) (delay : ℕ) (ctx : Context) (now : Time)
      → defer_work_item i token reason delay ctx now db ≡ (
        ok (defer reason (now + seconds (max delay 1)) now w),
        record db {
          work_items =
              update
                (work_fence i token)
                (defer reason (now + seconds (max delay 1)) now)
                db.work_items;
        },
      )
  unfolding defer_work_item
  defer-held reason delay ctx now =
      let due = now + seconds (max delay 1) in
      let after = record db {
        work_items = update (work_fence i token) (defer reason due now) db.work_items;
      } in
      connect-returned _ db (defer reason due now w) after (
        bind_step (validate_work i token now) _ db tt db
          (validated i w row db h.found h.job h.legacy token now)
        ∙ bind_step (settle_verified_work i ctx) _ db none db
            (unsettled i w row db h.found h.job h.legacy ctx)
        ∙ bind_step (scheduled_at i due) _ db due db
            (scheduled i w row db h.found h.job h.legacy due)
        ∙ bind_step (fenced_work i token (defer reason due now)) _ db tt after
            (fence-writes (defer reason due now))
        ∙ loads (defer reason due now) after (λ x. refl) refl)

  -- On a job outside custody the holder of a lease completes the item, or defers it by at least a
  -- second; deferring gives the attempt back and says what is waited for. Either releases the lease,
  -- returns the stored row and changes nothing else.
  pub held-settled :
      (reason : String) (delay : ℕ) (ctx : Context) (now : Time)
      → IsWritten i
          (record w {
            status = WorkStatus.completed;
            lease_owner = none;
            lease_token = none;
            lease_acquired_at = none;
            lease_expires_at = none;
            updated_at = now;
            completed_at = some now;
          })
          db
          (complete_work_item i token ctx now db)
        × IsWritten i
            (record w {
              status = WorkStatus.retry_pending;
              attempt_count = w.attempt_count - 1;
              available_at = now + seconds (max delay 1);
              lease_owner = none;
              lease_token = none;
              lease_acquired_at = none;
              lease_expires_at = none;
              last_error_category = some (cut 80 reason);
              last_error_summary =
                  some "Waiting on owner-side work; the failure budget is untouched.";
              updated_at = now;
            })
            db
            (defer_work_item i token reason delay ctx now db)
  held-settled reason delay ctx now = (
    written (complete now) _ (λ x. refl) (complete-held ctx now),
    written (defer reason (now + seconds (max delay 1)) now) _ (λ x. refl)
        (defer-held reason delay ctx now),
  )
