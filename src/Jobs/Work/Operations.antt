-- ===== src/Jobs/Work/Operations.antt =====
-- Each operation of the work queue keeps the attempt budget and the log of events.
use lotus_report.Prelude.{
  ℕ, ◌+◌, max, if◌then◌else◌, ◌≡◌, String, true, false, refl, Option, none, some, List, arith, In,
  some_injective, sym, subst, ◌∙◌, eq_iff,
}
use lotus_report.Sql.{
  ok, update, IsUnique, Keeps, Reads, Keeps-bind, Keeps-if, Keeps-reads, Keeps-connect, ◌>>=◌, ◌>>◌,
  Reads-return, Reads-raise, Reads-bind, found_of_In,
}
use lotus_report.Clock.{Time, seconds}
use lotus_report.Jobs.Tables.{JobRow, WorkItemRow, Db}
use lotus_report.Jobs.Custody.{Context}
use lotus_report.Jobs.Transition.{transition_job}
use lotus_report.Jobs.Work.{ReportJobWorkRetryPolicy}
use lotus_report.Jobs.Work.Custody.{
  is_work, find_work, protect_work, validate_work, settle_verified_work, scheduled_at,
}
use lotus_report.Jobs.Work.Queue.{
  work_fence, load_found, load_work, fenced_work, complete, complete_work_item, defer,
  defer_unsettled, defer_work_item,
}
use lotus_report.Jobs.Work.Failure.{job_of_work, fail_job, terminalize, exhausted_change, job_over}
use lotus_report.Jobs.Work.Stock.{AllowsOver}
use lotus_report.Jobs.Work.Readings.{validate_work-Reads, scheduled_at-Reads, find_work-Reads}
use lotus_report.Jobs.Work.Invariant.{
  IsConsistent, protect_work-IsConsistent, transition-IsConsistent, settle_verified-IsConsistent,
  items-IsConsistent,
}
use lotus_report.Jobs.Work.Closed.{IsClosed}

load_work-Reads : (work_id : String) → Reads (load_work work_id)
load_work-Reads work_id = Reads-bind (find_work work_id) load_found (find_work-Reads work_id) found
  where
    found : (w : Option WorkItemRow) → Reads (load_found w)
    found none = Reads-raise _
    found (some w) = Reads-return w

-- The row that an id and any further test find is the only one that passes both.
pub the_item :
    (i : String) (rows : List WorkItemRow) (w x : WorkItemRow)
    → IsUnique (λ (r : WorkItemRow). r.work_item_id) rows
    → In w rows
    → In x rows
    → is_work i w ≡ true
    → is_work i x ≡ true
    → w ≡ x
the_item i rows w x u m n e k = some_injective (
    sym (
      found_of_In (λ (r : WorkItemRow). r.work_item_id) i rows w u m
        ((eq_iff w.work_item_id i).0 e))
    ∙ found_of_In (λ (r : WorkItemRow). r.work_item_id) i rows x u n
        ((eq_iff x.work_item_id i).0 k))

module _ {ids : List String} (R : WorkItemRow → Type 0) where
  pub fenced_work-IsConsistent :
      (i token : String) (f : WorkItemRow → WorkItemRow) (db db' : Db) (u : Unit {0})
      → ((w : WorkItemRow) → (f w).work_item_id ≡ w.work_item_id)
      → ((w : WorkItemRow) → In w db.work_items → R w → work_fence i token w ≡ true → R (f w))
      → fenced_work i token f db ≡ ok (u, db')
      → IsConsistent ids R db
      → IsConsistent ids R db'
  unfolding fenced_work
  fenced_work-IsConsistent i token f db db' u same keep h c =
      let e : record db { work_items = update (work_fence i token) f db.work_items } ≡ db' =
        ground arith in
      subst (IsConsistent ids R) e (items-IsConsistent R (work_fence i token) f db same keep c)

  module _ (over : AllowsOver R) where
    pub terminalize-IsConsistent :
        (i actor category summary : String) (ctx : Context)
        → Keeps (IsConsistent ids R) (terminalize i actor category summary ctx)
    unfolding terminalize
    terminalize-IsConsistent i actor category summary ctx =
        Keeps-bind (IsConsistent ids R) (protect_work i false ctx) _
          (protect_work-IsConsistent R over i false ctx)
          (λ protected.
            Keeps-if (IsConsistent ids R) protected _ _
              (Keeps-reads (IsConsistent ids R) _ (Reads-return tt))
              (λ db u db' h c. failed (job_of_work i db) db u db' h c))
      where
        failed :
            (job : Option JobRow)
            → Keeps
                (IsConsistent ids R)
                (fail_job actor (exhausted_change category summary) ctx job)
        failed none = Keeps-reads (IsConsistent ids R) _ (Reads-return tt)
        failed (some job) =
            Keeps-if (IsConsistent ids R) (job_over job.status) _ _
              (Keeps-reads (IsConsistent ids R) _ (Reads-return tt))
              (Keeps-bind (IsConsistent ids R)
                (transition_job job.report_job_id (exhausted_change category summary) (record ctx {
                  actor = actor;
                  correlation_id = job.correlation_id;
                  trace_id = job.trace_id;
                }))
                _
                (transition-IsConsistent R over job.report_job_id
                  (exhausted_change category summary) _)
                (λ _. Keeps-reads (IsConsistent ids R) _ (Reads-return tt)))

module _ (ids : List String) (policy : ReportJobWorkRetryPolicy) (R : WorkItemRow → Type 0)
    (closed : IsClosed policy R) where
  abbrev pub Sound : Db → Type 0
  Sound db = IsConsistent ids R db

  module _ (i token : String) (ctx : Context) (now : Time) where
    -- The lease is validated, and an item whose job is verified is settled.
    pub validated : Keeps Sound (validate_work i token now)
    validated = Keeps-reads Sound (validate_work i token now) (validate_work-Reads i token now)

    pub loaded : Keeps Sound (load_work i)
    loaded = Keeps-reads Sound (load_work i) (load_work-Reads i)

    pub complete-IsConsistent :
        (db : Db) → Sound db → Sound (complete_work_item i token ctx now db).1
    unfolding complete_work_item
    complete-IsConsistent db c =
        Keeps-connect Sound
          (do
            validate_work i token now
            protected ← protect_work i true ctx
            if protected then load_work i else (do fenced_work i token (complete now); load_work i))
          db
          (Keeps-bind Sound (validate_work i token now) _ validated (λ _.
            Keeps-bind Sound (protect_work i true ctx) _
              (protect_work-IsConsistent R closed.over i true ctx)
              (λ protected. Keeps-if Sound protected _ _ loaded (
                Keeps-bind Sound (fenced_work i token (complete now)) _
                  (λ d u d' h k.
                    fenced_work-IsConsistent R i token (complete now) d d' u (λ w. refl)
                      (λ w m r p. closed.over (complete now w) refl refl) h k)
                  (λ _. loaded)))))
          c

    pub defer-IsConsistent :
        (reason : String) (delay : ℕ) (db : Db)
        → Sound db
        → Sound (defer_work_item i token reason delay ctx now db).1
    unfolding defer_work_item
    defer-IsConsistent reason delay db c =
        Keeps-connect Sound
          (do
            validate_work i token now
            settled ← settle_verified_work i ctx
            defer_unsettled i token reason delay now settled)
          db
          (Keeps-bind Sound (validate_work i token now) _ validated (λ _.
            Keeps-bind Sound (settle_verified_work i ctx)
              (λ settled. defer_unsettled i token reason delay now settled)
              (settle_verified-IsConsistent R closed.over i ctx) unsettled))
          c
      where
        unsettled :
            (settled : Option WorkItemRow)
            → Keeps Sound (defer_unsettled i token reason delay now settled)
        unsettled (some w) = Keeps-reads Sound _ (Reads-return w)
        unsettled none =
            Keeps-bind Sound (scheduled_at i (now + seconds (max delay 1))) _
              (Keeps-reads Sound _ (scheduled_at-Reads i (now + seconds (max delay 1))))
              (λ due.
                Keeps-bind Sound (fenced_work i token (defer reason due now)) _
                  (λ d u d' h k.
                    fenced_work-IsConsistent R i token (defer reason due now) d d' u (λ w. refl)
                      (λ w m r p. closed.defers w now due token reason r (ground arith)) h k)
                  (λ _. loaded))
