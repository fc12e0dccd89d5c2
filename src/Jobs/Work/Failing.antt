-- ===== src/Jobs/Work/Failing.antt =====
-- A failed attempt keeps what every step on a work item keeps.
use lotus_report.Prelude.{
  if◌then◌else◌, ◌≡◌, String, true, refl, Option, none, some, List, arith, In, All-refl, subst,
}
use lotus_report.Sql.{
  ok, fetchone, bind-ok, Keeps, Keeps-bind, Keeps-if, Keeps-reads, Keeps-connect, ◌>>=◌, ◌>>◌,
  return, Reads-return, All-fetchone,
}
use lotus_report.Clock.{Time}
use lotus_report.Text.{cut, squeeze}
use lotus_report.Jobs.Tables.{WorkStatus, work_is, WorkItemRow, Db}
use lotus_report.Jobs.Custody.{Context}
use lotus_report.Jobs.Work.{ReportJobWorkRetryPolicy, decide_report_job_work_failure}
use lotus_report.Jobs.Work.Custody.{validate_work, settle_verified_work, scheduled_at}
use lotus_report.Jobs.Work.Queue.{work_fence, load_work, fenced_work}
use lotus_report.Jobs.Work.Failure.{terminalize, retry_or_fail, owner_or_worker, fail_decided}
use lotus_report.Jobs.Work.Readings.{scheduled_at-Reads}
use lotus_report.Jobs.Work.Invariant.{settle_verified-IsConsistent}
use lotus_report.Jobs.Work.Closed.{IsClosed}
use lotus_report.Jobs.Work.Operations.{
  Sound, loaded, validated, fenced_work-IsConsistent, terminalize-IsConsistent, the_item,
}
use lotus_report.Jobs.Work.Failure.{fail_current, fail_unsettled, fail_work_item}

module _ (ids : List String) (policy : ReportJobWorkRetryPolicy) (R : WorkItemRow → Type 0)
    (closed : IsClosed policy R) where
  module _ (i token : String) (ctx : Context) (now : Time) where
    pub fail_decided-IsConsistent :
        (category summary : String) (current : WorkItemRow)
        → (db db' : Db) (r : WorkItemRow)
        → fetchone (work_fence i token) db.work_items ≡ some current
        → fail_decided i token category summary
            (decide_report_job_work_failure current.attempt_count now policy)
            current
            ctx
            now
            db
          ≡ ok (r, db')
        → Sound ids policy R closed db
        → Sound ids policy R closed db'
    fail_decided-IsConsistent category summary current db db' r found h c =
        let decision = decide_report_job_work_failure current.attempt_count now policy in
        let (due, d1, h1, k1) = bind-ok (scheduled_at i decision.available_at) _ db h in
        let read = scheduled_at-Reads i decision.available_at db due d1 h1 in
        let f = retry_or_fail decision due (cut 80 category) (cut 240 (squeeze summary)) now in
        let (u, d2, h2, k2) = bind-ok (fenced_work i token f) _ d1 k1 in
        let s2 =
          fenced_work-IsConsistent R i token f db d2 u (λ w. refl)
            (λ w m r p.
              let one = the_current db current w c found m p in
              subst
                (λ (x : WorkItemRow). R (
                  retry_or_fail (decide_report_job_work_failure x.attempt_count now policy) due
                    (cut 80 category) (cut 240 (squeeze summary)) now w))
                one
                (closed.retries w now now due (cut 80 category) (cut 240 (squeeze summary)) r
                  (ground arith)))
            (subst (λ x. fenced_work i token f x ≡ ok (u, d2)) read h2) c in
        Keeps-bind (Sound ids policy R closed) (load_work i) _
          (loaded ids policy R closed i token ctx now)
          (λ row.
            Keeps-bind (Sound ids policy R closed)
              (if work_is decision.status WorkStatus.failed
                then terminalize i (owner_or_worker current.lease_owner)
                    "operator_intervention_required" summary ctx
                else return tt)
              (λ _. return row)
              (Keeps-if (Sound ids policy R closed) (work_is decision.status WorkStatus.failed) _ _
                (terminalize-IsConsistent R closed.over i (owner_or_worker current.lease_owner)
                  "operator_intervention_required" summary ctx)
                (Keeps-reads (Sound ids policy R closed) _ (Reads-return tt)))
              (λ _. Keeps-reads (Sound ids policy R closed) _ (Reads-return row)))
          d2 r db' k2 s2
      where
        the_current :
            (db : Db) (current w : WorkItemRow)
            → Sound ids policy R closed db
            → fetchone (work_fence i token) db.work_items ≡ some current
            → In w db.work_items
            → work_fence i token w ≡ true
            → w ≡ current
        the_current db current w c found m p =
            let (stored, own) =
              All-fetchone (λ x. In x db.work_items) (work_fence i token) db.work_items
                (All-refl db.work_items) found in
            the_item i db.work_items w current c.stocked.work_ids m stored (ground arith)
              (ground arith)

    pub fail-IsConsistent :
        (category summary : String) (db : Db)
        → Sound ids policy R closed db
        → Sound ids policy R closed (fail_work_item i token category summary policy ctx now db).1
    unfolding fail_work_item
    fail-IsConsistent category summary db c =
        Keeps-connect (Sound ids policy R closed)
          (do
            validate_work i token now
            settled ← settle_verified_work i ctx
            fail_unsettled i token category summary policy ctx now settled)
          db
          (Keeps-bind (Sound ids policy R closed) (validate_work i token now) _
            (validated ids policy R closed i token ctx now)
            (λ _.
              Keeps-bind (Sound ids policy R closed) (settle_verified_work i ctx)
                (λ settled. fail_unsettled i token category summary policy ctx now settled)
                (settle_verified-IsConsistent R closed.over i ctx) unsettled))
          c
      where
        current_of :
            (o : Option WorkItemRow) (d : Db) (r : WorkItemRow) (d' : Db)
            → fetchone (work_fence i token) d.work_items ≡ o
            → fail_current i token category summary policy ctx now o d ≡ ok (r, d')
            → Sound ids policy R closed d
            → Sound ids policy R closed d'
        current_of none d r d' e h k = cc
        current_of (some current) d r d' e h k =
            fail_decided-IsConsistent category summary current d d' r e h k

        unsettled :
            (settled : Option WorkItemRow)
            → Keeps
                (Sound ids policy R closed)
                (fail_unsettled i token category summary policy ctx now settled)
        unsettled (some w) d r d' h k =
            Keeps-reads (Sound ids policy R closed) _ (Reads-return w) d r d' h k
        unsettled none d r d' h k =
            current_of (fetchone (work_fence i token) d.work_items) d r d' refl h k
