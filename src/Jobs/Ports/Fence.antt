-- ===== src/Jobs/Ports/Fence.antt =====
-- What a call behind the fence of custody knows: the stored row, its work item, the lease and the scope.
use lotus_report.Prelude.{
  ◌≡◌, String, true, inl, inr, Option, none, some, arith, Bool-cases, subst, ◌∙◌,
}
use lotus_report.Sql.{Tx, ok, fetchone, bind-ok, ◌>>=◌}
use lotus_report.Clock.{Time}
use lotus_report.Jobs.Tables.{JobRow, WorkItemRow, Db, JobError, is_job}
use lotus_report.Jobs.Custody.{lock_pair, work_of}
use lotus_report.Jobs.Transition.Guard.{lock_pair-ok}
use lotus_report.Jobs.Work.Custody.{metadata}
use lotus_report.Jobs.Work.Readings.{metadata-ok}
use lotus_report.Jobs.Ports.{
  Bindings, authorize, CustodyLease, check_fence, lease_is, in_scope, fenced,
}

check_fence-ok :
    (fence : CustodyLease) (tenant_id region : String) (now : Time) (row : JobRow)
    (work : Option WorkItemRow) (db db' : Db) (u : Unit {0})
    → check_fence fence tenant_id region now row work db ≡ ok (u, db')
    → (lease_is fence now row work ≡ true) × (in_scope tenant_id region row ≡ true) × (db' ≡ db)
check_fence-ok fence tenant_id region now row work db db' u h =
    elim (Bool-cases (lease_is fence now row work)) [
      | inl e ↦ elim (Bool-cases (in_scope tenant_id region row)) [
        | inl s ↦ (e, s, ground (arith, e, s))
        | inr s ↦ absurd (ground (arith, e, s))
      ]
      | inr e ↦ absurd (ground (arith, e))
    ]

authorize-ok :
    (bindings : Bindings) (operation job_id tenant_id region : String) (db db' : Db) (u : Unit {0})
    → authorize bindings operation job_id tenant_id region db ≡ ok (u, db')
    → db' ≡ db
unfolding authorize
authorize-ok none operation job_id tenant_id region db db' u h = cc
authorize-ok (some bindings) operation job_id tenant_id region db db' u h = ground arith

lock_pair-work :
    (row : JobRow) (db db' : Db) (work : Option WorkItemRow)
    → lock_pair row db ≡ ok (work, db')
    → fetchone (work_of row.report_job_id) db.work_items ≡ work
lock_pair-work row db db' work h = ground arith

-- The body ran on the stored row and its work item, in the tables that the call found.
pub record IsFenced {A : Type 0} (job_id tenant_id region : String) (fence : CustodyLease)
    (now : Time) (body : JobRow → Option WorkItemRow → Tx Db JobError A) (db : Db) (a : A)
    (db' : Db) : Type 0 where
  pub row : JobRow
  pub work : Option WorkItemRow
  pub found : fetchone (is_job job_id) db.jobs ≡ some row
  pub working : fetchone (work_of row.report_job_id) db.work_items ≡ work
  pub leased : lease_is fence now row work ≡ true
  pub scoped : in_scope tenant_id region row ≡ true
  pub ran : body row work db ≡ ok (a, db')

pub authorized-IsFenced :
    {A : Type 0} (bindings : Bindings) (operation job_id tenant_id region : String)
    (fence : CustodyLease) (now : Time) (body : JobRow → Option WorkItemRow → Tx Db JobError A)
    (db db' : Db) (a : A)
    → (authorize bindings operation job_id tenant_id region >>= λ _.
          fenced job_id tenant_id region fence now body)
        db
      ≡ ok (a, db')
    → IsFenced job_id tenant_id region fence now body db a db'
authorized-IsFenced bindings operation job_id tenant_id region fence now body db db' a h =
    let (u, d0, p0, h0) =
      bind-ok (authorize bindings operation job_id tenant_id region)
        (λ _. fenced job_id tenant_id region fence now body) db h in
    let (row, d1, p1, h1) = bind-ok (metadata job_id) _ d0 h0 in
    let (work, d2, p2, h2) = bind-ok (lock_pair row) _ d1 h1 in
    let (v, d3, p3, h3) = bind-ok (check_fence fence tenant_id region now row work) _ d2 h2 in
    let e0 : d0 ≡ db = authorize-ok bindings operation job_id tenant_id region db d0 u p0 in
    let (f, e1) = metadata-ok job_id d0 d1 row p1 in
    let e2 : d2 ≡ d1 = lock_pair-ok row d1 d2 work p2 in
    let (leased, scoped, e3) = check_fence-ok fence tenant_id region now row work d2 d3 v p3 in
    let same : d3 ≡ db = e3 ∙ e2 ∙ e1 ∙ e0 in
    record {
      row = row;
      work = work;
      found = subst (λ (d : Db). fetchone (is_job job_id) d.jobs ≡ some row) e0 f;
      working =
          subst (λ (d : Db). fetchone (work_of row.report_job_id) d.work_items ≡ work) (e1 ∙ e0)
            (lock_pair-work row d1 d2 work p2);
      leased = leased;
      scoped = scoped;
      ran = subst (λ d. body row work d ≡ ok (a, db')) same h3;
    }
