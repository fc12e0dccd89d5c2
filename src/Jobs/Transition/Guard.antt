-- ===== src/Jobs/Transition/Guard.antt =====
-- What `guard_transition` (src/app/reporting_jobs/custody_recovery.py) decides: to go on with the tables as
-- they were, or to stop with one effect.
use lotus_report.Prelude.{
  subst, String, Bool, true, false, ◌&&◌, ◌≡◌, sym, inl, inr, Option, none, some, ◌∷◌, arith,
  Bool-cases, Option-cases, is_none, ap, ◌∙◌, if◌then◌else◌,
}
use lotus_report.Sql.{return, ◌>>◌, ok, update, fetchone, bind-ok}
use lotus_report.Clock.{Time}
use lotus_report.Jobs.Status.{ReportJobStatus, job_is}
use lotus_report.Jobs.Tables.{
  is_required, state_is_verified, JobRow, WorkItemRow, Db, JobError, is_job, update_jobs,
  append_status_event, load_job,
}
use lotus_report.Jobs.Events.{StatusEvent}
use lotus_report.Jobs.Custody.{
  check_identity, guard_required, lock_pair, Context, custody_protected, at_epoch, parked_job, park,
  park_job, decide_required, guard_transition,
}
use lotus_report.Jobs.Transition.{write_status}
use lotus_report.Jobs.Transition.Move.{parked, same, settles, fenced, guarded, Effect}

pub update_jobs-ok :
    (p : JobRow → Bool) (f : JobRow → JobRow) (db db' : Db) (u : Unit {0})
    → update_jobs p f db ≡ ok (u, db')
    → db' ≡ record db { jobs = update p f db.jobs }
unfolding update_jobs
update_jobs-ok p f db db' u h = ground arith

pub append-ok :
    (e : StatusEvent) (db db' : Db) (u : Unit {0})
    → append_status_event e db ≡ ok (u, db')
    → db' ≡ record db { events = e ∷ db.events }
append-ok e db db' u h = ground arith

pub load-ok :
    (job_id : String) (db db' : Db) (r : JobRow) → load_job job_id db ≡ ok (r, db') → db' ≡ db
unfolding load_job
load-ok job_id db db' r h = ground arith

pub write_status-ok :
    (job_id : String) (f : JobRow → JobRow) (e : StatusEvent) (db db' : Db) (r : JobRow)
    → write_status job_id f e db ≡ ok (r, db')
    → db' ≡ record db { jobs = update (is_job job_id) f db.jobs; events = e ∷ db.events }
unfolding write_status
write_status-ok job_id f e db db' r h =
    let (u, c, h1, k) = bind-ok (update_jobs (is_job job_id) f) _ db h in
    let (v, d, h2, h3) = bind-ok (append_status_event e) _ c k in
    let e1 = update_jobs-ok _ f db c u h1 in
    let e2 = append-ok e c d v h2 in
    load-ok job_id d db' r h3 ∙ e2 ∙ ap (λ (x : Db). record x { events = e ∷ x.events }) e1

park_job-ok :
    (reason : String) (row : JobRow) (db db' : Db) (u : Unit {0})
    → park_job reason row db ≡ ok (u, db')
    → db' ≡ record db { jobs = update (at_epoch row) (parked_job reason) db.jobs }
unfolding park_job update_jobs
park_job-ok reason row db db' u h = ground arith

-- What the guard decides: to go on with the tables as they were, or to stop.
pub data Guarded (job_id : String) (to : ReportJobStatus) (before : Db) (settled : Bool)
    (after : Db) : Type 0 where
  go_on :
      settled ≡ false
      → after ≡ before
      → ((row : JobRow) → fetchone (is_job job_id) before.jobs ≡ some row → guarded row to ≡ true)
      → Guarded job_id to before settled after
  stop : settled ≡ true → Effect job_id before after → Guarded job_id to before settled after

pub park-Effect :
    (job_id reason : String) (ctx : Context) (work : Option WorkItemRow) (row : JobRow)
    (db db' : Db) (u : Unit {0})
    → fetchone (is_job job_id) db.jobs ≡ some row
    → custody_protected row ≡ true
    → park reason ctx work row db ≡ ok (u, db')
    → Effect job_id db db'
unfolding park park_job update_jobs
park-Effect job_id reason ctx none row db db' u found custody h = absurd (ground arith)
park-Effect job_id reason ctx (some work) row db db' u found custody h = parked (record {
  row = row;
  reason = reason;
  ctx = ctx;
  found = found;
  custody = custody;
  jobs = ground arith;
  events = ground arith;
})

decide-Guarded :
    (job_id : String) (to : ReportJobStatus) (ctx : Context) (work : Option WorkItemRow)
    (row : JobRow) (db db' : Db) (settled : Bool)
    → fetchone (is_job job_id) db.jobs ≡ some row
    → decide_required to ctx work row db ≡ ok (settled, db')
    → Guarded job_id to db settled db'
unfolding decide_required
decide-Guarded job_id to ctx work row db db' settled found h =
    elim (Bool-cases (state_is_verified row.custody_state)) [
      | inl v ↦ elim (Bool-cases (job_is to ReportJobStatus.archived)) [
        | inl a ↦
            go_on (ground arith) (ground arith)
              (λ r f. let e : row ≡ r = ground arith in rw (← e) (ground arith))
        | inr a ↦ stop (ground arith) (same (ground arith))
      ]
      | inr v ↦ elim (Bool-cases (custody_protected row && settles to)) [
        | inl p ↦
            let k : (park "custody_transition_blocked" ctx work row >> return true) db
                ≡ ok (settled, db') =
              ground arith in
            let (u, c, h1, h2) = bind-ok (park "custody_transition_blocked" ctx work row) _ db k in
            let e : c ≡ db' = ground arith in
            stop (ground arith) (
              park-Effect job_id _ ctx work row db db' u found (ground arith)
                (h1 ∙ ap (λ d. ok (u, d)) e))
        | inr p ↦ elim (Bool-cases (fenced to)) [
          | inl f ↦ absurd (ground arith)
          | inr f ↦
              go_on (ground arith) (ground arith)
                (λ r g. let e : row ≡ r = ground arith in rw (← e) (ground arith))
        ]
      ]
    ]

pub lock_pair-ok :
    (row : JobRow) (db db' : Db) (work : Option WorkItemRow)
    → lock_pair row db ≡ ok (work, db')
    → db' ≡ db
lock_pair-ok row db db' work h = ground arith

check_identity-ok :
    (i : Option (String × String)) (to : ReportJobStatus) (work : Option WorkItemRow) (now : Time)
    (db db' : Db) (u : Unit {0})
    → check_identity i to work now db ≡ ok (u, db')
    → db' ≡ db
check_identity-ok none to work now db db' u h = ground arith
check_identity-ok (some i) to work now db db' u h = ground arith

passed_on :
    (b settled : Bool) (c db' : Db)
    → return {D = Db} {E = JobError} b c ≡ ok (settled, db')
    → (b ≡ settled) × (c ≡ db')
passed_on b settled c db' h = (ground arith, ground arith)

guard_required-Guarded :
    (job_id : String) (to : ReportJobStatus) (ctx : Context) (row : JobRow) (db db' : Db)
    (settled : Bool)
    → fetchone (is_job job_id) db.jobs ≡ some row
    → guard_required to ctx row db ≡ ok (settled, db')
    → Guarded job_id to db settled db'
guard_required-Guarded job_id to ctx row db db' settled found h =
    let (work, c, h1, h2) = bind-ok (lock_pair row) _ db h in
    let e1 : c ≡ db = lock_pair-ok row db c work h1 in
    let checked = λ (w : Option WorkItemRow).
      check_identity ctx.identity to w ctx.guard_now >> decide_required to ctx w row in
    elim (Bool-cases (is_required row)) [
      | inl q ↦
          let k =
            subst (λ t. (if t then checked work else return false) c ≡ ok (settled, db')) q h2 in
          let (u, d, h3, h4) = bind-ok (check_identity ctx.identity to work ctx.guard_now) _ c k in
          let e2 : d ≡ c = check_identity-ok ctx.identity to work ctx.guard_now c d u h3 in
          decide-Guarded job_id to ctx work row db db' settled found
            (subst (λ x. decide_required to ctx work row x ≡ ok (settled, db')) (e2 ∙ e1) h4)
      | inr q ↦
          let k =
            subst (λ t. (if t then checked work else return false) c ≡ ok (settled, db')) q h2 in
          let (e2, e3) = passed_on false settled c db' k in
          go_on (sym e2) (sym e3 ∙ e1)
            (λ r g. let e : row ≡ r = ground arith in rw (← e) (ground arith))
    ]

pub guard-Guarded :
    (job_id : String) (to : ReportJobStatus) (ctx : Context) (db db' : Db) (settled : Bool)
    → guard_transition job_id to ctx db ≡ ok (settled, db')
    → Guarded job_id to db settled db'
unfolding guard_transition
guard-Guarded job_id to ctx db db' settled h =
    elim (Option-cases (fetchone (is_job job_id) db.jobs)) [
      | inl n ↦ go_on (ground arith) (ground arith) (λ r f. absurd (ground arith))
      | inr (row, f) ↦ elim (Bool-cases (is_none row.custody_policy)) [
        | inl n ↦
            go_on (ground arith) (ground arith)
              (λ r g. let e : row ≡ r = ground arith in rw (← e) (ground arith))
        | inr n ↦ guard_required-Guarded job_id to ctx row db db' settled f (ground arith)
      ]
    ]
