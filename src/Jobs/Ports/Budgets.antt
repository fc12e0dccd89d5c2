-- ===== src/Jobs/Ports/Budgets.antt =====
-- What the custody ports may spend of a job, and what each of their statements does to it.
use mathlib.Core.Option
use lotus_report.Prelude.{
  ap, ◌∙◌, ℕ, ◌≡◌, ◌⊎◌, String, Bool, refl, inl, inr, Option, none, some, Bool-cases, arith,
  if◌then◌else◌,
}
use lotus_report.Sql.{ok, fetchone, fetchone-update, update}
use lotus_report.Jobs.Tables.{JobRow, WorkItemRow, Db, update_jobs, is_job}
use lotus_report.Jobs.Custody.{Context, at_epoch, park, park_job, parked_job}
use lotus_report.Jobs.Work.Custody.{execute_update}
use lotus_report.Jobs.Ports.{PortOperation, initial, retry, poll}

-- One initial delivery, three recoveries and twelve polls.
abbrev pub budget : PortOperation → ℕ
budget initial = 1
budget retry = 3
budget poll = 12

-- What a row, or the table, says that was spent.
abbrev pub used : PortOperation → JobRow → ℕ
used initial r = r.custody_initial_count
used retry r = r.custody_dispatch_count
used poll r = r.custody_poll_count

abbrev pub used_of : PortOperation → Option JobRow → ℕ
used_of operation none = 0
used_of operation (some r) = used operation r

abbrev pub used_in : PortOperation → String → Db → ℕ
used_in operation job_id db = used_of operation (fetchone (is_job job_id) db.jobs)

pub execute_update-jobs :
    (p : JobRow → Bool) (f : JobRow → JobRow) (db db' : Db) (u : Unit {0})
    → execute_update p f db ≡ ok (u, db')
    → db'.jobs ≡ update p f db.jobs
unfolding execute_update update_jobs
execute_update-jobs p f db db' u h = ground arith

-- An UPDATE that writes neither the id nor the counters leaves what was spent.
pub update-Quiet :
    (p : JobRow → Bool) (f : JobRow → JobRow) (db db' : Db) (operation : PortOperation)
    (job_id : String)
    → db'.jobs ≡ update p f db.jobs
    → ((r : JobRow) → (f r).report_job_id ≡ r.report_job_id)
    → ((r : JobRow) → used operation (f r) ≡ used operation r)
    → used_in operation job_id db' ≡ used_in operation job_id db
update-Quiet p f db db' operation job_id e same keep =
    ap (λ rows. used_of operation (fetchone (is_job job_id) rows)) e
    ∙ ap (λ o. used_of operation o)
        (fetchone-update (is_job job_id) p f db.jobs
          (λ r. ap (λ (k : String). is_job job_id (record r { report_job_id = k })) (same r)))
    ∙ kept (fetchone (is_job job_id) db.jobs)
  where
    kept :
        (o : Option JobRow)
        → used_of operation (Option.map (λ r. if p r then f r else r) o) ≡ used_of operation o
    kept none = refl
    kept (some r) = elim (Bool-cases (p r)) [ inl t ↦ rw t (keep r) | inr t ↦ rw t refl ]

parked-used :
    (reason : String) (operation : PortOperation) (r : JobRow)
    → used operation (parked_job reason r) ≡ used operation r
parked-used reason initial r = refl
parked-used reason retry r = refl
parked-used reason poll r = refl

park-jobs :
    (reason : String) (ctx : Context) (work : Option WorkItemRow) (row : JobRow) (db db' : Db)
    (u : Unit {0})
    → park reason ctx work row db ≡ ok (u, db')
    → (db'.jobs ≡ db.jobs) ⊎ (db'.jobs ≡ update (at_epoch row) (parked_job reason) db.jobs)
unfolding park park_job update_jobs
park-jobs reason ctx none row db db' u h = inl (ground arith)
park-jobs reason ctx (some work) row db db' u h = ground arith

pub park-Quiet :
    (reason : String) (ctx : Context) (work : Option WorkItemRow) (row : JobRow) (db db' : Db)
    (u : Unit {0}) (operation : PortOperation) (job_id : String)
    → park reason ctx work row db ≡ ok (u, db')
    → used_in operation job_id db' ≡ used_in operation job_id db
park-Quiet reason ctx work row db db' u operation job_id h =
    elim (park-jobs reason ctx work row db db' u h) [
      | inl e ↦ ap (λ rows. used_of operation (fetchone (is_job job_id) rows)) e
      | inr e ↦
          update-Quiet (at_epoch row) (parked_job reason) db db' operation job_id e (λ r. refl)
            (λ r. parked-used reason operation r)
    ]
