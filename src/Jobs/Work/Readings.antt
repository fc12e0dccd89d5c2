-- ===== src/Jobs/Work/Readings.antt =====
-- The reads that the transactions of the work queue make: they change nothing.
use lotus_report.Prelude.{String, ◌≡◌, Option, none, some, arith}
use lotus_report.Sql.{ok, fetchone, Reads, Reads-return, Reads-raise, Reads-if, Reads-bind}
use lotus_report.Clock.{Time}
use lotus_report.Jobs.Tables.{JobRow, WorkItemRow, Db, is_job}
use lotus_report.Jobs.Custody.{lock_pair}
use lotus_report.Jobs.Transition.Guard.{lock_pair-ok}
use lotus_report.Jobs.Work.Custody.{
  find_work, metadata, validate_work, validate_found, require_lease, scheduled_at,
  scheduled_selected,
}

pub metadata-ok :
    (job_id : String) (db db' : Db) (row : JobRow)
    → metadata job_id db ≡ ok (row, db')
    → (fetchone (is_job job_id) db.jobs ≡ some row) × (db' ≡ db)
metadata-ok job_id db db' row h = ground arith

pub metadata-Reads : (job_id : String) → Reads (metadata job_id)
metadata-Reads job_id db row db' h = (metadata-ok job_id db db' row h).1

pub lock_pair-Reads : (row : JobRow) → Reads (lock_pair row)
lock_pair-Reads row db work db' h = lock_pair-ok row db db' work h

pub find_work-Reads : (work_id : String) → Reads (find_work work_id)
find_work-Reads work_id db w db' h = ground arith

pub require_lease-Reads :
    (work_id token : String) (now : Time) (row : JobRow) (work : Option WorkItemRow)
    → Reads (require_lease work_id token now row work)
require_lease-Reads work_id token now row work = Reads-if _ _ _ (Reads-return tt) (Reads-raise _)

pub validate_work-Reads :
    (work_id token : String) (now : Time) → Reads (validate_work work_id token now)
unfolding validate_work
validate_work-Reads work_id token now =
    Reads-bind (find_work work_id) (validate_found work_id token now) (find_work-Reads work_id)
      found
  where
    found : (w : Option WorkItemRow) → Reads (validate_found work_id token now w)
    found none = Reads-return tt
    found (some w) =
        Reads-bind (metadata w.report_job_id) _ (metadata-Reads w.report_job_id) (λ row.
          Reads-bind (lock_pair row) _ (lock_pair-Reads row) (λ work.
            Reads-if _ _ _ (require_lease-Reads work_id token now row work) (Reads-return tt)))

pub scheduled_at-Reads :
    (work_id : String) (proposed : Time) → Reads (scheduled_at work_id proposed)
unfolding scheduled_at
scheduled_at-Reads work_id proposed =
    Reads-bind (find_work work_id) (scheduled_selected proposed) (find_work-Reads work_id) selected
  where
    selected : (w : Option WorkItemRow) → Reads (scheduled_selected proposed w)
    selected none = Reads-raise _
    selected (some w) =
        Reads-bind (metadata w.report_job_id) _ (metadata-Reads w.report_job_id)
          (λ row. Reads-return _)
