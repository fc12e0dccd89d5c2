-- ===== src/Jobs/Transition/Move.antt =====
-- What one operation on a job does to the tables: nothing, a parked job, or one status written with
-- the event that records it.
use lotus_report.Prelude.{String, Bool, true, not, ◌&&◌, ◌||◌, ◌≡◌, some, [], ◌∷◌}
use lotus_report.Sql.{update, fetchone}
use lotus_report.Jobs.Status.{
  ReportJobStatus, job_is, one_of, is_report_job_transition_allowed, is_report_job_cancellable,
}
use lotus_report.Jobs.Tables.{JobRow, Db, is_job}
use lotus_report.Jobs.Events.{StatusEvent}
use lotus_report.Jobs.Custody.{Context, custody_protected, at_epoch, parked_job, parked_event}

abbrev pub settles : ReportJobStatus → Bool
settles s =
    one_of (ReportJobStatus.failed ∷ ReportJobStatus.cancelled ∷ ReportJobStatus.archived ∷ []) s

abbrev pub fenced : ReportJobStatus → Bool
fenced s =
    one_of (ReportJobStatus.rendering ∷ ReportJobStatus.completed ∷ ReportJobStatus.archiving ∷ [])
      s

-- Neither an end of the job nor a step of its rendering and archiving.
abbrev pub before_custody : ReportJobStatus → Bool
before_custody s = not (settles s || fenced s)

-- The two ways in which the ledger moves a job.
abbrev pub legal : ReportJobStatus → ReportJobStatus → Bool
legal from to =
    is_report_job_transition_allowed from to
    || job_is to ReportJobStatus.cancelled && is_report_job_cancellable from

abbrev pub guarded : JobRow → ReportJobStatus → Bool
guarded row to = not (custody_protected row) || before_custody to

pub record IsMove (job_id : String) (before after : Db) : Type 0 where
  pub row : JobRow
  pub f : JobRow → JobRow
  pub event : StatusEvent
  pub found : fetchone (is_job job_id) before.jobs ≡ some row
  pub keeps_id : (r : JobRow) → (f r).report_job_id ≡ r.report_job_id
  pub of_job : event.report_job_id ≡ job_id
  pub from : event.from_status ≡ some row.status
  pub to : (r : JobRow) → (f r).status ≡ event.to_status
  pub lawful : legal row.status event.to_status ≡ true
  pub custody : guarded row event.to_status ≡ true
  pub jobs : after.jobs ≡ update (is_job job_id) f before.jobs
  pub events : after.events ≡ event ∷ before.events

pub record IsPark (job_id : String) (before after : Db) : Type 0 where
  pub row : JobRow
  pub reason : String
  pub ctx : Context
  pub found : fetchone (is_job job_id) before.jobs ≡ some row
  pub custody : custody_protected row ≡ true
  pub jobs : after.jobs ≡ update (at_epoch row) (parked_job reason) before.jobs
  pub events : after.events ≡ parked_event reason ctx row ∷ before.events

pub data Effect (job_id : String) (before after : Db) : Type 0 where
  same : after ≡ before → Effect job_id before after
  parked : IsPark job_id before after → Effect job_id before after
  moved : IsMove job_id before after → Effect job_id before after
