-- ===== src/Jobs/Status.antt =====
-- The statuses of a report job and its lifecycle table (src/app/reporting_jobs/models.py,
-- lifecycle_policy.py).
use lotus_report.Prelude.{ℕ, Bool, false, not, ◌||◌, List, [], ◌∷◌, ◌==◌}

pub data ReportJobStatus : Type 0 where
  accepted queued collecting_data data_ready rendering completed : ReportJobStatus
  archiving archived completed_with_warnings failed cancelled : ReportJobStatus

abbrev status_code : ReportJobStatus → ℕ
status_code ReportJobStatus.accepted = 0
status_code ReportJobStatus.queued = 1
status_code ReportJobStatus.collecting_data = 2
status_code ReportJobStatus.data_ready = 3
status_code ReportJobStatus.rendering = 4
status_code ReportJobStatus.completed = 5
status_code ReportJobStatus.archiving = 6
status_code ReportJobStatus.archived = 7
status_code ReportJobStatus.completed_with_warnings = 8
status_code ReportJobStatus.failed = 9
status_code ReportJobStatus.cancelled = 10

-- `status == ...`
abbrev pub job_is : ReportJobStatus → ReportJobStatus → Bool
job_is a b = status_code a == status_code b

-- `status in {...}`
abbrev pub one_of : List ReportJobStatus → ReportJobStatus → Bool
one_of [] s = false
one_of (t ∷ ts) s = job_is s t || one_of ts s

-- REPORT_JOB_TRANSITION_ALLOWED_FROM; a status without an entry has no predecessor.
abbrev pub transition_allowed_from : ReportJobStatus → List ReportJobStatus
transition_allowed_from ReportJobStatus.accepted = []
transition_allowed_from ReportJobStatus.queued = []
transition_allowed_from ReportJobStatus.collecting_data = ReportJobStatus.accepted ∷ []
transition_allowed_from ReportJobStatus.data_ready =
    ReportJobStatus.accepted ∷ ReportJobStatus.collecting_data ∷ []
transition_allowed_from ReportJobStatus.rendering = ReportJobStatus.data_ready ∷ []
transition_allowed_from ReportJobStatus.completed =
    ReportJobStatus.data_ready ∷ ReportJobStatus.rendering ∷ []
transition_allowed_from ReportJobStatus.archiving = ReportJobStatus.completed ∷ []
transition_allowed_from ReportJobStatus.archived =
    ReportJobStatus.completed ∷ ReportJobStatus.archiving ∷ ReportJobStatus.failed ∷ []
transition_allowed_from ReportJobStatus.completed_with_warnings = []
transition_allowed_from ReportJobStatus.failed =
    ReportJobStatus.accepted ∷ ReportJobStatus.collecting_data ∷ ReportJobStatus.data_ready
    ∷ ReportJobStatus.rendering ∷ ReportJobStatus.completed ∷ ReportJobStatus.archiving ∷ []
transition_allowed_from ReportJobStatus.cancelled = []

abbrev pub is_report_job_transition_allowed : ReportJobStatus → ReportJobStatus → Bool
is_report_job_transition_allowed current_status to_status =
    one_of (transition_allowed_from to_status) current_status

-- REPORT_JOB_CANCEL_BLOCKED_STATUSES
abbrev pub cancel_blocked : List ReportJobStatus
cancel_blocked =
    ReportJobStatus.rendering ∷ ReportJobStatus.completed ∷ ReportJobStatus.archiving
    ∷ ReportJobStatus.archived ∷ ReportJobStatus.completed_with_warnings ∷ ReportJobStatus.cancelled
    ∷ []

abbrev pub is_report_job_cancellable : ReportJobStatus → Bool
is_report_job_cancellable s = not (one_of cancel_blocked s)
