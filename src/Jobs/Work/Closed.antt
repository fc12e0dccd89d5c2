-- ===== src/Jobs/Work/Closed.antt =====
-- What a predicate on work items must satisfy for every operation of the work queue to keep it.
use lotus_report.Prelude.{ℕ, ◌≡◌, String, true}
use lotus_report.Clock.{Time}
use lotus_report.Jobs.Tables.{WorkStatus, work_is, WorkItemRow}
use lotus_report.Jobs.Work.{ReportJobWorkRetryPolicy, decide_report_job_work_failure}
use lotus_report.Jobs.Work.Queue.{defer, leased_under}
use lotus_report.Jobs.Work.Failure.{retry_or_fail}
use lotus_report.Jobs.Work.Claims.{is_queued, take_lease}
use lotus_report.Jobs.Work.Stock.{AllowsOver}

pub record IsClosed (policy : ReportJobWorkRetryPolicy) (R : WorkItemRow → Type 0) : Type 0 where
  pub over : AllowsOver R
  pub defers :
      (w : WorkItemRow) (now due : Time) (token reason : String)
      → R w
      → leased_under token w ≡ true
      → R (defer reason due now w)
  pub takes :
      (w : WorkItemRow) (now : Time) (worker token : String) (n : ℕ)
      → R w
      → is_queued w ≡ true
      → R (take_lease worker token n now w)
  pub retries :
      (w : WorkItemRow) (now failed_at due : Time) (category summary : String)
      → R w
      → work_is w.status WorkStatus.leased ≡ true
      → R (
          retry_or_fail
            (decide_report_job_work_failure w.attempt_count failed_at policy)
            due
            category
            summary
            now
            w)
