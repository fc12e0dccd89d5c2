-- ===== src/Jobs/Work.antt =====
-- The retry policy of report-job work (src/app/reporting_jobs/work_queue.py).
pub mod Custody
pub mod Queue
pub mod Failure
pub mod Claims
pub mod Stock
pub mod Closed
pub mod Readings
pub mod Invariant
pub mod Budget
pub mod Operations
pub mod Failing
pub mod Recovery
pub mod Rounds
pub mod Fencing
pub mod Delay
pub mod Held
pub mod Ending
pub mod Attempts
use lotus_report.Prelude.{ℕ, ◌+◌, ◌-◌, ◌*◌, ◌^◌, Bool, min, leb, if◌then◌else◌}
use lotus_report.Clock.{Time, seconds}
use lotus_report.Jobs.Tables.{WorkStatus}

pub record ReportJobWorkRetryPolicy : Type 0 where
  pub max_attempts : ℕ
  pub base_delay_seconds : ℕ
  pub max_delay_seconds : ℕ

-- `max(attempt_count - 1, 0)` is subtraction on ℕ.
unfoldable pub retry_delay_seconds : ReportJobWorkRetryPolicy → ℕ → ℕ
retry_delay_seconds policy attempt_count =
    min (policy.base_delay_seconds * 2 ^ (attempt_count - 1)) policy.max_delay_seconds

pub record ReportJobWorkFailureDecision : Type 0 where
  pub status : WorkStatus
  pub available_at : Time

unfoldable pub decide_report_job_work_failure :
    ℕ → Time → ReportJobWorkRetryPolicy → ReportJobWorkFailureDecision
unfolding retry_delay_seconds
decide_report_job_work_failure attempt_count failed_at policy = record {
  status =
      if leb policy.max_attempts attempt_count then WorkStatus.failed else WorkStatus.retry_pending;
  available_at = failed_at + seconds (retry_delay_seconds policy attempt_count);
}
