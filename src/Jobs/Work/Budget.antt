-- ===== src/Jobs/Work/Budget.antt =====
-- The attempt budget of a work item, and the fields that agree with its status.
use lotus_report.Prelude.{refl, ℕ, ◌≤◌, ◌<◌, ◌≡◌, String, true, false, arith, is_none, is_some}
use lotus_report.Clock.{Time}
use lotus_report.Jobs.Tables.{WorkStatus, work_is, WorkItemRow}
use lotus_report.Jobs.Work.{ReportJobWorkRetryPolicy, decide_report_job_work_failure}
use lotus_report.Jobs.Work.Queue.{defer, leased_under}
use lotus_report.Jobs.Work.Failure.{retry_or_fail}
use lotus_report.Jobs.Work.Claims.{is_queued, take_lease}
use lotus_report.Jobs.Work.Stock.{AllowsOver}
use lotus_report.Jobs.Work.Closed.{IsClosed}

-- An item waits with attempts left, is leased within them, or is over; it is leased exactly while it
-- has a lease token.
pub record IsWithin (limit : ℕ) (w : WorkItemRow) : Type 0 where
  pub queued : is_queued w ≡ true → w.attempt_count < limit
  pub leased : work_is w.status WorkStatus.leased ≡ true → w.attempt_count ≤ limit
  pub charged : work_is w.status WorkStatus.leased ≡ true → 1 ≤ w.attempt_count
  pub held : work_is w.status WorkStatus.leased ≡ true → is_some w.lease_token ≡ true
  pub free : work_is w.status WorkStatus.leased ≡ false → is_none w.lease_token ≡ true

IsWithin-AllowsOver : (limit : ℕ) → AllowsOver (IsWithin limit)
IsWithin-AllowsOver limit w over free = ground arith

module _ (limit : ℕ) (w : WorkItemRow) (h : IsWithin limit w) (now : Time) where
  defer-IsWithin :
      (token reason : String) (due : Time)
      → leased_under token w ≡ true
      → IsWithin limit (defer reason due now w)
  defer-IsWithin token reason due p = ground arith

  take_lease-IsWithin :
      (worker token : String) (n : ℕ)
      → is_queued w ≡ true
      → IsWithin limit (take_lease worker token n now w)
  take_lease-IsWithin worker token n p = ground arith

  retry_or_fail-IsWithin :
      (policy : ReportJobWorkRetryPolicy) (failed_at due : Time) (category summary : String)
      → policy.max_attempts ≡ limit
      → IsWithin limit (
          retry_or_fail
            (decide_report_job_work_failure w.attempt_count failed_at policy)
            due
            category
            summary
            now
            w)
  unfolding decide_report_job_work_failure
  retry_or_fail-IsWithin policy failed_at due category summary same = ground arith

pub IsWithin-IsClosed :
    (policy : ReportJobWorkRetryPolicy) → IsClosed policy (IsWithin policy.max_attempts)
IsWithin-IsClosed policy = record {
  over = IsWithin-AllowsOver policy.max_attempts;
  defers =
      λ w now due token reason h p. defer-IsWithin policy.max_attempts w h now token reason due p;
  takes =
      λ w now worker token n h p. take_lease-IsWithin policy.max_attempts w h now worker token n p;
  retries = λ w now failed_at due category summary h p.
      retry_or_fail-IsWithin policy.max_attempts w h now policy failed_at due category summary refl;
}
