-- ===== src/Jobs/Work/Delay.antt =====
-- The bounds of the retry policy's delays (src/app/reporting_jobs/work_queue.py).
use native.Mathlib.Nat.{two-pow-succ, mul-add}
use lotus_report.Prelude.{
  ℕ, zero, suc, ◌+◌, ◌-◌, ◌*◌, ◌^◌, ◌≤◌, ◌≡◌, ◌∙◌, ap, arith, leb, Bool-cases, inl, inr, refl, ◌⊎◌,
  ◌↔◌,
}
use lotus_report.Clock.{Time, seconds}
use lotus_report.Jobs.Tables.{WorkStatus}
use lotus_report.Jobs.Work.{
  ReportJobWorkRetryPolicy, retry_delay_seconds, decide_report_job_work_failure,
}

doubled : (b k : ℕ) → b * 2 ^ suc k ≡ b * 2 ^ k + b * 2 ^ k
doubled b k = ap (λ x. b * x) (two-pow-succ k) ∙ mul-add b (2 ^ k) (2 ^ k)

grown : (b k : ℕ) → b ≤ b * 2 ^ k
grown b zero = omega arith
grown b (suc k) = ground (arith, doubled b k, grown b k)

module _ (policy : ReportJobWorkRetryPolicy) (n : ℕ) where
  below : retry_delay_seconds policy n ≤ policy.max_delay_seconds
  unfolding retry_delay_seconds
  below = omega arith

  above :
      policy.base_delay_seconds ≤ policy.max_delay_seconds
      → policy.base_delay_seconds ≤ retry_delay_seconds policy n
  unfolding retry_delay_seconds
  above h = ground (arith, grown policy.base_delay_seconds (n - 1))

  longer : retry_delay_seconds policy n ≤ retry_delay_seconds policy (n + 1)
  unfolding retry_delay_seconds
  longer = elim (zero-cases n) [
    | inl z ↦ ground (arith, grown policy.base_delay_seconds 1)
    | inr (k, e) ↦ ground (arith, e, doubled policy.base_delay_seconds k)
  ]
    where
      zero-cases : (m : ℕ) → (m ≡ 0) ⊎ ((k : ℕ) × (m ≡ suc k))
      zero-cases zero = inl refl
      zero-cases (suc k) = inr (k, refl)

  terminal :
      (at : Time)
      → ((decide_report_job_work_failure n at policy).status ≡ WorkStatus.failed)
        ↔ (policy.max_attempts ≤ n)
  unfolding decide_report_job_work_failure
  terminal at = elim (Bool-cases (leb policy.max_attempts n)) [
    | inl e ↦ (λ f. ground arith, λ h. rw e refl)
    | inr e ↦ (λ f. absurd (ground arith), λ h. absurd (ground arith))
  ]

  -- Where the base delay is at most the greatest one: a failed attempt is the last exactly if the
  -- attempts have reached max_attempts; the item is due again no sooner than the base delay and no
  -- later than the greatest delay after the failure; and one more attempt never shortens the wait.
  pub decide-bounded :
      (at : Time)
      → policy.base_delay_seconds ≤ policy.max_delay_seconds
      → (((decide_report_job_work_failure n at policy).status ≡ WorkStatus.failed)
          ↔ (policy.max_attempts ≤ n))
        × (at + seconds policy.base_delay_seconds
            ≤ (decide_report_job_work_failure n at policy).available_at)
        × ((decide_report_job_work_failure n at policy).available_at
            ≤ at + seconds policy.max_delay_seconds)
        × ((decide_report_job_work_failure n at policy).available_at
            ≤ (decide_report_job_work_failure (n + 1) at policy).available_at)
  unfolding decide_report_job_work_failure
  decide-bounded at h =
      (terminal at, ground (arith, above h), ground (arith, below), ground (arith, longer))
