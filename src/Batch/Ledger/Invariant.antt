-- ===== src/Batch/Ledger/Invariant.antt =====
-- What holds of every item row between two operations of the ledger.
use lotus_report.Prelude.{ℕ, ◌<◌, ◌≡◌, String, Bool, true, false, arith, is_none, is_some}
use lotus_report.Clock.{Time}
use lotus_report.Batch.Models.{BatchItemStatus, ItemRow}
use lotus_report.Batch.Lifecycle.{batch_item_failure_outcome}
use lotus_report.Batch.Ledger.Items.{beat, dispatch_to, succeed, Failure, fail, relink}
use lotus_report.Batch.Ledger.Control.{lease, rematerialize, cancel_item, recover_item}
use lotus_report.Batch.Ledger.Effects.{fence}

-- The item has not been handed to a report job, so none may be linked.
abbrev pub undispatched : BatchItemStatus → Bool
undispatched BatchItemStatus.materialized = true
undispatched BatchItemStatus.leased = true
undispatched BatchItemStatus.recovery_pending = true
undispatched BatchItemStatus.cancelled = true
undispatched _ = false

-- A report job is linked.
abbrev pub dispatched : BatchItemStatus → Bool
dispatched BatchItemStatus.waiting_on_report_job = true
dispatched BatchItemStatus.succeeded = true
dispatched _ = false

-- No worker owns the item.
abbrev pub released : BatchItemStatus → Bool
released BatchItemStatus.leased = false
released BatchItemStatus.waiting_on_report_job = false
released _ = true

-- The item can come back only by a new command.
abbrev pub settled : BatchItemStatus → Bool
settled BatchItemStatus.succeeded = true
settled BatchItemStatus.failed_terminal = true
settled BatchItemStatus.cancelled = true
settled BatchItemStatus.materialized = true
settled _ = false

abbrev pub has_failed : BatchItemStatus → Bool
has_failed BatchItemStatus.failed_retryable = true
has_failed BatchItemStatus.failed_terminal = true
has_failed _ = false

pub record IsWellFormed (r : ItemRow) : Type 0 where
  pub no_job : undispatched r.status ≡ true → is_none r.report_job_id ≡ true
  pub has_job : dispatched r.status ≡ true → is_some r.report_job_id ≡ true
  pub no_lease : released r.status ≡ true → is_none r.lease_token ≡ true
  pub no_expiry : released r.status ≡ true → is_none r.lease_expires_at ≡ true
  pub owned : r.status ≡ BatchItemStatus.leased → is_some r.lease_token ≡ true
  pub timed : r.status ≡ BatchItemStatus.leased → is_some r.lease_expires_at ≡ true
  pub final : settled r.status ≡ true → r.retry_eligible ≡ false
  pub retryable : r.status ≡ BatchItemStatus.failed_retryable → r.retry_eligible ≡ true
  pub attempted : has_failed r.status ≡ true → 0 < r.attempt_count

module _ (r : ItemRow) (h : IsWellFormed r) (now : Time) where
  pub beat-IsWellFormed :
      (i token : String) (n : ℕ) → fence i token r ≡ true → IsWellFormed (beat now n r)
  beat-IsWellFormed i token n p = ground arith

  pub dispatch_to-IsWellFormed :
      (i token job : String) → fence i token r ≡ true → IsWellFormed (dispatch_to job now r)
  dispatch_to-IsWellFormed i token job p = ground arith

  pub lease-IsWellFormed :
      (w token : String) (n : ℕ)
      → is_none r.report_job_id ≡ true
      → IsWellFormed (lease w token n now r)
  lease-IsWellFormed w token n p = ground arith

  pub succeed-IsWellFormed : is_some r.report_job_id ≡ true → IsWellFormed (succeed now r)
  succeed-IsWellFormed p = ground arith

  pub fail-IsWellFormed : (e : Failure) → IsWellFormed (fail e now r)
  unfolding batch_item_failure_outcome
  fail-IsWellFormed e = ground arith

  pub relink-IsWellFormed : (job : String) → IsWellFormed (relink job now r)
  relink-IsWellFormed job = ground arith

  pub rematerialize-IsWellFormed : is_none r.report_job_id ≡ true → IsWellFormed (rematerialize r)
  rematerialize-IsWellFormed p = ground arith

  pub cancel_item-IsWellFormed : is_none r.report_job_id ≡ true → IsWellFormed (cancel_item now r)
  cancel_item-IsWellFormed p = ground arith

  pub recover_item-IsWellFormed : is_none r.report_job_id ≡ true → IsWellFormed (recover_item r)
  recover_item-IsWellFormed p = ground arith
