-- ===== src/Batch/Lifecycle.antt =====
-- src/app/report_batch_orchestrator/lifecycle_policy.py
use lotus_report.Prelude.{
  ℕ, Bool, true, false, ◌&&◌, ◌||◌, Option, none, some, List, [], ◌∷◌, ltb, if◌then◌else◌,
}
use lotus_report.Batch.Models.{BatchStatus, BatchItemStatus, item_is}

unfoldable pub batch_item_failure_outcome : Bool → ℕ → ℕ → BatchItemStatus × Bool
batch_item_failure_outcome retryable attempt_count max_attempts =
    let status =
      if retryable && ltb attempt_count max_attempts
      then BatchItemStatus.failed_retryable
      else BatchItemStatus.failed_terminal in
    (status, item_is status BatchItemStatus.failed_retryable)

-- `s in statuses`
unfoldable pub has_status : BatchItemStatus → List BatchItemStatus → Bool
has_status s [] = false
has_status s (t ∷ ts) = item_is t s || has_status s ts

-- `statuses <= set(allowed)`
unfoldable pub subset_of : List BatchItemStatus → List BatchItemStatus → Bool
unfolding has_status
subset_of [] allowed = true
subset_of (s ∷ ss) allowed = has_status s allowed && subset_of ss allowed

abbrev pub succeeded_or_cancelled : List BatchItemStatus
succeeded_or_cancelled = BatchItemStatus.succeeded ∷ BatchItemStatus.cancelled ∷ []

abbrev pub settled : List BatchItemStatus
settled =
    BatchItemStatus.succeeded ∷ BatchItemStatus.failed_terminal ∷ BatchItemStatus.cancelled ∷ []

abbrev pub succeeded_or_retryable : List BatchItemStatus
succeeded_or_retryable = BatchItemStatus.succeeded ∷ BatchItemStatus.failed_retryable ∷ []

-- A list stands for the set of its members.
unfoldable pub reconciled_batch_status : List BatchItemStatus → Option BatchStatus
unfolding has_status subset_of
reconciled_batch_status [] = none
reconciled_batch_status (s ∷ ss) =
    let statuses = s ∷ ss in
    if subset_of statuses succeeded_or_cancelled
    then some (
        if has_status BatchItemStatus.cancelled statuses
        then BatchStatus.cancelled
        else BatchStatus.completed)
    else if subset_of statuses settled
    then some BatchStatus.completed_with_failures
    else if has_status BatchItemStatus.failed_retryable statuses
        && subset_of statuses succeeded_or_retryable
    then some BatchStatus.failed
    else none
