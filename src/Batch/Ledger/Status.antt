-- ===== src/Batch/Ledger/Status.antt =====
-- The status that a batch takes from its items, as a function of how many items have each status.
use lotus_report.Prelude.{
  ℕ, ◌+◌, ◌≤◌, ◌&&◌, ◌≡◌, refl, Option, none, some, List, [], ◌∷◌, arith, if◌then◌else◌, ◌==◌,
  length, ltb,
}
use lotus_report.Sql.{rowcount}
use lotus_report.Batch.Models.{BatchStatus, BatchItemStatus, item_is}
use lotus_report.Batch.Lifecycle.{
  has_status, subset_of, succeeded_or_cancelled, settled, succeeded_or_retryable,
  reconciled_batch_status,
}

-- How many items have a status.
abbrev pub tally : BatchItemStatus → List BatchItemStatus → ℕ
tally s ss = rowcount (λ t. item_is t s) ss

-- A batch is completed when all its items succeeded, cancelled when all succeeded or were cancelled,
-- completed with failures when all are settled, failed when the rest of the succeeded can be
-- retried, and otherwise without a final status.
unfoldable pub status_of_tallies : ℕ → ℕ → ℕ → ℕ → ℕ → Option BatchStatus
status_of_tallies total succeeded cancelled terminal retryable =
    if total == 0
    then none
    else if succeeded == total
    then some BatchStatus.completed
    else if succeeded + cancelled == total
    then some BatchStatus.cancelled
    else if succeeded + cancelled + terminal == total
    then some BatchStatus.completed_with_failures
    else if ltb 0 retryable && (succeeded + retryable == total)
    then some BatchStatus.failed
    else none

has_status-tally :
    (s : BatchItemStatus) (ss : List BatchItemStatus) → has_status s ss ≡ ltb 0 (tally s ss)
unfolding has_status rowcount
has_status-tally s [] = refl
has_status-tally s (t ∷ ss) = ground (arith, has_status-tally s ss)

tallies_le :
    (ss : List BatchItemStatus)
    → tally BatchItemStatus.succeeded ss
        + tally BatchItemStatus.cancelled ss
        + tally BatchItemStatus.failed_terminal ss
        + tally BatchItemStatus.failed_retryable ss
      ≤ length ss
unfolding rowcount
tallies_le [] = omega arith
tallies_le (BatchItemStatus.materialized ∷ ss) = omega (arith, tallies_le ss)
tallies_le (BatchItemStatus.leased ∷ ss) = omega (arith, tallies_le ss)
tallies_le (BatchItemStatus.waiting_on_report_job ∷ ss) = omega (arith, tallies_le ss)
tallies_le (BatchItemStatus.succeeded ∷ ss) = omega (arith, tallies_le ss)
tallies_le (BatchItemStatus.failed_retryable ∷ ss) = omega (arith, tallies_le ss)
tallies_le (BatchItemStatus.failed_terminal ∷ ss) = omega (arith, tallies_le ss)
tallies_le (BatchItemStatus.cancelled ∷ ss) = omega (arith, tallies_le ss)
tallies_le (BatchItemStatus.recovery_pending ∷ ss) = omega (arith, tallies_le ss)

subset-succeeded_or_cancelled :
    (ss : List BatchItemStatus)
    → subset_of ss succeeded_or_cancelled
      ≡ (tally BatchItemStatus.succeeded ss + tally BatchItemStatus.cancelled ss == length ss)
unfolding subset_of has_status rowcount
subset-succeeded_or_cancelled [] = refl
subset-succeeded_or_cancelled (s ∷ ss) =
    ground (arith, subset-succeeded_or_cancelled ss, tallies_le ss)

subset-settled :
    (ss : List BatchItemStatus)
    → subset_of ss settled ≡ (
        tally BatchItemStatus.succeeded ss
          + tally BatchItemStatus.cancelled ss
          + tally BatchItemStatus.failed_terminal ss
        == length ss)
unfolding subset_of has_status rowcount
subset-settled [] = refl
subset-settled (s ∷ ss) = ground (arith, subset-settled ss, tallies_le ss)

subset-succeeded_or_retryable :
    (ss : List BatchItemStatus)
    → subset_of ss succeeded_or_retryable ≡ (
        tally BatchItemStatus.succeeded ss + tally BatchItemStatus.failed_retryable ss == length ss)
unfolding subset_of has_status rowcount
subset-succeeded_or_retryable [] = refl
subset-succeeded_or_retryable (s ∷ ss) =
    ground (arith, subset-succeeded_or_retryable ss, tallies_le ss)

-- The status that `reconciled_batch_status` takes from the set of the items' statuses is the one
-- that the numbers of succeeded, cancelled, terminally failed and retryable items give, so the
-- order of the items does not matter.
pub reconciled-tallies :
    (ss : List BatchItemStatus)
    → reconciled_batch_status ss
      ≡ status_of_tallies
          (length ss)
          (tally BatchItemStatus.succeeded ss)
          (tally BatchItemStatus.cancelled ss)
          (tally BatchItemStatus.failed_terminal ss)
          (tally BatchItemStatus.failed_retryable ss)
unfolding reconciled_batch_status status_of_tallies
reconciled-tallies [] = refl
reconciled-tallies (s ∷ ss) = ground (
  arith,
  subset-succeeded_or_cancelled (s ∷ ss),
  subset-settled (s ∷ ss),
  subset-succeeded_or_retryable (s ∷ ss),
  has_status-tally BatchItemStatus.cancelled (s ∷ ss),
  has_status-tally BatchItemStatus.failed_retryable (s ∷ ss),
  tallies_le (s ∷ ss),
)
