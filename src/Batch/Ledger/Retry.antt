-- ===== src/Batch/Ledger/Retry.antt =====
-- What `retry_failed_items` makes of a batch that has failed.
use lotus_report.Prelude.{
  ℕ, ◌≤◌, String, Bool, true, false, ◌||◌, ◌≡◌, refl, ◌∙◌, inl, inr, none, some, List, [], ◌∷◌,
  arith, Bool-cases,
}
use lotus_report.Sql.{ok, fetchone, select, update, rowcount, IsUnique}
use lotus_report.Clock.{Time}
use lotus_report.Batch.Models.{item_is, BatchStatus, BatchItemStatus, ItemRow, BatchRow}
use lotus_report.Batch.Lifecycle.{
  has_status, subset_of, settled, succeeded_or_cancelled, succeeded_or_retryable,
  reconciled_batch_status,
}
use lotus_report.Batch.Ledger.Tables.{Db, is_batch, in_batch, item_statuses, refresh_batch_status}
use lotus_report.Batch.Ledger.Control.{
  can_retry, rematerialize, retry_failed_items, acquire_dispatch_items,
}
use lotus_report.Batch.Ledger.BatchEffects.{control_committed}
use lotus_report.Batch.Ledger.Cancelled.{acquire_inactive}

item_is-eq : (a b : BatchItemStatus) → item_is a b ≡ true → a ≡ b
item_is-eq a b h = ground arith

not_subset :
    (s : BatchItemStatus) (ss allowed : List BatchItemStatus)
    → has_status s ss ≡ true
    → has_status s allowed ≡ false
    → subset_of ss allowed ≡ false
unfolding has_status subset_of
not_subset s [] allowed h n = cc
not_subset s (t ∷ ss) allowed h n = elim (Bool-cases (item_is t s)) [
  | inl e ↦ let own : t ≡ s = item_is-eq t s e in rw (own, n) refl
  | inr e ↦ ground (arith, not_subset s ss allowed (ground arith) n)
]

-- A batch with an item that is still to dispatch has no final status.
pub reconciled-materialized :
    (ss : List BatchItemStatus)
    → has_status BatchItemStatus.materialized ss ≡ true
    → reconciled_batch_status ss ≡ none
unfolding reconciled_batch_status has_status
reconciled-materialized [] h = refl
reconciled-materialized (s ∷ ss) h = ground (
  arith,
  not_subset BatchItemStatus.materialized (s ∷ ss) succeeded_or_cancelled h refl,
  not_subset BatchItemStatus.materialized (s ∷ ss) settled h refl,
  not_subset BatchItemStatus.materialized (s ∷ ss) succeeded_or_retryable h refl,
)

or_true : (x : Bool) → (x || true) ≡ true
or_true x = ground arith

retried-materialized :
    (b : String) (m : ℕ) (now : Time) (items : List ItemRow)
    → 1 ≤ rowcount (can_retry b m now) items
    → has_status BatchItemStatus.materialized
        (item_statuses b (update (can_retry b m now) rematerialize items))
      ≡ true
unfolding rowcount update select has_status
retried-materialized b m now [] h = absurd (omega (arith, h))
retried-materialized b m now (r ∷ rs) h = elim (Bool-cases (can_retry b m now r)) [
  | inl e ↦ let own : in_batch b r ≡ true = ground arith in rw (e, own) refl
  | inr e ↦
      let rest = retried-materialized b m now rs (ground arith) in
      rw e (elim (Bool-cases (in_batch b r)) [
        | inl o ↦ rw (o, rest) (or_true (item_is r.status BatchItemStatus.materialized))
        | inr o ↦ rw o rest
      ])
]

refresh-same :
    (b : String) (now : Time) (db : Db)
    → reconciled_batch_status (item_statuses b db.items) ≡ none
    → refresh_batch_status b now db ≡ db
unfolding refresh_batch_status
refresh-same b now db h = rw h refl

-- When `retry_failed_items` resets at least one item of a batch that is `failed`, the batch stays
-- `failed`: whatever worker dispatches it, and at whatever time, gets no item, and nothing changes.
pub retry-stranded :
    (db : Db) (b : String) (m : ℕ) (now : Time) (row : BatchRow)
    → IsUnique (λ (r : BatchRow). r.batch_id) db.batches
    → fetchone (is_batch b) db.batches ≡ some row
    → row.status ≡ BatchStatus.failed
    → 1 ≤ rowcount (can_retry b m now) db.items
    → let after = (retry_failed_items b m now db).1 in
      (fetchone (is_batch b) after.batches ≡ some row)
      × ((w token : String) (n limit : ℕ) (later : Time)
          → acquire_dispatch_items b w token n limit later after ≡ (ok [], after))
unfolding retry_failed_items
retry-stranded db b m now row u found stopped some_item =
    elim (control_committed b (λ d. rowcount (can_retry b m now) d.items)
      (λ d.
        refresh_batch_status b now
          (record d { items = update (can_retry b m now) rematerialize d.items }))
      db) [
        | inl e ↦ rw e (
          found,
          λ w token n limit later.
              acquire_inactive db b row w token n limit later u found (rw stopped refl),
        )
        | inr e ↦
            let reset = record db { items = update (can_retry b m now) rematerialize db.items } in
            let q : refresh_batch_status b now reset ≡ reset = refresh-same b now reset (
              reconciled-materialized (item_statuses b reset.items)
                (retried-materialized b m now db.items some_item)) in
            rw (e ∙ q) (
              found,
              λ w token n limit later.
                  acquire_inactive reset b row w token n limit later u found (rw stopped refl),
            )
      ]
