-- ===== src/Batch/Ledger/Soundness.antt =====
-- The invariant of both tables, and that every command keeps it.
use lotus_report.Prelude.{inr, inl, Bool, true, ◌≡◌, List, All}
use lotus_report.Sql.{IsUnique, IsUnique-update}
use lotus_report.Batch.Models.{ItemRow, BatchRow}
use lotus_report.Batch.Ledger.Tables.{Db}
use lotus_report.Batch.Ledger.Effects.{Changes, Changes-All}
use lotus_report.Batch.Ledger.BatchEffects.{BatchEffect, same, wrote}
use lotus_report.Batch.Ledger.Invariant.{IsWellFormed}

pub record IsSound (db : Db) : Type 0 where
  pub rows : All IsWellFormed db.items
  pub item_ids : IsUnique (λ r. r.batch_item_id) db.items
  pub batch_ids : IsUnique (λ b. b.batch_id) db.batches
  pub batch_keys : IsUnique (λ b. b.idempotency_key) db.batches

module _ {before after : List BatchRow} where
  pub BatchEffect-IsUnique_id :
      BatchEffect before after
      → IsUnique (λ b. b.batch_id) before
      → IsUnique (λ b. b.batch_id) after
  BatchEffect-IsUnique_id (same e) u = rw e u
  BatchEffect-IsUnique_id (wrote p f s e) u =
      rw e (IsUnique-update (λ b. b.batch_id) p f before s.same_id u)

  pub BatchEffect-IsUnique_key :
      BatchEffect before after
      → IsUnique (λ b. b.idempotency_key) before
      → IsUnique (λ b. b.idempotency_key) after
  BatchEffect-IsUnique_key (same e) u = rw e u
  BatchEffect-IsUnique_key (wrote p f s e) u =
      rw e (IsUnique-update (λ b. b.idempotency_key) p f before s.same_key u)

pub Changes-IsUnique :
    (p : ItemRow → Bool) (f : ItemRow → ItemRow) (before after : List ItemRow)
    → Changes p f before after
    → ((r : ItemRow) → (f r).batch_item_id ≡ r.batch_item_id)
    → IsUnique (λ r. r.batch_item_id) before
    → IsUnique (λ r. r.batch_item_id) after
Changes-IsUnique p f before after (inl e) kept u = rw e u
Changes-IsUnique p f before after (inr e) kept u =
    rw e (IsUnique-update (λ r. r.batch_item_id) p f before kept u)

-- One UPDATE of the items by a function that keeps well-formed rows, and a status UPDATE of the
-- batches.
pub keep :
    (p : ItemRow → Bool) (f : ItemRow → ItemRow) (before after : Db)
    → Changes p f before.items after.items
    → BatchEffect before.batches after.batches
    → ((r : ItemRow) → (f r).batch_item_id ≡ r.batch_item_id)
    → ((r : ItemRow) → IsWellFormed r → p r ≡ true → IsWellFormed (f r))
    → IsSound before
    → IsSound after
keep p f before after items batches kept step h = record {
  rows = Changes-All IsWellFormed p f before.items after.items items step h.rows;
  item_ids = Changes-IsUnique p f before.items after.items items kept h.item_ids;
  batch_ids = BatchEffect-IsUnique_id batches h.batch_ids;
  batch_keys = BatchEffect-IsUnique_key batches h.batch_keys;
}
