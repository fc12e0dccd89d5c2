-- ===== src/Batch/Ledger/Cancelled.antt =====
-- A cancelled batch stays cancelled, and nothing of it is dispatched any more.
use lotus_report.Prelude.{
  ℕ, zero, suc, String, false, ◌≡◌, refl, ap, inl, inr, some, List, [], arith, Bool-cases, str_eq,
  eq_iff,
}
use lotus_report.Sql.{ok, fetchone, order_by, connect, IsUnique, fetchone_of_unique, select-none}
use lotus_report.Clock.{Time}
use lotus_report.Batch.Models.{BatchStatus, ItemRow, BatchRow}
use lotus_report.Batch.Ledger.Tables.{Db, is_batch, in_batch, is_active}
use lotus_report.Batch.Ledger.Commands.{Command, run}
use lotus_report.Batch.Ledger.Control.{dispatchable, batch_active, acquire_dispatch_items}
use lotus_report.Batch.Ledger.Soundness.{IsSound}
use lotus_report.Batch.Ledger.Preservation.{run-IsSound}
use lotus_report.Batch.Ledger.Identity.{run-IsFound}

module _ (db : Db) (b : String) (row : BatchRow) where
  inactive :
      IsUnique (λ (r : BatchRow). r.batch_id) db.batches
      → fetchone (is_batch b) db.batches ≡ some row
      → is_active row.status ≡ false
      → batch_active db.batches b ≡ false
  inactive u found idle =
      rw
        (fetchone_of_unique (λ (r : BatchRow). r.batch_id) b (λ r. is_active r.status) db.batches
          row u found idle)
        refl

  not_dispatchable :
      (now : Time) (r : ItemRow)
      → batch_active db.batches b ≡ false
      → dispatchable db.batches b now r ≡ false
  not_dispatchable now r idle = elim (Bool-cases (in_batch b r)) [
    | inl e ↦
        let own = (eq_iff r.batch_id b).0 e in
        let f : batch_active db.batches r.batch_id ≡ false = rw own idle in ground (arith, f)
    | inr e ↦ ground (arith, e)
  ]

  -- A batch that is neither materialized nor running has no item to dispatch.
  pub acquire_inactive :
      (w token : String) (n limit : ℕ) (now : Time)
      → IsUnique (λ (r : BatchRow). r.batch_id) db.batches
      → fetchone (is_batch b) db.batches ≡ some row
      → is_active row.status ≡ false
      → acquire_dispatch_items b w token n limit now db ≡ (ok [], db)
  unfolding acquire_dispatch_items connect order_by
  acquire_inactive w token n zero now u found idle = refl
  acquire_inactive w token n (suc limit) now u found idle =
      rw
        (select-none (dispatchable db.batches b now) db.items
          (λ r. not_dispatchable now r (inactive u found idle)))
        refl

-- Once a batch is cancelled, then after any sequence of commands it is still stored under its
-- tenant, still cancelled, and a dispatch of it returns no item and changes nothing.
pub run-cancelled :
    (cs : List Command) (db : Db) (b : String) (row : BatchRow)
    → IsSound db
    → fetchone (is_batch b) db.batches ≡ some row
    → row.status ≡ BatchStatus.cancelled
    → (next : BatchRow) × (fetchone (is_batch b) (run cs db).batches ≡ some next)
      × (next.status ≡ BatchStatus.cancelled)
      × (next.tenant_id ≡ row.tenant_id)
      × ((w token : String) (n limit : ℕ) (now : Time)
          → acquire_dispatch_items b w token n limit now (run cs db) ≡ (ok [], run cs db))
run-cancelled cs db b row s found stopped =
    let k = run-IsFound (is_batch b) (λ x y q _. ap (λ i. str_eq i b) q) cs db row found in
    let c = k.kept.cancelled stopped in
    (
      k.next,
      k.found,
      c,
      k.kept.tenant,
      λ w token n limit now.
          acquire_inactive (run cs db) b k.next w token n limit now (run-IsSound cs db s).batch_ids
            k.found (rw c refl),
    )
