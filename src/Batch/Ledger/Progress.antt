-- ===== src/Batch/Ledger/Progress.antt =====
-- Dispatch makes progress: where an item can be dispatched, `acquire_dispatch_items` leases one.
use lotus_report.Prelude.{
  ℕ, zero, suc, ◌≤◌, String, Bool, true, ◌≡◌, refl, inl, inr, List, [], ◌∷◌, arith, map, eq_refl,
  length, take, All, All-refl, All-take, All-imp, In,
}
use lotus_report.Sql.{
  ok, select, update, rowcount, order_by, connect, is_in, length-select, length-order_by,
  rowcount-update, All-select, All-order_by,
}
use lotus_report.Clock.{Time}
use lotus_report.Batch.Models.{ItemRow}
use lotus_report.Batch.Ledger.Tables.{Db}
use lotus_report.Batch.Ledger.Control.{
  dispatchable, with_ids, lease, lease_all, selected_ids, acquire_dispatch_items,
}

rowcount_positive :
    {A : Type 0} (p : A → Bool) (rs : List A) (x : A) → In x rs → p x ≡ true → 1 ≤ rowcount p rs
unfolding rowcount
rowcount_positive p [] x m h = absurd m
rowcount_positive p (r ∷ rs) x (inl e) h = rw (← e, h) (omega arith)
rowcount_positive p (r ∷ rs) x (inr m) h = omega (arith, rowcount_positive p rs x m h)

module _ (db : Db) (b w token : String) (n : ℕ) (now : Time) where
  lease_all-positive :
      (rows : List ItemRow)
      → 1 ≤ length rows
      → All (λ x. In x db.items) rows
      → 1 ≤ length (lease_all (map (λ r. r.batch_item_id) rows) b w token n now db).0
  unfolding is_in
  lease_all-positive [] h m = absurd (omega (arith, h))
  lease_all-positive (x ∷ xs) h m =
      let ids = map (λ (r : ItemRow). r.batch_item_id) (x ∷ xs) in
      let leased = update (with_ids ids) (lease w token n now) db.items in
      omega (
        arith,
        length-order_by (λ r. r.item_position) (select (with_ids ids) leased),
        length-select (with_ids ids) leased,
        rowcount-update (with_ids ids) (with_ids ids) (lease w token n now) db.items (λ r. refl),
        rowcount_positive (with_ids ids) db.items x m.0 (mine x xs),
      )
    where
      mine :
          (x : ItemRow) (xs : List ItemRow)
          → with_ids (map (λ (r : ItemRow). r.batch_item_id) (x ∷ xs)) x ≡ true
      mine x xs = rw (eq_refl x.batch_item_id) refl

  -- With an item that can be dispatched and a limit of at least one, a dispatch leases some item.
  pub acquire-progress :
      (limit : ℕ)
      → 1 ≤ limit
      → 1 ≤ rowcount (dispatchable db.batches b now) db.items
      → (rows : List ItemRow) × ((acquire_dispatch_items b w token n limit now db).0 ≡ ok rows)
        × (1 ≤ length rows)
  unfolding acquire_dispatch_items connect
  acquire-progress zero h some_item = absurd (omega (arith, h))
  acquire-progress (suc limit) h some_item =
      let ready = select (dispatchable db.batches b now) db.items in
      let sorted = order_by (λ (r : ItemRow). r.item_position) ready in
      (
        (lease_all (selected_ids db b now (suc limit)) b w token n now db).0,
        refl,
        lease_all-positive (take (suc limit) sorted)
            (positive limit sorted (
              omega (
                arith,
                some_item,
                length-order_by (λ (r : ItemRow). r.item_position) ready,
                length-select (dispatchable db.batches b now) db.items,
              )))
            (All-take (λ x. In x db.items) (suc limit) sorted
              (All-order_by (λ x. In x db.items) (λ r. r.item_position) ready
                (All-imp _ _ ready (λ x m. m.0)
                  (All-select (λ x. In x db.items) (dispatchable db.batches b now) db.items
                    (All-refl db.items))))),
      )
    where
      positive : (k : ℕ) (xs : List ItemRow) → 1 ≤ length xs → 1 ≤ length (take (suc k) xs)
      positive k [] h = h
      positive k (x ∷ xs) h = omega arith
