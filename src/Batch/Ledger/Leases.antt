-- ===== src/Batch/Ledger/Leases.antt =====
-- What `acquire_dispatch_items` leases, and that no item is leased twice at once.
use lotus_report.Prelude.{
  coalesce, In-All, ℕ, zero, suc, ◌+◌, ◌≤◌, String, ◌≡◌, ◌≢◌, refl, sym, ◌∙◌, ap, subst, true,
  false, some, List, [], ◌∷◌, arith, All, All-imp, All-refl, In, length, length-map, length-take-le,
  take,
}
use lotus_report.Sql.{
  ok, select, update, order_by, connect, All-select, All-select_update, All-order_by, All-of_In,
  rowcount-update, rowcount-is_in, length-select, length-order_by, found_of_In,
}
use lotus_report.Clock.{Time, seconds, second, before-lt}
use lotus_report.Batch.Models.{BatchItemStatus, ItemRow}
use lotus_report.Batch.Ledger.Tables.{Db}
use lotus_report.Batch.Ledger.Control.{
  dispatchable, lease, selected_ids, with_ids, lease_all, acquire_dispatch_items,
}
use lotus_report.Batch.Ledger.Soundness.{IsSound}
use lotus_report.Batch.Ledger.Preservation.{selected-dispatchable, acquire-IsSound}

-- `x` is a stored row of the batch that was dispatchable, leased to the worker under the token, from now
-- on for the given seconds, and started where it was not; nothing else of the row has changed.
pub record IsLease (db : Db) (b w token : String) (n : ℕ) (now : Time) (x : ItemRow) : Type 0 where
  pub old : ItemRow
  pub stored : In old db.items
  pub ready : dispatchable db.batches b now old ≡ true
  pub written : x ≡ record old {
    status = BatchItemStatus.leased;
    lease_owner = some w;
    lease_token = some token;
    lease_acquired_at = some now;
    lease_expires_at = some (now + seconds n);
    last_heartbeat_at = some now;
    started_at = coalesce old.started_at (some now);
  }

module _ (db : Db) (s : IsSound db) (b w token : String) (n : ℕ) (now : Time) where
  lease_all-IsLease :
      (ids : List String)
      → ((r : ItemRow)
          → In r db.items
          → with_ids ids r ≡ true
          → dispatchable db.batches b now r ≡ true)
      → All (IsLease db b w token n now) (lease_all ids b w token n now db).0
  lease_all-IsLease [] ready = tt
  lease_all-IsLease (i ∷ is) ready =
      All-order_by (IsLease db b w token n now) (λ r. r.item_position) _
        (All-select_update (λ r. In r db.items) (IsLease db b w token n now) (with_ids (i ∷ is))
          (lease w token n now) db.items (λ r. refl)
          (λ r m p. record { old = r; stored = m; ready = ready r m p; written = refl })
          (All-refl db.items))

  lease_all-length : (ids : List String) → length (lease_all ids b w token n now db).0 ≤ length ids
  lease_all-length [] = omega arith
  lease_all-length (i ∷ is) =
      let leased = update (with_ids (i ∷ is)) (lease w token n now) db.items in
      omega (
        arith,
        length-order_by (λ r. r.item_position) (select (with_ids (i ∷ is)) leased),
        length-select (with_ids (i ∷ is)) leased,
        rowcount-update (with_ids (i ∷ is)) (with_ids (i ∷ is)) (lease w token n now) db.items
            (λ r. refl),
        rowcount-is_in (λ r. r.batch_item_id) (i ∷ is) db.items s.item_ids,
      )

  length-selected_ids : (limit : ℕ) → length (selected_ids db b now limit) ≤ limit
  length-selected_ids limit =
      let rows =
        order_by (λ r. r.item_position) (select (dispatchable db.batches b now) db.items) in
      omega (arith, length-map (λ r. r.batch_item_id) (take limit rows), length-take-le limit rows)

  leases :
      (limit : ℕ) (rows : List ItemRow)
      → (acquire_dispatch_items b w token n limit now db).0 ≡ ok rows
      → (length rows ≤ limit) × All (IsLease db b w token n now) rows
  unfolding acquire_dispatch_items connect
  leases zero rows h = let e : [] ≡ rows = ground arith in rw (← e) (omega arith, tt)
  leases (suc limit) rows h =
      let ids = selected_ids db b now (suc limit) in
      let e : (lease_all ids b w token n now db).0 ≡ rows = ground arith in
      rw (← e) (
        omega (arith, lease_all-length ids, length-selected_ids (suc limit)),
        lease_all-IsLease ids (selected-dispatchable db b now (suc limit) s.item_ids),
      )

  lease_all-stored :
      (ids : List String)
      → All
          (λ x. In x (lease_all ids b w token n now db).1.items)
          (lease_all ids b w token n now db).0
  lease_all-stored [] = tt
  lease_all-stored (i ∷ is) =
      let items = update (with_ids (i ∷ is)) (lease w token n now) db.items in
      All-order_by (λ x. In x items) (λ r. r.item_position) _
        (All-imp _ _ (select (with_ids (i ∷ is)) items) (λ x m. m.0)
          (All-select (λ x. In x items) (with_ids (i ∷ is)) items (All-refl items)))

  -- The rows that dispatch returns are rows of the table that it leaves.
  acquire-stored :
      (limit : ℕ) (rows : List ItemRow)
      → (acquire_dispatch_items b w token n limit now db).0 ≡ ok rows
      → All (λ x. In x (acquire_dispatch_items b w token n limit now db).1.items) rows
  unfolding acquire_dispatch_items connect
  acquire-stored zero rows h = let e : [] ≡ rows = ground arith in rw (← e) tt
  acquire-stored (suc limit) rows h =
      let ids = selected_ids db b now (suc limit) in
      let e : (lease_all ids b w token n now db).0 ≡ rows = ground arith in
      subst (λ l. All (λ x. In x (lease_all ids b w token n now db).1.items) l) e
        (lease_all-stored ids)

  pub acquire_leases :
      (limit : ℕ) (rows : List ItemRow)
      → (acquire_dispatch_items b w token n limit now db).0 ≡ ok rows
      → (length rows ≤ limit)
        × All (IsLease db b w token n now) rows
        × All (λ x. In x (acquire_dispatch_items b w token n limit now db).1.items) rows
  acquire_leases limit rows h =
      let (most, each) = leases limit rows h in (most, each, acquire-stored limit rows h)

-- A row under a lease that has at least a second to run is not dispatchable.
held :
    (db : Db) (b : String) (now : Time) (r : ItemRow) (expiry : Time)
    → r.status ≡ BatchItemStatus.leased
    → r.lease_expires_at ≡ some expiry
    → now + second ≤ expiry
    → dispatchable db.batches b now r ≡ false
held db b now r expiry p q h = rw q (ground (arith, p, before-lt expiry now))

-- A row of one dispatch that a later dispatch returns again was dispatchable at both.
clash :
    (db db1 : Db) (b w token b' w' token' : String) (n n' : ℕ) (now now' : Time) (x y : ItemRow)
    → IsSound db1
    → IsLease db b w token n now x
    → In x db1.items
    → IsLease db1 b' w' token' n' now' y
    → now' + second ≤ now + seconds n
    → x.batch_item_id ≢ y.batch_item_id
clash db db1 b w token b' w' token' n n' now now' x y s l m l' early same =
    let id : l'.old.batch_item_id ≡ x.batch_item_id =
      sym (same ∙ ap (λ (r : ItemRow). r.batch_item_id) l'.written) in
    let found = found_of_In (λ (r : ItemRow). r.batch_item_id) x.batch_item_id db1.items in
    let one : some l'.old ≡ some x =
      sym (found l'.old s.item_ids l'.stored id) ∙ found x s.item_ids m refl in
    let free =
      held db1 b' now' x (now + seconds n) (ap (λ (r : ItemRow). r.status) l.written)
        (ap (λ (r : ItemRow). r.lease_expires_at) l.written) early in
    let old : l'.old ≡ x = ground arith in
    let ready : dispatchable db1.batches b' now' x ≡ true =
      subst (λ r. dispatchable db1.batches b' now' r ≡ true) old l'.ready in
    cc

-- Until one second before their leases end, the items of one dispatch are not dispatched again, by
-- any worker, under any token: two such dispatches return different items.
pub acquire_exclusive :
    (db : Db) (b w token : String) (n limit : ℕ) (now : Time) (rows : List ItemRow)
    (b' w' token' : String) (n' limit' : ℕ) (now' : Time) (rows' : List ItemRow)
    → IsSound db
    → (acquire_dispatch_items b w token n limit now db).0 ≡ ok rows
    → (acquire_dispatch_items b' w' token' n' limit' now'
        (acquire_dispatch_items b w token n limit now db).1).0
      ≡ ok rows'
    → now' + second ≤ now + seconds n
    → All (λ x. All (λ y. x.batch_item_id ≢ y.batch_item_id) rows') rows
acquire_exclusive db b w token n limit now rows b' w' token' n' limit' now' rows' s h h' early =
    let db1 = (acquire_dispatch_items b w token n limit now db).1 in
    let s1 = acquire-IsSound db s b w token n limit now in
    All-of_In rows (λ x m. All-of_In rows' (λ y m'.
      clash db db1 b w token b' w' token' n n' now now' x y s1
        (In-All _ rows (acquire_leases db s b w token n now limit rows h).1 x m)
        (In-All _ rows (acquire_leases db s b w token n now limit rows h).2 x m)
        (In-All _ rows' (acquire_leases db1 s1 b' w' token' n' now' limit' rows' h').1 y m') early))
