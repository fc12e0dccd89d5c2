-- ===== src/Batch/Ledger/Create/Keeps.antt =====
-- `create_batch` keeps the invariant of both tables: the rows that it inserts are well-formed, and
-- the constraints of the tables refuse a row whose key is taken.
use lotus_report.Prelude.{
  ap, sym, subst, ◌∙◌, ℕ, suc, String, true, ◌≡◌, refl, ◌⊎◌, inl, inr, Option-cases, Option, none,
  some, List, [], ◌∷◌, ◌++◌, arith, All-append, is_none, str_eq, eq_iff, Bool-cases,
}
use lotus_report.Sql.{Result, ok, err, fetchone, connect_keeps, bind-ok, IsUnique-insert}
use lotus_report.Batch.Models.{ItemRow, BatchRow, ReportBatchRecord}
use lotus_report.Text.{strip}
use lotus_report.Batch.Selector.{
  BatchCreateRequest, ReportCallerContext, MaterializedPortfolio, SelectorError,
  materialize_portfolios,
}
use lotus_report.Batch.Ledger.Tables.{Db, load_batch}
use lotus_report.Batch.Ledger.Invariant.{IsWellFormed}
use lotus_report.Batch.Ledger.Soundness.{IsSound}
use lotus_report.Batch.Ledger.Create.{
  Draws, batch_hash_payload, new_batch_row, new_item_row, batch_conflict, insert_batch,
  item_conflict, insert_item, insert_items, insert_new, create_in, create_materialized,
  create_batch,
}

pub load_batch-same :
    (b : String) (db db' : Db) (r : ReportBatchRecord) → load_batch b db ≡ ok (r, db') → db' ≡ db
unfolding load_batch
load_batch-same b db db' r h = ground arith

is_none-none {ℓ} : {A : Type ℓ} (o : Option A) → is_none o ≡ true → o ≡ none
is_none-none none h = refl
is_none-none (some a) h = cc

new_item_row-IsWellFormed :
    (request : BatchCreateRequest) (key : String) (draws : Draws) (n : ℕ)
    (m : MaterializedPortfolio)
    → IsWellFormed (new_item_row request key draws n m)
unfolding new_item_row
new_item_row-IsWellFormed request key draws n m = ground arith

pub insert_item-ok :
    (row : ItemRow) (db db' : Db) (u : Unit {0})
    → insert_item row db ≡ ok (u, db')
    → (fetchone (item_conflict row) db.items ≡ none)
      × (db' ≡ record db { items = db.items ++ row ∷ [] })
unfolding insert_item
insert_item-ok row db db' u h = ground (arith, is_none-none (fetchone (item_conflict row) db.items))

pub insert_batch-ok :
    (row : BatchRow) (db db' : Db) (u : Unit {0})
    → insert_batch row db ≡ ok (u, db')
    → (fetchone (batch_conflict row) db.batches ≡ none)
      × (db' ≡ record db { batches = db.batches ++ row ∷ [] })
unfolding insert_batch
insert_batch-ok row db db' u h =
    ground (arith, is_none-none (fetchone (batch_conflict row) db.batches))

insert_item-IsSound :
    (row : ItemRow) (db db' : Db) (u : Unit {0})
    → IsWellFormed row
    → insert_item row db ≡ ok (u, db')
    → IsSound db
    → IsSound db'
insert_item-IsSound row db db' u wf h s =
    let (free, made) = insert_item-ok row db db' u h in
    rw made (record {
      rows = All-append IsWellFormed db.items (row ∷ []) s.rows (wf, tt);
      item_ids =
          IsUnique-insert (λ r. r.batch_item_id) (item_conflict row) row db.items
            (λ r p. ground arith) free s.item_ids;
      batch_ids = s.batch_ids;
      batch_keys = s.batch_keys;
    })

insert_batch-IsSound :
    (row : BatchRow) (db db' : Db) (u : Unit {0})
    → insert_batch row db ≡ ok (u, db')
    → IsSound db
    → IsSound db'
insert_batch-IsSound row db db' u h s =
    let (free, made) = insert_batch-ok row db db' u h in
    rw made (record {
      rows = s.rows;
      item_ids = s.item_ids;
      batch_ids =
          IsUnique-insert (λ b. b.batch_id) (batch_conflict row) row db.batches
            (λ b p. ground arith) free s.batch_ids;
      batch_keys =
          IsUnique-insert (λ b. b.idempotency_key) (batch_conflict row) row db.batches
            (λ b p. ground arith) free s.batch_keys;
    })

insert_items-IsSound :
    (row : ℕ → MaterializedPortfolio → ItemRow) (n : ℕ) (ms : List MaterializedPortfolio)
    (db db' : Db) (u : Unit {0})
    → ((k : ℕ) (m : MaterializedPortfolio) → IsWellFormed (row k m))
    → insert_items row n ms db ≡ ok (u, db')
    → IsSound db
    → IsSound db'
unfolding insert_items
insert_items-IsSound row n [] db db' u wf h s = let e : db ≡ db' = ground arith in rw (← e) s
insert_items-IsSound row n (m ∷ ms) db db' u wf h s =
    let (v, db₁, first, rest) =
      bind-ok (insert_item (row n m)) (λ _. insert_items row (suc n) ms) db h in
    insert_items-IsSound row (suc n) ms db₁ db' u wf rest
      (insert_item-IsSound (row n m) db db₁ v (wf n m) first s)

insert_items-batches :
    (row : ℕ → MaterializedPortfolio → ItemRow) (n : ℕ) (ms : List MaterializedPortfolio)
    (db db' : Db) (u : Unit {0})
    → insert_items row n ms db ≡ ok (u, db')
    → db'.batches ≡ db.batches
unfolding insert_items
insert_items-batches row n [] db db' u h =
    let e : db ≡ db' = ground arith in ap (λ (d : Db). d.batches) (sym e)
insert_items-batches row n (m ∷ ms) db db' u h =
    let (v, db₁, first, rest) =
      bind-ok (insert_item (row n m)) (λ _. insert_items row (suc n) ms) db h in
    insert_items-batches row (suc n) ms db₁ db' u rest
    ∙ ap (λ (d : Db). d.batches) (insert_item-ok (row n m) db db₁ v first).1

-- An inserted batch stands at the end of the table, and is the one returned.
pub insert_new-ok :
    (request : BatchCreateRequest) (caller : ReportCallerContext) (key : String)
    (ms : List MaterializedPortfolio) (draws : Draws) (db db' : Db) (r : ReportBatchRecord)
    → insert_new request caller key ms draws db ≡ ok (r, db')
    → (db'.batches ≡ db.batches ++ new_batch_row request caller key ms draws ∷ [])
      × (load_batch draws.batch_id db' ≡ ok (r, db'))
unfolding insert_new
insert_new-ok request caller key ms draws db db' r h =
    let (u, db₁, first, more) =
      bind-ok (insert_batch (new_batch_row request caller key ms draws)) _ db h in
    let (v, db₂, second, last) =
      bind-ok (insert_items (new_item_row request key draws) 1 ms) _ db₁ more in
    let e = load_batch-same draws.batch_id db₂ db' r last in
    (
      ap (λ (d : Db). d.batches) e
          ∙ insert_items-batches (new_item_row request key draws) 1 ms db₁ db₂ v second
          ∙ ap (λ (d : Db). d.batches)
              (insert_batch-ok (new_batch_row request caller key ms draws) db db₁ u first).1,
      subst (λ d. load_batch draws.batch_id d ≡ ok (r, db')) (sym e) last,
    )

insert_new-IsSound :
    (request : BatchCreateRequest) (caller : ReportCallerContext) (key : String)
    (ms : List MaterializedPortfolio) (draws : Draws) (db db' : Db) (r : ReportBatchRecord)
    → insert_new request caller key ms draws db ≡ ok (r, db')
    → IsSound db
    → IsSound db'
unfolding insert_new
insert_new-IsSound request caller key ms draws db db' r h s =
    let (u, db₁, first, more) =
      bind-ok (insert_batch (new_batch_row request caller key ms draws)) _ db h in
    let (v, db₂, second, last) =
      bind-ok (insert_items (new_item_row request key draws) 1 ms) _ db₁ more in
    rw (load_batch-same draws.batch_id db₂ db' r last) (
      insert_items-IsSound (new_item_row request key draws) 1 ms db₁ db₂ v
        (new_item_row-IsWellFormed request key draws) second
        (insert_batch-IsSound (new_batch_row request caller key ms draws) db db₁ u first s))

-- A created batch is inserted, or it is the one that already has the key and the request hash.
pub create_in-ok :
    (request : BatchCreateRequest) (caller : ReportCallerContext) (key : String)
    (ms : List MaterializedPortfolio) (draws : Draws) (db : Db) (r : ReportBatchRecord) (db' : Db)
    → create_in request caller key ms draws db ≡ ok (r, db')
    → ((fetchone (λ b. str_eq b.idempotency_key key) db.batches ≡ none)
        × (insert_new request caller key ms draws db ≡ ok (r, db')))
      ⊎ ((old : BatchRow) × (fetchone (λ b. str_eq b.idempotency_key key) db.batches ≡ some old)
          × (old.request_hash ≡ draws.sha256 (batch_hash_payload request caller ms))
          × (load_batch old.batch_id db ≡ ok (r, db')))
unfolding create_in
create_in-ok request caller key ms draws db r db' h =
    elim (Option-cases (fetchone (λ b. str_eq b.idempotency_key key) db.batches)) [
      | inl n ↦ inl (n, inserted n)
      | inr (old, f) ↦ inr (old, f, (existing old f).0, (existing old f).1)
    ]
  where
    inserted :
        fetchone (λ b. str_eq b.idempotency_key key) db.batches ≡ none
        → insert_new request caller key ms draws db ≡ ok (r, db')
    inserted n = ground arith

    existing :
        (old : BatchRow)
        → fetchone (λ b. str_eq b.idempotency_key key) db.batches ≡ some old
        → (old.request_hash ≡ draws.sha256 (batch_hash_payload request caller ms))
          × (load_batch old.batch_id db ≡ ok (r, db'))
    existing old f =
        ground
          (arith, eq_iff old.request_hash (draws.sha256 (batch_hash_payload request caller ms)))

create_in-IsSound :
    (request : BatchCreateRequest) (caller : ReportCallerContext) (key : String)
    (ms : List MaterializedPortfolio) (draws : Draws) (db : Db) (r : ReportBatchRecord) (db' : Db)
    → IsSound db
    → create_in request caller key ms draws db ≡ ok (r, db')
    → IsSound db'
unfolding create_in
create_in-IsSound request caller key ms draws db r db' s h =
    elim (create_in-ok request caller key ms draws db r db' h) [
      | inl (_, made) ↦ insert_new-IsSound request caller key ms draws db db' r made s
      | inr (old, _, _, loaded) ↦ rw (load_batch-same old.batch_id db db' r loaded) s
    ]

create_materialized-IsSound :
    (request : BatchCreateRequest) (caller : ReportCallerContext) (key : String) (draws : Draws)
    (found : Result SelectorError (List MaterializedPortfolio)) (db : Db)
    → IsSound db
    → IsSound (create_materialized request caller key draws found db).1
unfolding create_materialized
create_materialized-IsSound request caller key draws (err e) db s = s
create_materialized-IsSound request caller key draws (ok ms) db s =
    connect_keeps IsSound (create_in request caller key ms draws) db
      (λ r db' h. create_in-IsSound request caller key ms draws db r db' s h) s

pub create-IsSound :
    (request : BatchCreateRequest) (caller : ReportCallerContext) (key : Option String)
    (draws : Draws) (db : Db)
    → IsSound db
    → IsSound (create_batch request caller key draws db).1
unfolding create_batch
create-IsSound request caller none draws db s = s
create-IsSound request caller (some key) draws db s = elim (Bool-cases (str_eq (strip key) "")) [
  | inl e ↦ rw e s
  | inr e ↦ rw e (
      create_materialized-IsSound request caller (strip key) draws
        (materialize_portfolios request caller) db s)
]
