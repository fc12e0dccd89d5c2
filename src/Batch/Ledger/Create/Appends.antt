-- ===== src/Batch/Ledger/Create/Appends.antt =====
-- `create_batch` only appends rows: an item that was stored is found as it was.
use lotus_report.Prelude.{
  ℕ, suc, String, ◌≡◌, Option, none, some, List, [], ◌∷◌, arith, inl, inr, Bool-cases, str_eq,
}
use lotus_report.Sql.{Result, ok, err, fetchone, fetchone-append, connect_keeps, bind-ok}
use lotus_report.Text.{strip}
use lotus_report.Batch.Models.{ItemRow, ReportBatchRecord}
use lotus_report.Batch.Selector.{
  BatchCreateRequest, ReportCallerContext, MaterializedPortfolio, SelectorError,
  materialize_portfolios,
}
use lotus_report.Batch.Ledger.Tables.{Db, is_item}
use lotus_report.Batch.Ledger.Create.{
  Draws, insert_item, insert_items, insert_batch, insert_new, create_in, create_materialized,
  create_batch, new_batch_row, new_item_row,
}
use lotus_report.Batch.Ledger.Create.Keeps.{
  insert_item-ok, insert_batch-ok, create_in-ok, load_batch-same,
}

module _ (i : String) (r : ItemRow) where
  IsStored : Db → Type 0
  IsStored db = fetchone (is_item i) db.items ≡ some r

  insert_items-IsStored :
      (row : ℕ → MaterializedPortfolio → ItemRow) (n : ℕ) (ms : List MaterializedPortfolio)
      (db db' : Db) (u : Unit {0})
      → insert_items row n ms db ≡ ok (u, db')
      → IsStored db
      → IsStored db'
  unfolding insert_items IsStored
  insert_items-IsStored row n [] db db' u h k = let e : db ≡ db' = ground arith in rw (← e) k
  insert_items-IsStored row n (m ∷ ms) db db' u h k =
      let (v, db₁, first, rest) =
        bind-ok (insert_item (row n m)) (λ _. insert_items row (suc n) ms) db h in
      insert_items-IsStored row (suc n) ms db₁ db' u rest (
        rw (insert_item-ok (row n m) db db₁ v first).1
          (fetchone-append (is_item i) db.items (row n m ∷ []) r k))

  create_in-IsStored :
      (request : BatchCreateRequest) (caller : ReportCallerContext) (key : String)
      (ms : List MaterializedPortfolio) (draws : Draws) (db db' : Db) (b : ReportBatchRecord)
      → create_in request caller key ms draws db ≡ ok (b, db')
      → IsStored db
      → IsStored db'
  unfolding insert_new IsStored
  create_in-IsStored request caller key ms draws db db' b h k =
      elim (create_in-ok request caller key ms draws db b db' h) [
        | inl (_, made) ↦
            let (u, db₁, first, more) =
              bind-ok (insert_batch (new_batch_row request caller key ms draws)) _ db made in
            let (v, db₂, second, last) =
              bind-ok (insert_items (new_item_row request key draws) 1 ms) _ db₁ more in
            rw (load_batch-same draws.batch_id db₂ db' b last) (
              insert_items-IsStored (new_item_row request key draws) 1 ms db₁ db₂ v second (
                rw (insert_batch-ok (new_batch_row request caller key ms draws) db db₁ u first).1
                  k))
        | inr (old, _, _, loaded) ↦ rw (load_batch-same old.batch_id db db' b loaded) k
      ]

  pub create-IsStored :
      (request : BatchCreateRequest) (caller : ReportCallerContext) (key : Option String)
      (draws : Draws) (db : Db)
      → fetchone (is_item i) db.items ≡ some r
      → fetchone (is_item i) (create_batch request caller key draws db).1.items ≡ some r
  unfolding create_batch create_materialized IsStored
  create-IsStored request caller none draws db k = k
  create-IsStored request caller (some key) draws db k = elim (Bool-cases (str_eq (strip key) "")) [
    | inl e ↦ rw e k
    | inr e ↦ rw e (go (materialize_portfolios request caller))
  ]
    where
      go :
          (ms : Result SelectorError (List MaterializedPortfolio))
          → IsStored (create_materialized request caller (strip key) draws ms db).1
      go (err e) = k
      go (ok ms) =
          connect_keeps IsStored (create_in request caller (strip key) ms draws) db
            (λ b db' h. create_in-IsStored request caller (strip key) ms draws db db' b h k) k
