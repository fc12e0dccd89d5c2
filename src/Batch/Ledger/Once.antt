-- ===== src/Batch/Ledger/Once.antt =====
-- One batch for each idempotency key, and no dispatch after a cancellation, over any run.
use lotus_report.Prelude.{
  Option-cases, String, Bool, ◌≡◌, refl, sym, ◌∙◌, ap, inl, inr, Option, none, some, List, [], ◌∷◌,
  arith, Bool-cases, str_eq, eq_iff, eq_refl,
}
use lotus_report.Sql.{
  connect-returned, returned-connect, Result, ok, err, fetchone, select, order_by, connect,
  fetchone-true, fetchone-append_none, fetchone-weaker,
}
use lotus_report.Batch.Models.{BatchRow, ReportBatchRecord}
use lotus_report.Batch.Selector.{
  BatchCreateRequest, ReportCallerContext, MaterializedPortfolio, SelectorError,
  materialize_portfolios,
}
use lotus_report.Text.{strip}
use lotus_report.Batch.Ledger.Tables.{in_batch, Db, is_batch, load_batch}
use lotus_report.Batch.Ledger.Create.{
  Draws, batch_hash_payload, new_batch_row, create_in, create_materialized, create_batch,
}
use lotus_report.Batch.Ledger.Create.Keeps.{create_in-ok, insert_new-ok, load_batch-same}
use lotus_report.Batch.Ledger.Commands.{Command, run}
use lotus_report.Batch.Ledger.Identity.{run-IsFound}

abbrev has_key : String → BatchRow → Bool
has_key key b = str_eq b.idempotency_key key

load_batch-id :
    (id : String) (db db' : Db) (r : ReportBatchRecord)
    → load_batch id db ≡ ok (r, db')
    → r.batch_id ≡ id
unfolding load_batch
load_batch-id id db db' r h = elim (Option-cases (fetchone (is_batch id) db.batches)) [
  | inl n ↦ absurd (ground arith)
  | inr (row, f) ↦
      let e : r.row ≡ row = ground arith in
      ap (λ (b : BatchRow). b.batch_id) e
      ∙ (eq_iff row.batch_id id).0 (fetchone-true (is_batch id) db.batches row f)
]

loads :
    (id : String) (db : Db) (row : BatchRow)
    → fetchone (is_batch id) db.batches ≡ some row
    → (r : ReportBatchRecord) × (load_batch id db ≡ ok (r, db))
unfolding load_batch
loads id db row h = (
  record { row = row; items = order_by (λ r. r.item_position) (select (in_batch id) db.items) },
  ground (arith, h),
)

mine :
    (key : String) (row : BatchRow)
    → row.idempotency_key ≡ key
    → fetchone (has_key key) (row ∷ []) ≡ some row
unfolding fetchone
mine key row e = rw (e, eq_refl key) refl

-- After a batch is created, the table has a row with its key, the request's hash, and its id.
created_row :
    (request : BatchCreateRequest) (caller : ReportCallerContext) (key : String)
    (ms : List MaterializedPortfolio) (draws : Draws) (db db' : Db) (r : ReportBatchRecord)
    → create_in request caller key ms draws db ≡ ok (r, db')
    → (old : BatchRow) × (fetchone (has_key key) db'.batches ≡ some old)
      × (old.request_hash ≡ draws.sha256 (batch_hash_payload request caller ms))
      × (old.batch_id ≡ r.batch_id)
unfolding new_batch_row
created_row request caller key ms draws db db' r h =
    elim (create_in-ok request caller key ms draws db r db' h) [
      | inl (free, made) ↦
          let (b, l) = insert_new-ok request caller key ms draws db db' r made in
          (
            new_batch_row request caller key ms draws,
            ap (λ bs. fetchone (has_key key) bs) b
                ∙ fetchone-append_none (has_key key) db.batches _ free
                ∙ mine key (new_batch_row request caller key ms draws) refl,
            refl,
            sym (load_batch-id draws.batch_id db' db' r l),
          )
      | inr (old, f, e, loaded) ↦ (
        old,
        rw (load_batch-same old.batch_id db db' r loaded) f,
        e,
        sym (load_batch-id old.batch_id db db' r loaded),
      )
    ]

-- A call with the key of a stored batch and the same request hash returns that batch.
create_in-again :
    (request : BatchCreateRequest) (caller : ReportCallerContext) (key : String)
    (ms : List MaterializedPortfolio) (draws : Draws) (db : Db) (old : BatchRow)
    → fetchone (has_key key) db.batches ≡ some old
    → old.request_hash ≡ draws.sha256 (batch_hash_payload request caller ms)
    → (r : ReportBatchRecord) × (create_in request caller key ms draws db ≡ ok (r, db))
      × (r.batch_id ≡ old.batch_id)
unfolding create_in
create_in-again request caller key ms draws db old f e =
    let (s, g) =
      fetchone-weaker (has_key key) (is_batch old.batch_id) db.batches old f
        (eq_refl old.batch_id) in
    let (r, l) = loads old.batch_id db s g in
    (
      r,
      ground (arith, f, e, l, eq_refl (draws.sha256 (batch_hash_payload request caller ms))),
      load_batch-id old.batch_id db db r l,
    )

materialized-once :
    (request : BatchCreateRequest) (caller : ReportCallerContext) (key : String)
    (draws again : Draws) (found : Result SelectorError (List MaterializedPortfolio)) (db : Db)
    (r : ReportBatchRecord) (cs : List Command)
    → (create_materialized request caller key draws found db).0 ≡ ok r
    → again.sha256 ≡ draws.sha256
    → let later = run cs (create_materialized request caller key draws found db).1 in
      (s : ReportBatchRecord) × (create_materialized request caller key again found later
        ≡ (ok s, later))
      × (s.batch_id ≡ r.batch_id)
unfolding create_materialized
materialized-once request caller key draws again (err e) db r cs h same = absurd (ground arith)
materialized-once request caller key draws again (ok ms) db r cs h same =
    let first = connect (create_in request caller key ms draws) db in
    let (old, f, e, i) =
      created_row request caller key ms draws db first.1 r
        (returned-connect (create_in request caller key ms draws) db r h) in
    let k = run-IsFound (has_key key) (λ a b _ q. ap (λ x. str_eq x key) q) cs first.1 old f in
    let (s, c, j) =
      create_in-again request caller key ms again (run cs first.1) k.next k.found (
        k.kept.hash
        ∙ e
        ∙ ap (λ digest. digest (batch_hash_payload request caller ms)) (sym same)) in
    (
      s,
      connect-returned (create_in request caller key ms again) (run cs first.1) s (run cs first.1)
          c,
      j ∙ k.kept.id ∙ i,
    )

-- Once `create_batch` has returned a batch, the same request from the same caller under the same key
-- returns a batch with the same id, whatever ids and times the second call draws and whatever
-- commands ran in between, and changes no table.
pub create-once :
    (request : BatchCreateRequest) (caller : ReportCallerContext) (key : Option String)
    (draws again : Draws) (db : Db) (r : ReportBatchRecord) (cs : List Command)
    → (create_batch request caller key draws db).0 ≡ ok r
    → again.sha256 ≡ draws.sha256
    → let later = run cs (create_batch request caller key draws db).1 in
      (s : ReportBatchRecord) × (create_batch request caller key again later ≡ (ok s, later))
      × (s.batch_id ≡ r.batch_id)
unfolding create_batch
create-once request caller none draws again db r cs h same = absurd (ground arith)
create-once request caller (some key) draws again db r cs h same =
    elim (Bool-cases (str_eq (strip key) "")) [
      | inl e ↦ absurd (ground arith)
      | inr e ↦ rw e (
          materialized-once request caller (strip key) draws again
            (materialize_portfolios request caller) db r cs (ground arith) same)
    ]
