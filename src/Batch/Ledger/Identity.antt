-- ===== src/Batch/Ledger/Identity.antt =====
-- What no command changes of a stored batch: its id, key, request hash and tenant, and that it is
-- cancelled.
use mathlib.Core.Option
use lotus_report.Prelude.{
  String, Bool, ◌≡◌, ◌∙◌, refl, ap, inl, inr, Option, none, some, List, [], ◌∷◌, Bool-cases,
  if◌then◌else◌, str_eq,
}
use lotus_report.Sql.{Result, ok, err, fetchone, fetchone-update, fetchone-append, connect_keeps}
use lotus_report.Batch.Models.{BatchStatus, BatchRow, ReportBatchRecord}
use lotus_report.Batch.Selector.{
  BatchCreateRequest, ReportCallerContext, MaterializedPortfolio, SelectorError,
  materialize_portfolios,
}
use lotus_report.Text.{strip}
use lotus_report.Batch.Ledger.Tables.{Db}
use lotus_report.Batch.Ledger.BatchEffects.{
  recover-BatchEffect, cancel-BatchEffect, resume-BatchEffect, pause-BatchEffect, retry-BatchEffect,
  relink-BatchEffect, failed-BatchEffect, succeeded-BatchEffect, waiting-batches, heartbeat-batches,
  same, acquire-BatchEffect, BatchEffect, wrote,
}
use lotus_report.Batch.Ledger.Create.{
  Draws, create_in, create_materialized, create_batch, new_batch_row,
}
use lotus_report.Batch.Ledger.Create.Keeps.{create_in-ok, insert_new-ok, load_batch-same}
use lotus_report.Batch.Ledger.Commands.{
  Command, create, acquire, heartbeat, wait, succeed as succeed_command, fail, relink, retry, pause,
  resume, cancel, recover, execute, run,
}

pub record IsKept (row next : BatchRow) : Type 0 where
  pub id : next.batch_id ≡ row.batch_id
  pub key : next.idempotency_key ≡ row.idempotency_key
  pub hash : next.request_hash ≡ row.request_hash
  pub tenant : next.tenant_id ≡ row.tenant_id
  pub cancelled : row.status ≡ BatchStatus.cancelled → next.status ≡ BatchStatus.cancelled

pub IsKept-refl : (row : BatchRow) → IsKept row row
IsKept-refl row = record { id = refl; key = refl; hash = refl; tenant = refl; cancelled = λ h. h }

IsKept-trans : (a b c : BatchRow) → IsKept a b → IsKept b c → IsKept a c
IsKept-trans a b c h k = record {
  id = k.id ∙ h.id;
  key = k.key ∙ h.key;
  hash = k.hash ∙ h.hash;
  tenant = k.tenant ∙ h.tenant;
  cancelled = λ s. k.cancelled (h.cancelled s);
}

-- A test of a batch by its id and its key.
abbrev pub IsIdentityTest : (BatchRow → Bool) → Type 0
IsIdentityTest q =
    (a b : BatchRow) → a.batch_id ≡ b.batch_id → a.idempotency_key ≡ b.idempotency_key → q a ≡ q b

-- The row that such a test finds, with its identity.
pub record IsFound (q : BatchRow → Bool) (row : BatchRow) (batches : List BatchRow) : Type 0 where
  pub next : BatchRow
  pub found : fetchone q batches ≡ some next
  pub kept : IsKept row next

module _ (q : BatchRow → Bool) (by : IsIdentityTest q) (row : BatchRow) where
  effect-IsFound :
      (before after : List BatchRow)
      → fetchone q before ≡ some row
      → BatchEffect before after
      → IsFound q row after
  effect-IsFound before after found (same e) = record {
    next = row;
    found = rw e found;
    kept = IsKept-refl row;
  }
  effect-IsFound before after found (wrote p f s e) = record {
    next = if p row then f row else row;
    found = rw e (
        fetchone-update q p f before (λ b. by (f b) b (s.same_id b) (s.same_key b))
        ∙ ap (λ o. Option.map (λ r. if p r then f r else r) o) found);
    kept = elim (Bool-cases (p row)) [
      | inl t ↦ rw t (record {
        id = s.same_id row;
        key = s.same_key row;
        hash = s.same_hash row;
        tenant = s.same_tenant row;
        cancelled = λ c. s.stays_cancelled row c t;
      })
      | inr t ↦ rw t (IsKept-refl row)
    ];
  }

  created-IsFound :
      (request : BatchCreateRequest) (caller : ReportCallerContext) (key : String)
      (ms : List MaterializedPortfolio) (draws : Draws) (db db' : Db) (r : ReportBatchRecord)
      → fetchone q db.batches ≡ some row
      → create_in request caller key ms draws db ≡ ok (r, db')
      → IsFound q row db'.batches
  created-IsFound request caller key ms draws db db' r found h =
      elim (create_in-ok request caller key ms draws db r db' h) [
        | inl (_, made) ↦ record {
          next = row;
          found = rw (insert_new-ok request caller key ms draws db db' r made).0 (
              fetchone-append q db.batches (new_batch_row request caller key ms draws ∷ []) row
                found);
          kept = IsKept-refl row;
        }
        | inr (old, _, _, loaded) ↦ record {
          next = row;
          found = rw (load_batch-same old.batch_id db db' r loaded) found;
          kept = IsKept-refl row;
        }
      ]

  create-IsFound :
      (request : BatchCreateRequest) (caller : ReportCallerContext) (key : Option String)
      (draws : Draws) (db : Db)
      → fetchone q db.batches ≡ some row
      → IsFound q row (create_batch request caller key draws db).1.batches
  unfolding create_batch create_materialized
  create-IsFound request caller none draws db found = record {
    next = row;
    found = found;
    kept = IsKept-refl row;
  }
  create-IsFound request caller (some key) draws db found =
      elim (Bool-cases (str_eq (strip key) "")) [
        | inl e ↦ rw e (record { next = row; found = found; kept = IsKept-refl row })
        | inr e ↦ rw e (go (materialize_portfolios request caller))
      ]
    where
      go :
          (ms : Result SelectorError (List MaterializedPortfolio))
          → IsFound q row (create_materialized request caller (strip key) draws ms db).1.batches
      go (err e) = record { next = row; found = found; kept = IsKept-refl row }
      go (ok ms) =
          connect_keeps (λ d. IsFound q row d.batches)
            (create_in request caller (strip key) ms draws) db
            (λ r db' h. created-IsFound request caller (strip key) ms draws db db' r found h)
            (record { next = row; found = found; kept = IsKept-refl row })

  execute-IsFound :
      (c : Command) (db : Db)
      → fetchone q db.batches ≡ some row
      → IsFound q row (execute c db).batches
  unfolding execute
  execute-IsFound (create request caller key draws) db h =
      create-IsFound request caller key draws db h
  execute-IsFound (acquire b w token n limit now) db h =
      effect-IsFound db.batches _ h (acquire-BatchEffect db b w token n limit now)
  execute-IsFound (heartbeat i token n now) db h =
      effect-IsFound db.batches _ h (same (heartbeat-batches db i token n now))
  execute-IsFound (wait i token job now) db h =
      effect-IsFound db.batches _ h (same (waiting-batches db i token job now))
  execute-IsFound (succeed_command i job now) db h =
      effect-IsFound db.batches _ h (succeeded-BatchEffect db i job now)
  execute-IsFound (fail i e now) db h =
      effect-IsFound db.batches _ h (failed-BatchEffect db i e now)
  execute-IsFound (relink b i job m now) db h =
      effect-IsFound db.batches _ h (relink-BatchEffect db b i job m now)
  execute-IsFound (retry b m now) db h =
      effect-IsFound db.batches _ h (retry-BatchEffect db b m now)
  execute-IsFound (pause b now) db h = effect-IsFound db.batches _ h (pause-BatchEffect db b now)
  execute-IsFound (resume b now) db h = effect-IsFound db.batches _ h (resume-BatchEffect db b now)
  execute-IsFound (cancel b now) db h = effect-IsFound db.batches _ h (cancel-BatchEffect db b now)
  execute-IsFound (recover b now) db h =
      effect-IsFound db.batches _ h (recover-BatchEffect db b now)

-- A stored batch is found again after any run, by its id or its key.
pub run-IsFound :
    (q : BatchRow → Bool)
    → IsIdentityTest q
    → (cs : List Command) (db : Db) (row : BatchRow) → fetchone q db.batches ≡ some row
    → IsFound q row (run cs db).batches
unfolding run
run-IsFound q by [] db row h = record { next = row; found = h; kept = IsKept-refl row }
run-IsFound q by (c ∷ cs) db row h =
    let k = execute-IsFound q by row c db h in
    let l = run-IsFound q by cs (execute c db) k.next k.found in
    record { next = l.next; found = l.found; kept = IsKept-trans row k.next l.next k.kept l.kept }
