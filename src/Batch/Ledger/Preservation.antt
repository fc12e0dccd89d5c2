-- ===== src/Batch/Ledger/Preservation.antt =====
-- Every command keeps the invariant of both tables, so every reachable state has it.
use lotus_report.Prelude.{
  false, [], ◌∷◌, List, ℕ, String, true, ◌≡◌, refl, inl, inr, arith, All, In, is_none,
}
use lotus_report.Sql.{
  rowcount, select, order_by, IsUnique, selected_by_key, is_in-take, is_in-order_by, All-of_In,
  All-update_with,
}
use lotus_report.Clock.{Time}
use lotus_report.Batch.Models.{ItemRow}
use lotus_report.Batch.Ledger.Tables.{Db}
use lotus_report.Batch.Ledger.Control.{
  dispatchable, selected_ids, with_ids, lease, acquire_dispatch_items,
}
use lotus_report.Batch.Ledger.Effects.{
  recover-Changes, cancel-Changes, resume-items, pause-items, retry-Changes, relink-Changes,
  failed-Changes, succeeded-Changes, waiting-Changes, heartbeat-Changes, acquire-Changes,
}
use lotus_report.Batch.Ledger.BatchEffects.{
  recover-BatchEffect, cancel-BatchEffect, resume-BatchEffect, pause-BatchEffect, retry-BatchEffect,
  relink-BatchEffect, failed-BatchEffect, succeeded-BatchEffect, waiting-batches, heartbeat-batches,
  same, acquire-BatchEffect,
}
use lotus_report.Batch.Ledger.Invariant.{
  recover_item-IsWellFormed, cancel_item-IsWellFormed, rematerialize-IsWellFormed,
  relink-IsWellFormed, fail-IsWellFormed, succeed-IsWellFormed, dispatch_to-IsWellFormed,
  beat-IsWellFormed, IsWellFormed, lease-IsWellFormed,
}
use lotus_report.Batch.Ledger.Create.Keeps.{create-IsSound}
use lotus_report.Batch.Ledger.Commands.{
  Command, create, acquire, heartbeat, wait, succeed as succeed_command, fail, relink, retry, pause,
  resume, cancel, recover, execute, run, empty_db,
}
use lotus_report.Batch.Ledger.Soundness.{
  keep, IsSound, BatchEffect-IsUnique_id, BatchEffect-IsUnique_key, Changes-IsUnique,
}

-- A row with one of the selected ids passes the WHERE clause that selected them.
pub selected-dispatchable :
    (db : Db) (b : String) (now : Time) (limit : ℕ)
    → IsUnique (λ r. r.batch_item_id) db.items
    → (r : ItemRow) → In r db.items
    → with_ids (selected_ids db b now limit) r ≡ true
    → dispatchable db.batches b now r ≡ true
selected-dispatchable db b now limit u r m h =
    let q = λ (r : ItemRow). dispatchable db.batches b now r in
    let key = λ (r : ItemRow). r.batch_item_id in
    let position = λ (r : ItemRow). r.item_position in
    selected_by_key ItemRow key q db.items u r m (
      rw (← is_in-order_by key r.batch_item_id position (select q db.items))
        (is_in-take key r.batch_item_id limit (order_by position (select q db.items)) h))

module _ (db : Db) (h : IsSound db) where
  acquire-rows :
      (b w token : String) (n limit : ℕ) (now : Time)
      → All IsWellFormed (acquire_dispatch_items b w token n limit now db).1.items
  acquire-rows b w token n limit now = elim (acquire-Changes db b w token n limit now) [
    | inl e ↦ rw e h.rows
    | inr e ↦ rw e (
        All-update_with IsWellFormed
          (λ r. with_ids (selected_ids db b now limit) r ≡ true → is_none r.report_job_id ≡ true)
          (with_ids (selected_ids db b now limit)) (lease w token n now) db.items
          (λ r wf free p. lease-IsWellFormed r wf now w token n (free p)) h.rows
          (All-of_In db.items
            (λ r m p. unlinked r b now (selected-dispatchable db b now limit h.item_ids r m p))))
  ]
    where
      unlinked :
          (r : ItemRow) (b : String) (now : Time)
          → dispatchable db.batches b now r ≡ true
          → is_none r.report_job_id ≡ true
      unlinked r b now p = ground arith

  pub acquire-IsSound :
      (b w token : String) (n limit : ℕ) (now : Time)
      → IsSound (acquire_dispatch_items b w token n limit now db).1
  acquire-IsSound b w token n limit now = record {
    rows = acquire-rows b w token n limit now;
    item_ids =
        Changes-IsUnique _ _ db.items _ (acquire-Changes db b w token n limit now) (λ r. refl)
          h.item_ids;
    batch_ids = BatchEffect-IsUnique_id (acquire-BatchEffect db b w token n limit now) h.batch_ids;
    batch_keys =
        BatchEffect-IsUnique_key (acquire-BatchEffect db b w token n limit now) h.batch_keys;
  }

  -- Every command, whatever its arguments and whether it returns or raises, keeps the invariant.
  pub execute-IsSound : (c : Command) → IsSound (execute c db)
  unfolding execute
  execute-IsSound (create request caller key draws) = create-IsSound request caller key draws db h
  execute-IsSound (acquire b w token n limit now) = acquire-IsSound b w token n limit now
  execute-IsSound (heartbeat i token n now) =
      keep _ _ db _ (heartbeat-Changes db i token n now) (same (heartbeat-batches db i token n now))
        (λ r. refl) (λ r wf p. beat-IsWellFormed r wf now i token n p) h
  execute-IsSound (wait i token job now) =
      keep _ _ db _ (waiting-Changes db i token job now) (same (waiting-batches db i token job now))
        (λ r. refl) (λ r wf p. dispatch_to-IsWellFormed r wf now i token job p) h
  execute-IsSound (succeed_command i job now) =
      keep _ _ db _ (succeeded-Changes db i job now) (succeeded-BatchEffect db i job now)
        (λ r. refl) (λ r wf p. succeed-IsWellFormed r wf now (ground arith)) h
  execute-IsSound (fail i e now) =
      keep _ _ db _ (failed-Changes db i e now) (failed-BatchEffect db i e now) (λ r. refl)
        (λ r wf p. fail-IsWellFormed r wf now e) h
  execute-IsSound (relink b i job m now) =
      keep _ _ db _ (relink-Changes db b i job m now) (relink-BatchEffect db b i job m now)
        (λ r. refl) (λ r wf p. relink-IsWellFormed r wf now job) h
  execute-IsSound (retry b m now) =
      keep _ _ db _ (retry-Changes db b m now) (retry-BatchEffect db b m now) (λ r. refl)
        (λ r wf p. rematerialize-IsWellFormed r wf now (ground arith)) h
  execute-IsSound (pause b now) =
      keep (λ r. false) (λ r. r) db _ (inl (pause-items db b now)) (pause-BatchEffect db b now)
        (λ r. refl) (λ r wf p. wf) h
  execute-IsSound (resume b now) =
      keep (λ r. false) (λ r. r) db _ (inl (resume-items db b now)) (resume-BatchEffect db b now)
        (λ r. refl) (λ r wf p. wf) h
  execute-IsSound (cancel b now) =
      keep _ _ db _ (cancel-Changes db b now) (cancel-BatchEffect db b now) (λ r. refl)
        (λ r wf p. cancel_item-IsWellFormed r wf now (ground arith)) h
  execute-IsSound (recover b now) =
      keep _ _ db _ (recover-Changes db b now) (recover-BatchEffect db b now) (λ r. refl)
        (λ r wf p. recover_item-IsWellFormed r wf now (ground arith)) h

-- From tables that satisfy the invariant, any sequence of commands in any order leads to tables
-- that satisfy it: item ids, batch ids and idempotency keys stay unique; a report job is linked
-- exactly to what was dispatched; only a leased or waiting item holds a lease token, and a leased
-- one holds a token and an expiry; what is settled is not eligible for a retry, and what failed
-- retryably is; and a failed item has counted an attempt.
pub run-IsSound : (cs : List Command) (db : Db) → IsSound db → IsSound (run cs db)
unfolding run
run-IsSound [] db h = h
run-IsSound (c ∷ cs) db h = run-IsSound cs (execute c db) (execute-IsSound db h c)

pub empty_db-IsSound : IsSound empty_db
unfolding rowcount
empty_db-IsSound = record {
  rows = tt;
  item_ids = λ k. omega arith;
  batch_ids = λ k. omega arith;
  batch_keys = λ k. omega arith;
}
