-- ===== src/Batch/Ledger/BatchEffects.antt =====
-- What the operations of the ledger do to the table of batches: an UPDATE that keeps each batch's
-- identity, and that leaves a cancelled batch cancelled.
use lotus_report.Prelude.{
  ℕ, zero, suc, String, Bool, true, false, ◌≡◌, refl, ◌⊎◌, inl, inr, not, ◌&&◌, Option, none, some,
  List, [], ◌∷◌, arith, Option-cases,
}
use lotus_report.Sql.{update, fetchone, connect}
use lotus_report.Clock.{Time}
use lotus_report.Batch.Models.{BatchStatus, batch_is, ItemRow, BatchRow}
use lotus_report.Batch.Lifecycle.{reconciled_batch_status}
use lotus_report.Batch.Ledger.Tables.{
  Db, LedgerError, is_batch, is_active, is_finished, refresh_blocked, reconcile_row, item_statuses,
  write_status, load_batch, refresh_batch_status,
}
use lotus_report.Batch.Ledger.Items.{
  fenced_update, heartbeat_item_lease, mark_item_waiting_on_report_job, returning_update,
  mark_item_succeeded, Failure, mark_item_failed, relink, can_relink, relink_failed_item_for_replay,
}
use lotus_report.Batch.Ledger.Control.{
  control_result, lease_all, selected_ids, acquire_dispatch_items, retry_failed_items, set_batch,
  pause_batch, resume_batch, cancel_row, cancel_batch, recover_expired_leases,
}

-- An UPDATE of the batches that writes no identity and no other status over `cancelled`.
pub record IsStatusUpdate (p : BatchRow → Bool) (f : BatchRow → BatchRow) : Type 0 where
  pub same_id : (b : BatchRow) → (f b).batch_id ≡ b.batch_id
  pub same_key : (b : BatchRow) → (f b).idempotency_key ≡ b.idempotency_key
  pub same_hash : (b : BatchRow) → (f b).request_hash ≡ b.request_hash
  pub same_tenant : (b : BatchRow) → (f b).tenant_id ≡ b.tenant_id
  pub stays_cancelled :
      (b : BatchRow)
      → b.status ≡ BatchStatus.cancelled
      → p b ≡ true
      → (f b).status ≡ BatchStatus.cancelled

pub data BatchEffect (before after : List BatchRow) : Type 0 where
  same : after ≡ before → BatchEffect before after
  wrote :
      (p : BatchRow → Bool) (f : BatchRow → BatchRow)
      → IsStatusUpdate p f
      → after ≡ update p f before
      → BatchEffect before after

reconcile-IsStatusUpdate :
    (s : BatchStatus) (batch_id : String) (now : Time)
    → IsStatusUpdate
        (λ r. is_batch batch_id r && not (refresh_blocked r.status))
        (reconcile_row s now)
reconcile-IsStatusUpdate s batch_id now = record {
  same_id = λ b. refl;
  same_key = λ b. refl;
  same_hash = λ b. refl;
  same_tenant = λ b. refl;
  stays_cancelled = λ b h p. ground arith;
}

write_status-BatchEffect :
    (s : Option BatchStatus) (b : String) (now : Time) (db : Db)
    → BatchEffect db.batches (write_status s b now db).batches
write_status-BatchEffect none b now db = same refl
write_status-BatchEffect (some s) b now db = wrote _ _ (reconcile-IsStatusUpdate s b now) refl

refresh-BatchEffect :
    (b : String) (now : Time) (db : Db)
    → BatchEffect db.batches (refresh_batch_status b now db).batches
unfolding refresh_batch_status
refresh-BatchEffect b now db =
    write_status-BatchEffect (reconciled_batch_status (item_statuses b db.items)) b now db

returning-BatchEffect :
    (p : ItemRow → Bool) (f : ItemRow → ItemRow) (now : Time) (e : LedgerError) (db : Db)
    → BatchEffect db.batches (connect (returning_update p f now e) db).1.batches
unfolding connect
returning-BatchEffect p f now e db = elim (Option-cases (fetchone p db.items)) [
  | inl n ↦ same (rw (n, connect))
  | inr (r, s) ↦
      rw (s, connect)
        (refresh-BatchEffect r.batch_id now (record db { items = update p f db.items }))
]

fenced-batches :
    (f : ItemRow → ItemRow) (i token : String) (db : Db)
    → (connect (fenced_update f i token) db).1.batches ≡ db.batches
unfolding connect fenced_update
fenced-batches f i token db = ground arith

lease_all-BatchEffect :
    (ids : List String) (b w token : String) (n : ℕ) (now : Time) (db : Db)
    → BatchEffect db.batches (lease_all ids b w token n now db).1.batches
lease_all-BatchEffect [] b w token n now db = same refl
lease_all-BatchEffect (i ∷ is) b w token n now db =
    wrote _ _
      (record {
        same_id = λ r. refl;
        same_key = λ r. refl;
        same_hash = λ r. refl;
        same_tenant = λ r. refl;
        stays_cancelled = λ r h p. ground arith;
      })
      refl

set_batch-IsStatusUpdate :
    (s : BatchStatus) (from : BatchStatus → Bool) (batch_id : String) (now : Time)
    → from BatchStatus.cancelled ≡ false
    → IsStatusUpdate (λ r. is_batch batch_id r && from r.status) (set_batch s now)
set_batch-IsStatusUpdate s from batch_id now e = record {
  same_id = λ b. refl;
  same_key = λ b. refl;
  same_hash = λ b. refl;
  same_tenant = λ b. refl;
  stays_cancelled = λ b h p. ground arith;
}

cancel_row-IsStatusUpdate :
    (batch_id : String) (now : Time)
    → IsStatusUpdate (λ b. is_batch batch_id b && not (is_finished b.status)) (cancel_row now)
cancel_row-IsStatusUpdate batch_id now = record {
  same_id = λ b. refl;
  same_key = λ b. refl;
  same_hash = λ b. refl;
  same_tenant = λ b. refl;
  stays_cancelled = λ b h p. refl;
}

-- A control operation commits its UPDATE statements, or finds no batch and rolls them back.
pub control_committed :
    (b : String) (n : Db → ℕ) (step : Db → Db) (db : Db)
    → let after = (connect (λ d. control_result b (n d) (step d)) db).1 in
      (after ≡ db) ⊎ (after ≡ step db)
unfolding connect load_batch
control_committed b n step db = ground arith

control-BatchEffect :
    (b : String) (n : Db → ℕ) (step : Db → Db) (db : Db)
    → BatchEffect db.batches (step db).batches
    → BatchEffect db.batches (connect (λ d. control_result b (n d) (step d)) db).1.batches
control-BatchEffect b n step db h = elim (control_committed b n step db) [
  | inl e ↦ rw e (same refl)
  | inr e ↦ rw e h
]

relink_committed :
    (b i job : String) (m : ℕ) (now : Time) (db : Db)
    → let after = (relink_failed_item_for_replay b i job m now db).1 in
      (after ≡ db)
      ⊎ (after
          ≡ refresh_batch_status b now
              (record db { items = update (can_relink b i m) (relink job now) db.items }))
unfolding relink_failed_item_for_replay connect load_batch
relink_committed b i job m now db = ground arith

module _ (db : Db) where
  pub heartbeat-batches :
      (i token : String) (n : ℕ) (now : Time)
      → (heartbeat_item_lease i token n now db).1.batches ≡ db.batches
  unfolding heartbeat_item_lease
  heartbeat-batches i token n now = fenced-batches _ i token db

  pub waiting-batches :
      (i token job : String) (now : Time)
      → (mark_item_waiting_on_report_job i token job now db).1.batches ≡ db.batches
  unfolding mark_item_waiting_on_report_job
  waiting-batches i token job now = fenced-batches _ i token db

  pub succeeded-BatchEffect :
      (i job : String) (now : Time)
      → BatchEffect db.batches (mark_item_succeeded i job now db).1.batches
  unfolding mark_item_succeeded
  succeeded-BatchEffect i job now = returning-BatchEffect _ _ now _ db

  pub failed-BatchEffect :
      (i : String) (e : Failure) (now : Time)
      → BatchEffect db.batches (mark_item_failed i e now db).1.batches
  unfolding mark_item_failed
  failed-BatchEffect i e now = returning-BatchEffect _ _ now _ db

  pub acquire-BatchEffect :
      (b w token : String) (n limit : ℕ) (now : Time)
      → BatchEffect db.batches (acquire_dispatch_items b w token n limit now db).1.batches
  unfolding acquire_dispatch_items connect
  acquire-BatchEffect b w token n zero now = same refl
  acquire-BatchEffect b w token n (suc limit) now =
      lease_all-BatchEffect (selected_ids db b now (suc limit)) b w token n now db

  pub relink-BatchEffect :
      (b i job : String) (m : ℕ) (now : Time)
      → BatchEffect db.batches (relink_failed_item_for_replay b i job m now db).1.batches
  relink-BatchEffect b i job m now = elim (relink_committed b i job m now db) [
    | inl e ↦ rw e (same refl)
    | inr e ↦ rw e (refresh-BatchEffect b now _)
  ]

  pub retry-BatchEffect :
      (b : String) (m : ℕ) (now : Time)
      → BatchEffect db.batches (retry_failed_items b m now db).1.batches
  unfolding retry_failed_items
  retry-BatchEffect b m now = control-BatchEffect b _ _ db (refresh-BatchEffect b now _)

  pub pause-BatchEffect :
      (b : String) (now : Time) → BatchEffect db.batches (pause_batch b now db).1.batches
  unfolding pause_batch
  pause-BatchEffect b now =
      control-BatchEffect b _ _ db
        (wrote _ _ (set_batch-IsStatusUpdate BatchStatus.paused (λ s. is_active s) b now refl) refl)

  pub resume-BatchEffect :
      (b : String) (now : Time) → BatchEffect db.batches (resume_batch b now db).1.batches
  unfolding resume_batch
  resume-BatchEffect b now = control-BatchEffect b _ _ db (
      wrote _ _
        (set_batch-IsStatusUpdate BatchStatus.materialized (λ s. batch_is s BatchStatus.paused) b
          now refl)
        refl)

  pub cancel-BatchEffect :
      (b : String) (now : Time) → BatchEffect db.batches (cancel_batch b now db).1.batches
  unfolding cancel_batch
  cancel-BatchEffect b now =
      control-BatchEffect b _ _ db (wrote _ _ (cancel_row-IsStatusUpdate b now) refl)

  pub recover-BatchEffect :
      (b : String) (now : Time) → BatchEffect db.batches (recover_expired_leases b now db).1.batches
  unfolding recover_expired_leases connect
  recover-BatchEffect b now = refresh-BatchEffect b now _
