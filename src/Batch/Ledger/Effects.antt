-- ===== src/Batch/Ledger/Effects.antt =====
-- What each operation of the ledger does to the two tables: one UPDATE of the items at most, and
-- of the batches only status columns.
use lotus_report.Prelude.{
  ℕ, zero, suc, String, Bool, true, ◌≡◌, refl, ◌⊎◌, inl, inr, ◌&&◌, Option, none, some, List, [],
  ◌∷◌, arith, All, Option-cases,
}
use lotus_report.Sql.{update, fetchone, connect, All-update}
use lotus_report.Clock.{Time}
use lotus_report.Batch.Models.{BatchStatus, BatchItemStatus, item_is, ItemRow}
use lotus_report.Batch.Lifecycle.{reconciled_batch_status}
use lotus_report.Batch.Ledger.Tables.{
  Db, LedgerError, is_item, item_statuses, write_status, load_batch, refresh_batch_status,
}
use lotus_report.Batch.Ledger.Items.{
  column_is, fenced_update, beat, heartbeat_item_lease, dispatch_to,
  mark_item_waiting_on_report_job, returning_update, succeed, awaits_job, mark_item_succeeded,
  Failure, fail, mark_item_failed, relink, can_relink, relink_failed_item_for_replay,
}
use lotus_report.Batch.Ledger.Control.{
  lease, selected_ids, with_ids, lease_all, acquire_dispatch_items, can_retry, rematerialize,
  retry_failed_items, pause_batch, resume_batch, can_cancel, cancel_item, cancel_batch, can_recover,
  recover_item, recover_expired_leases,
}

-- The table `after` is `before`, or one UPDATE away from it.
abbrev pub Changes {ℓ} : {A : Type ℓ} → (A → Bool) → (A → A) → List A → List A → Type ℓ
Changes p f before after = (after ≡ before) ⊎ (after ≡ update p f before)

pub Changes-All {ℓ κ} :
    {A : Type ℓ} (P : A → Type κ) (p : A → Bool) (f : A → A) (before after : List A)
    → Changes p f before after
    → ((r : A) → P r → p r ≡ true → P (f r))
    → All P before
    → All P after
Changes-All P p f before after (inl e) keep h = rw e h
Changes-All P p f before after (inr e) keep h = rw e (All-update P p f before keep h)

write_status-items :
    (s : Option BatchStatus) (b : String) (now : Time) (db : Db)
    → (write_status s b now db).items ≡ db.items
write_status-items none b now db = refl
write_status-items (some s) b now db = refl

pub refresh-items :
    (b : String) (now : Time) (db : Db) → (refresh_batch_status b now db).items ≡ db.items
unfolding refresh_batch_status
refresh-items b now db =
    write_status-items (reconciled_batch_status (item_statuses b db.items)) b now db

returning-Changes :
    (p : ItemRow → Bool) (f : ItemRow → ItemRow) (now : Time) (e : LedgerError) (db : Db)
    → Changes p f db.items (connect (returning_update p f now e) db).1.items
unfolding connect
returning-Changes p f now e db = elim (Option-cases (fetchone p db.items)) [
  | inl n ↦ inl (rw (n, connect))
  | inr (r, s) ↦
      inr
        (rw (s, connect) (refresh-items r.batch_id now (record db { items = update p f db.items })))
]

abbrev pub fence : String → String → ItemRow → Bool
fence i token r =
    is_item i r && column_is r.lease_token token && item_is r.status BatchItemStatus.leased

fenced-Changes :
    (f : ItemRow → ItemRow) (i token : String) (db : Db)
    → Changes (fence i token) f db.items (connect (fenced_update f i token) db).1.items
unfolding connect fenced_update
fenced-Changes f i token db = ground arith

lease_all-Changes :
    (ids : List String) (b w token : String) (n : ℕ) (now : Time) (db : Db)
    → Changes
        (with_ids ids)
        (lease w token n now)
        db.items
        (lease_all ids b w token n now db).1.items
lease_all-Changes [] b w token n now db = inl refl
lease_all-Changes (i ∷ is) b w token n now db = inr refl

module _ (db : Db) where
  pub heartbeat-Changes :
      (i token : String) (n : ℕ) (now : Time)
      → Changes
          (fence i token)
          (beat now n)
          db.items
          (heartbeat_item_lease i token n now db).1.items
  unfolding heartbeat_item_lease
  heartbeat-Changes i token n now = fenced-Changes (beat now n) i token db

  pub waiting-Changes :
      (i token job : String) (now : Time)
      → Changes
          (fence i token)
          (dispatch_to job now)
          db.items
          (mark_item_waiting_on_report_job i token job now db).1.items
  unfolding mark_item_waiting_on_report_job
  waiting-Changes i token job now = fenced-Changes (dispatch_to job now) i token db

  pub succeeded-Changes :
      (i job : String) (now : Time)
      → Changes (awaits_job i job) (succeed now) db.items (mark_item_succeeded i job now db).1.items
  unfolding mark_item_succeeded
  succeeded-Changes i job now = returning-Changes _ _ now LedgerError.report_batch_item_not_found db

  pub failed-Changes :
      (i : String) (e : Failure) (now : Time)
      → Changes (is_item i) (fail e now) db.items (mark_item_failed i e now db).1.items
  unfolding mark_item_failed
  failed-Changes i e now = returning-Changes _ _ now LedgerError.report_batch_item_not_found db

  pub relink-Changes :
      (b i job : String) (m : ℕ) (now : Time)
      → Changes
          (can_relink b i m)
          (relink job now)
          db.items
          (relink_failed_item_for_replay b i job m now db).1.items
  unfolding relink_failed_item_for_replay connect load_batch
  relink-Changes b i job m now = ground (
    arith,
    refresh-items b now (record db { items = update (can_relink b i m) (relink job now) db.items }),
  )

  pub acquire-Changes :
      (b w token : String) (n limit : ℕ) (now : Time)
      → Changes
          (with_ids (selected_ids db b now limit))
          (lease w token n now)
          db.items
          (acquire_dispatch_items b w token n limit now db).1.items
  unfolding acquire_dispatch_items connect
  acquire-Changes b w token n zero now = inl refl
  acquire-Changes b w token n (suc limit) now =
      lease_all-Changes (selected_ids db b now (suc limit)) b w token n now db

  pub retry-Changes :
      (b : String) (m : ℕ) (now : Time)
      → Changes (can_retry b m now) rematerialize db.items (retry_failed_items b m now db).1.items
  unfolding retry_failed_items connect load_batch
  retry-Changes b m now = ground (
    arith,
    refresh-items b now (record db { items = update (can_retry b m now) rematerialize db.items }),
  )

  pub pause-items : (b : String) (now : Time) → (pause_batch b now db).1.items ≡ db.items
  unfolding pause_batch connect load_batch
  pause-items b now = ground arith

  pub resume-items : (b : String) (now : Time) → (resume_batch b now db).1.items ≡ db.items
  unfolding resume_batch connect load_batch
  resume-items b now = ground arith

  pub cancel-Changes :
      (b : String) (now : Time)
      → Changes (can_cancel b) (cancel_item now) db.items (cancel_batch b now db).1.items
  unfolding cancel_batch connect load_batch
  cancel-Changes b now = ground arith

  pub recover-Changes :
      (b : String) (now : Time)
      → Changes (can_recover b now) recover_item db.items (recover_expired_leases b now db).1.items
  unfolding recover_expired_leases connect
  recover-Changes b now = inr (refresh-items b now _)
