-- ===== src/Batch/Ledger/Settled.antt =====
-- An item that has ended keeps its whole row, until `mark_item_failed` is called for it.
use lotus_report.Prelude.{
  All-refl, In, ℕ, eq_iff, String, Bool, true, false, ◌||◌, ◌≡◌, refl, inl, inr, some, List, [],
  ◌∷◌, arith, Bool-cases, str_eq,
}
use lotus_report.Sql.{fetchone, fetchone-update, fetchone-true, All-fetchone}
use lotus_report.Clock.{Time}
use lotus_report.Batch.Models.{BatchItemStatus, ItemRow}
use lotus_report.Batch.Ledger.Tables.{Db, is_item}
use lotus_report.Batch.Ledger.Control.{with_ids, selected_ids}
use lotus_report.Batch.Ledger.Create.Appends.{create-IsStored}
use lotus_report.Batch.Ledger.Commands.{
  Command, create, acquire, heartbeat, wait, succeed as succeed_command, fail, relink, retry, pause,
  resume, cancel, recover, execute, run,
}
use lotus_report.Batch.Ledger.Effects.{
  Changes, heartbeat-Changes, waiting-Changes, succeeded-Changes, failed-Changes, relink-Changes,
  acquire-Changes, retry-Changes, cancel-Changes, recover-Changes, pause-items, resume-items,
}
use lotus_report.Batch.Ledger.Soundness.{IsSound}
use lotus_report.Batch.Ledger.Preservation.{execute-IsSound, selected-dispatchable}

-- The statuses in which no worker and no operator has anything left to do with an item.
abbrev pub ended : BatchItemStatus → Bool
ended BatchItemStatus.succeeded = true
ended BatchItemStatus.failed_terminal = true
ended BatchItemStatus.cancelled = true
ended _ = false

-- One of the commands is `mark_item_failed` for this item.
abbrev pub fails : String → List Command → Bool
fails i [] = false
fails i (fail j e now ∷ cs) = str_eq j i || fails i cs
fails i (c ∷ cs) = fails i cs

fails-split :
    (i : String) (c : Command) (cs : List Command)
    → fails i (c ∷ cs) ≡ false
    → (fails i (c ∷ []) ≡ false) × (fails i cs ≡ false)
fails-split i c cs h = ground arith

module _ (i : String) (r : ItemRow) where
  other : (j : String) → is_item i r ≡ true → str_eq j i ≡ false → is_item j r ≡ false
  other j own no_fail =
      let e = (eq_iff r.batch_item_id i).0 own in
      ground (arith, e, eq_iff j i, eq_iff r.batch_item_id j)

  -- An UPDATE that does not choose the row leaves it as it is.
  untouched :
      (p : ItemRow → Bool) (f : ItemRow → ItemRow) (before after : List ItemRow)
      → Changes p f before after
      → ((x : ItemRow) → is_item i (f x) ≡ is_item i x)
      → fetchone (is_item i) before ≡ some r
      → p r ≡ false
      → fetchone (is_item i) after ≡ some r
  untouched p f before after (inl e) same found no_fail = rw e found
  untouched p f before after (inr e) same found no_fail =
      rw (e, fetchone-update (is_item i) p f before same, found, no_fail) refl

  module _ (done : ended r.status ≡ true) where
    -- One command that does not fail the item leaves an ended row as it is.
    execute-settled :
        (c : Command) (db : Db)
        → IsSound db
        → fetchone (is_item i) db.items ≡ some r
        → fails i (c ∷ []) ≡ false
        → fetchone (is_item i) (execute c db).items ≡ some r
    unfolding execute
    execute-settled (create request caller key draws) db s found no_fail =
        create-IsStored i r request caller key draws db found
    execute-settled (acquire b w token n limit now) db s found no_fail =
        untouched _ _ db.items _ (acquire-Changes db b w token n limit now) (λ x. refl) found
          (not_selected b now limit)
      where
        not_selected :
            (b : String) (now : Time) (limit : ℕ) → with_ids (selected_ids db b now limit) r ≡ false
        not_selected b now limit = elim (Bool-cases (with_ids (selected_ids db b now limit) r)) [
          | inl e ↦
              let stored =
                (All-fetchone (λ x. In x db.items) (is_item i) db.items (All-refl db.items)
                  found).0 in
              let ready = selected-dispatchable db b now limit s.item_ids r stored e in
              absurd (ground arith)
          | inr e ↦ e
        ]
    execute-settled (heartbeat j token n now) db s found no_fail =
        untouched _ _ db.items _ (heartbeat-Changes db j token n now) (λ x. refl) found
          (ground arith)
    execute-settled (wait j token job now) db s found no_fail =
        untouched _ _ db.items _ (waiting-Changes db j token job now) (λ x. refl) found
          (ground arith)
    execute-settled (succeed_command j job now) db s found no_fail =
        untouched _ _ db.items _ (succeeded-Changes db j job now) (λ x. refl) found (ground arith)
    execute-settled (fail j e now) db s found no_fail =
        untouched _ _ db.items _ (failed-Changes db j e now) (λ x. refl) found
          (other j (fetchone-true (is_item i) db.items r found) (ground arith))
    execute-settled (relink b j job m now) db s found no_fail =
        untouched _ _ db.items _ (relink-Changes db b j job m now) (λ x. refl) found (ground arith)
    execute-settled (retry b m now) db s found no_fail =
        untouched _ _ db.items _ (retry-Changes db b m now) (λ x. refl) found (ground arith)
    execute-settled (pause b now) db s found no_fail = rw (pause-items db b now) found
    execute-settled (resume b now) db s found no_fail = rw (resume-items db b now) found
    execute-settled (cancel b now) db s found no_fail =
        untouched _ _ db.items _ (cancel-Changes db b now) (λ x. refl) found (ground arith)
    execute-settled (recover b now) db s found no_fail =
        untouched _ _ db.items _ (recover-Changes db b now) (λ x. refl) found (ground arith)

-- An item that is succeeded, failed_terminal or cancelled keeps its whole row through any sequence
-- of commands in which `mark_item_failed` is not called for it: it is not leased, retried, recovered,
-- relinked, cancelled or settled again.
pub run-settled :
    (cs : List Command) (db : Db) (i : String) (r : ItemRow)
    → IsSound db
    → fetchone (is_item i) db.items ≡ some r
    → ended r.status ≡ true
    → fails i cs ≡ false
    → fetchone (is_item i) (run cs db).items ≡ some r
unfolding run
run-settled [] db i r s found done no_fail = found
run-settled (c ∷ cs) db i r s found done no_fail =
    let (first, rest) = fails-split i c cs no_fail in
    run-settled cs (execute c db) i r (execute-IsSound db s c)
      (execute-settled i r done c db s found first) done rest
