-- ===== src/Batch/Execution/Quarantine.antt =====
-- A waiting item whose linked report job is absent or foreign is settled without running the job.
use mathlib.Core.Option
use lotus_report.Prelude.{
  ℕ, String, false, ◌≡◌, ◌≢◌, refl, sym, ◌∙◌, ap, subst, inl, inr, some, arith, Option-cases,
  Bool-cases, str_eq, eq_iff, eq_refl, All-refl, All-imp, In, if◌then◌else◌,
}
use lotus_report.Sql.{
  connect-returned, after-returned, Result, ok, fetchone, select, update, order_by, All-select,
  All-order_by, All-fetchone, found_of_In, fetchone-update,
}
use lotus_report.Clock.{Time}
use lotus_report.Batch.Models.{BatchItemStatus, ItemRow, ReportBatchRecord}
use lotus_report.Batch.Lifecycle.{batch_item_failure_outcome}
use lotus_report.Batch.Admission.{get_batch}
use lotus_report.Batch.Ledger.Tables.{
  Db, LedgerError, is_item, in_batch, load_batch, refresh_batch_status,
}
use lotus_report.Batch.Ledger.Items.{Failure, fail, mark_item_failed, returning_update}
use lotus_report.Batch.Ledger.Soundness.{IsSound}
use lotus_report.Batch.Ledger.Effects.{refresh-items}
use lotus_report.Batch.World.{ledger_answer, PassError, World, on_ledger}
use lotus_report.Batch.Execution.{
  JobRunner, JobView, Lookup, found, absent, BatchItemExecutionResult, failure, failed_result,
  fail_item, run_linked, execute_item,
}

-- A failure marked on a stored item returns the changed row and stores it.
pub marked :
    (id : String) (e : Failure) (now : Time) (db : Db) (r : ItemRow)
    → fetchone (is_item id) db.items ≡ some r
    → ((mark_item_failed id e now db).0 ≡ ok (fail e now r))
      × ((mark_item_failed id e now db).1.items ≡ update (is_item id) (fail e now) db.items)
unfolding mark_item_failed
marked id e now db r h =
    let after =
      refresh_batch_status r.batch_id now
        (record db { items = update (is_item id) (fail e now) db.items }) in
    let k =
      connect-returned
        (returning_update (is_item id) (fail e now) now LedgerError.report_batch_item_not_found) db
        (fail e now r) after (ground (arith, h)) in
    (
      ap (λ (p : Result LedgerError ItemRow × Db). p.0) k,
      ap (λ (p : Result LedgerError ItemRow × Db). p.1.items) k
          ∙ refresh-items r.batch_id now
              (record db { items = update (is_item id) (fail e now) db.items }),
    )

-- The item of a loaded batch is the stored item of its id.
pub stored :
    (db : Db) (batch_id id : String) (batch : ReportBatchRecord) (item : ItemRow)
    → IsSound db
    → get_batch batch_id db ≡ ok batch
    → fetchone (is_item id) batch.items ≡ some item
    → (fetchone (is_item id) db.items ≡ some item) × (item.batch_item_id ≡ id)
unfolding get_batch load_batch
stored db batch_id id batch item s g f =
    elim (Option-cases (fetchone (λ b. str_eq b.batch_id batch_id) db.batches)) [
      | inl n ↦ absurd (ground arith)
      | inr (row, r) ↦
          let items =
            order_by (λ (r : ItemRow). r.item_position) (select (in_batch batch_id) db.items) in
          let e : batch.items ≡ items = ground arith in
          let members =
            All-order_by (λ x. In x db.items) (λ (r : ItemRow). r.item_position)
              (select (in_batch batch_id) db.items)
              (All-imp _ _ (select (in_batch batch_id) db.items) (λ x m. m.0)
                (All-select (λ x. In x db.items) (in_batch batch_id) db.items
                  (All-refl db.items))) in
          let (m, t) =
            All-fetchone (λ x. In x db.items) (is_item id) items members
              (subst (λ l. fetchone (is_item id) l ≡ some item) e f) in
          let own = (eq_iff item.batch_item_id id).0 t in
          (found_of_In (λ (r : ItemRow). r.batch_item_id) id db.items item s.item_ids m own, own)
    ]

-- The linked job is absent, or it belongs to another tenant than the batch.
pub data IsUnusable (batch : ReportBatchRecord) : Lookup → Type 0 where
  is_absent : IsUnusable batch absent
  is_foreign : (job : JobView) → job.tenant_id ≢ batch.tenant_id → IsUnusable batch (found job)

-- The item is settled as a terminal failure that is not retried, in the answer and in the table, and
-- the report-job side is as it was.
pub record IsQuarantined {J : Type 0} (id : String) (before : World J)
    (run : Result PassError BatchItemExecutionResult × World J) : Type 0 where
  pub answer : BatchItemExecutionResult
  pub returns : run.0 ≡ ok answer
  pub item_status : answer.item_status ≡ BatchItemStatus.failed_terminal
  pub not_executed : answer.report_job_status ≡ "not_executed"
  pub not_retried : answer.retry_eligible ≡ false
  pub row : ItemRow
  pub stored : fetchone (is_item id) run.1.db.items ≡ some row
  pub row_status : row.status ≡ BatchItemStatus.failed_terminal
  pub untouched : run.1.jobs ≡ before.jobs

module _ {J : Type 0} where
  fail_item-IsQuarantined :
      (batch_id : String) (item : ItemRow) (job_id category summary : String) (m : ℕ) (now : Time)
      (w : World J)
      → fetchone (is_item item.batch_item_id) w.db.items ≡ some item
      → IsQuarantined item.batch_item_id w
          (fail_item batch_id item job_id "not_executed" (failure category summary false m) now w)
  unfolding fail_item batch_item_failure_outcome
  fail_item-IsQuarantined batch_id item job_id category summary m now w h =
      let e = failure category summary false m in
      let (a, t) = marked item.batch_item_id e now w.db item h in
      let call = on_ledger (mark_item_failed item.batch_item_id e now) w in
      let answers : ItemRow → World J → Result PassError BatchItemExecutionResult × World J =
        λ r v. (ok (failed_result batch_id item.batch_item_id job_id "not_executed" r), v) in
      let k = after-returned call answers (fail e now item) (ap ledger_answer a) in
      record {
        answer = failed_result batch_id item.batch_item_id job_id "not_executed" (fail e now item);
        returns = ap (λ (p : Result PassError BatchItemExecutionResult × World J). p.0) k;
        item_status = refl;
        not_executed = refl;
        not_retried = refl;
        row = fail e now item;
        stored =
            ap
              (λ (p : Result PassError BatchItemExecutionResult × World J).
                fetchone (is_item item.batch_item_id) p.1.db.items)
              k
            ∙ ap (λ rs. fetchone (is_item item.batch_item_id) rs) t
            ∙ fetchone-update (is_item item.batch_item_id) (is_item item.batch_item_id) (fail e now)
                w.db.items (λ r. refl)
            ∙ ap (λ o. Option.map (λ r. if is_item item.batch_item_id r then fail e now r else r) o)
                h
            ∙ rw (eq_refl item.batch_item_id) refl;
        row_status = refl;
        untouched = ap (λ (p : Result PassError BatchItemExecutionResult × World J). p.1.jobs) k;
      }

module _ {J : Type 0} (port : JobRunner J) where
  linked-IsQuarantined :
      (batch : ReportBatchRecord) (item : ItemRow) (job_id : String) (m : ℕ) (now : Time)
      (w : World J) (l : Lookup)
      → fetchone (is_item item.batch_item_id) w.db.items ≡ some item
      → IsUnusable batch l
      → IsQuarantined item.batch_item_id w (run_linked port batch item job_id m now l w)
  unfolding run_linked
  linked-IsQuarantined batch item job_id m now w l h is_absent =
      fail_item-IsQuarantined batch.batch_id item job_id _ _ m now w h
  linked-IsQuarantined batch item job_id m now w l h (is_foreign job ne) =
      elim (Bool-cases (str_eq job.tenant_id batch.tenant_id)) [
        | inl e ↦ absurd (ne ((eq_iff job.tenant_id batch.tenant_id).0 e))
        | inr e ↦ rw e (fail_item-IsQuarantined batch.batch_id item job_id _ _ m now w h)
      ]

  pub reached :
      (batch_id id : String) (m : ℕ) (now : Time) (w : World J) (batch : ReportBatchRecord)
      (item : ItemRow) (job_id : String)
      → get_batch batch_id w.db ≡ ok batch
      → fetchone (is_item id) batch.items ≡ some item
      → item.status ≡ BatchItemStatus.waiting_on_report_job
      → item.report_job_id ≡ some job_id
      → execute_item port batch_id id m now w
        ≡ run_linked port batch item job_id m now (port.get_job job_id w.jobs) w
  unfolding execute_item
  reached batch_id id m now w batch item job_id g f waits linked =
      ground (arith, g, f, waits, linked)

  -- A waiting item whose linked report job does not exist, or belongs to another tenant than the
  -- batch, is settled as a terminal failure, in the answer and in the table: the job is not executed,
  -- nothing changes on the report-job side, and the item is not eligible for a retry.
  pub execute_item-quarantines :
      (batch_id id : String) (m : ℕ) (now : Time) (w : World J) (batch : ReportBatchRecord)
      (item : ItemRow) (job_id : String)
      → IsSound w.db
      → get_batch batch_id w.db ≡ ok batch
      → fetchone (is_item id) batch.items ≡ some item
      → item.status ≡ BatchItemStatus.waiting_on_report_job
      → item.report_job_id ≡ some job_id
      → IsUnusable batch (port.get_job job_id w.jobs)
      → IsQuarantined id w (execute_item port batch_id id m now w)
  unfolding execute_item
  execute_item-quarantines batch_id id m now w batch item job_id s g f waits linked bad =
      let (h, own) = stored w.db batch_id id batch item s g f in
      let q =
        linked-IsQuarantined batch item job_id m now w (port.get_job job_id w.jobs)
          (ap (λ i. fetchone (is_item i) w.db.items) own ∙ h) bad in
      subst (λ r. IsQuarantined id w r)
        (sym (reached batch_id id m now w batch item job_id g f waits linked))
        (subst
          (λ i.
            IsQuarantined i w
              (run_linked port batch item job_id m now (port.get_job job_id w.jobs) w))
          own q)
