-- ===== src/Batch/Replay/Refusals.antt =====
-- An item that no replay can act on is left alone, and an item whose link is unusable is settled.
use lotus_report.Prelude.{
  String, false, ◌≡◌, refl, inl, inr, Option, none, some, arith, Option-cases, Bool-cases, str_eq,
}
use mathlib.Core.Option
use lotus_report.Sql.{Result, ok, err, fetchone, Result-cases}
use lotus_report.Clock.{Time}
use lotus_report.Batch.Models.{BatchItemStatus, ItemRow, ReportBatchRecord}
use lotus_report.Batch.Selector.{ReportCallerContext}
use lotus_report.Batch.Admission.{load_admitted_batch}
use lotus_report.Batch.Ledger.Tables.{LedgerError, is_item}
use lotus_report.Batch.Ledger.Items.{of_batch}
use lotus_report.Batch.World.{World}
use lotus_report.Batch.Execution.{Lookup, found, absent, fault}
use lotus_report.Batch.Replay.{
  ReplayError, ReplayJobs, BatchItemReplayResult, replay_branch_for, replay_key,
}
use lotus_report.Batch.Replay.Links.{refuse_foreign_linked_job, observe_terminal_item_link}
use lotus_report.Batch.Replay.Service.{replay_admitted, replay_item}

module _ {J : Type 0} (reason : String) (caller : ReportCallerContext)
    (idempotency_key : Option String) (now : Time) (w : World J) where
  observed :
      (port : ReplayJobs J) (batch : ReportBatchRecord) (id : String) (l : Lookup)
      → port.get_job id w.jobs ≡ l
      → observe_terminal_item_link port batch id w ≡ (ok tt, w)
  unfolding observe_terminal_item_link
  observed port batch id absent e = ground (arith, e)
  observed port batch id (fault text) e = ground (arith, e)
  observed port batch id (found job) e = elim (Bool-cases (str_eq job.tenant_id batch.tenant_id)) [
    | inl t ↦ ground (arith, e, t)
    | inr t ↦ ground (arith, e, t)
  ]

  module _ (batch : ReportBatchRecord) (batch_id id : String) where
    Refused : ReplayError → Type 0
    Refused e =
        (port : ReplayJobs J)
        → replay_admitted port batch batch_id id reason caller idempotency_key now w ≡ (err e, w)

    idle-Refused :
        (item : ItemRow)
        → fetchone (of_batch batch_id id) w.db.items ≡ some item
        → replay_branch_for item ≡ none
        → (e : ReplayError) × Refused e
    unfolding replay_admitted refuse_foreign_linked_job Refused
    idle-Refused item f idle = elim (Result-cases (replay_key id idempotency_key)) [
      | inl (e, k) ↦ (e, λ port. ground (arith, f, k))
      | inr (key, k) ↦ (
        ReplayError.report_batch_item_cannot_be_replayed,
        λ port. elim (Option-cases item.report_job_id) [
          | inl n ↦ ground (arith, f, k, idle, n)
          | inr (job_id, l) ↦
              let seen = observed port batch job_id (port.get_job job_id w.jobs) refl in
              ground (arith, f, k, idle, l, seen)
        ],
      )
    ]

    idle_or_absent :
        ((item : ItemRow)
          → fetchone (of_batch batch_id id) w.db.items ≡ some item
          → replay_branch_for item ≡ none)
        → (e : ReplayError) × Refused e
    unfolding replay_admitted Refused
    idle_or_absent idle = elim (Option-cases (fetchone (of_batch batch_id id) w.db.items)) [
      | inl n ↦ (
        ReplayError.ledger_error LedgerError.report_batch_item_not_found,
        λ port. ground (arith, n),
      )
      | inr (item, f) ↦ idle-Refused item f (idle item f)
    ]

  -- Whatever a caller asks for, a replay of an item that no branch acts on, in any status but waiting
  -- or failed and eligible for a retry, or without a link, is refused and changes nothing on
  -- either side. The refusal is one and the same for every report-job side: where the item has a
  -- link it is looked up, but neither what that gives nor what it raises is passed on.
  pub replay_item-idle :
      (batch_id id : String)
      → ((item : ItemRow)
          → fetchone (of_batch batch_id id) w.db.items ≡ some item
          → replay_branch_for item ≡ none)
      → (e : ReplayError) × ((port : ReplayJobs J)
          → replay_item port batch_id id reason caller idempotency_key now w ≡ (err e, w))
  unfolding replay_item Refused
  replay_item-idle batch_id id idle =
      elim (Result-cases (load_admitted_batch batch_id caller w.db)) [
        | inl (e, k) ↦ (ReplayError.ledger_error e, λ port. ground (arith, k))
        | inr (batch, k) ↦
            let (e, h) = idle_or_absent batch batch_id id idle in
            (e, λ port. let same = h port in ground (arith, k, same))
      ]

-- The replay was refused, the item is settled as a terminal failure that is not retried, and the
-- report-job side is as it was.
pub record IsSettled {J : Type 0} (id : String) (before : World J)
    (run : Result ReplayError BatchItemReplayResult × World J) : Type 0 where
  pub refused : run.0 ≡ err ReplayError.report_batch_item_cannot_be_replayed
  pub row : ItemRow
  pub stored : fetchone (is_item id) run.1.db.items ≡ some row
  pub row_status : row.status ≡ BatchItemStatus.failed_terminal
  pub not_retried : row.retry_eligible ≡ false
  pub untouched : run.1.jobs ≡ before.jobs
