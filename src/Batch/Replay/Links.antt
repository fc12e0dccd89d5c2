-- ===== src/Batch/Replay/Links.antt =====
-- The links out of a batch that a replay follows: the report job of an item, which must be of the tenant of
-- the batch, and the source of a replay (src/app/report_batch_orchestrator/replay.py).
use lotus_report.Prelude.{String, not, Option, none, some, List, if◌then◌else◌, str_eq}
use lotus_report.Sql.{Result, ok, err, Call, after}
use lotus_report.Clock.{Time}
use lotus_report.Batch.Models.{ItemRow, ReportBatchRecord}
use lotus_report.Batch.Ledger.Tables.{Db, LedgerError}
use lotus_report.Batch.Ledger.Items.{mark_item_failed}
use lotus_report.Batch.World.{World}
use lotus_report.Batch.Execution.{
  JobView, Lookup, found, absent, fault, failure, tenant_mismatch_category,
}
use lotus_report.Batch.Replay.{
  false, ReplayError, LineageEvent, ReplayJobs, BatchItemReplayResult, ReplayBranch,
  default_max_attempts, dangling_link_category, dangling_summary, foreign_summary, lineage_source,
}

abbrev pub from_ledger : {A : Type 0} → Result LedgerError A → Result ReplayError A
from_ledger (ok a) = ok a
from_ledger (err e) = err (ReplayError.ledger_error e)

abbrev pub from_jobs : {A : Type 0} → Result String A → Result ReplayError A
from_jobs (ok a) = ok a
from_jobs (err e) = err (ReplayError.report_side e)

abbrev pub job_answer : Lookup → Result ReplayError JobView
job_answer (found job) = ok job
job_answer absent = err ReplayError.report_job_not_found
job_answer (fault text) = err (ReplayError.report_side text)

module _ {J : Type 0} where
  abbrev pub at_ledger :
      {A : Type 0} → (Db → Result LedgerError A × Db) → Call (World J) ReplayError A
  at_ledger call w = (from_ledger (call w.db).0, record w { db = (call w.db).1 })

  abbrev pub at_jobs : {A : Type 0} → (J → Result String A × J) → Call (World J) ReplayError A
  at_jobs call w = (from_jobs (call w.jobs).0, record w { jobs = (call w.jobs).1 })

  -- An item is settled as a terminal failure, and the replay is refused.
  unfoldable pub quarantine :
      String → String → String → Time → Call (World J) ReplayError (Unit {0})
  quarantine batch_item_id category summary now w =
      after
        (at_ledger
          (mark_item_failed batch_item_id (failure category summary false default_max_attempts) now)
          w)
        (λ _ w1. (err ReplayError.report_batch_item_cannot_be_replayed, w1))

  -- `_refuse_foreign_linked_job` on the job that it looks up
  unfoldable pub refuse_foreign :
      ReportBatchRecord → ItemRow → Time → Lookup → Call (World J) ReplayError (Unit {0})
  unfolding quarantine
  refuse_foreign batch item now absent w =
      quarantine item.batch_item_id dangling_link_category dangling_summary now w
  refuse_foreign batch item now (fault text) w = (err (ReplayError.report_side text), w)
  refuse_foreign batch item now (found job) w =
      if str_eq job.tenant_id batch.tenant_id
      then (ok tt, w)
      else quarantine item.batch_item_id tenant_mismatch_category foreign_summary now w

module _ {J : Type 0} (port : ReplayJobs J) where
  -- `get_job`, which reads and changes nothing
  abbrev pub load_job : String → Call (World J) ReplayError JobView
  load_job job_id w = (job_answer (port.get_job job_id w.jobs), w)

  abbrev pub events_of : String → Call (World J) ReplayError (List LineageEvent)
  events_of job_id w = (from_jobs (port.list_status_events job_id w.jobs), w)

  -- `_observe_terminal_item_link`, without its log lines: whatever the lookup raises is caught.
  unfoldable pub observe_terminal_item_link :
      ReportBatchRecord → String → Call (World J) ReplayError (Unit {0})
  observe_terminal_item_link batch report_job_id w = elim (port.get_job report_job_id w.jobs) [
    | absent ↦ (ok tt, w)
    | fault text ↦ (ok tt, w)
    | found job ↦ if str_eq job.tenant_id batch.tenant_id then (ok tt, w) else (ok tt, w)
  ]

  -- `_refuse_foreign_linked_job`
  unfoldable pub refuse_foreign_linked_job :
      ReportBatchRecord
      → ItemRow
      → Option ReplayBranch
      → Time
      → Call (World J) ReplayError (Unit {0})
  unfolding refuse_foreign observe_terminal_item_link
  refuse_foreign_linked_job batch item branch now w = elim item.report_job_id [
    | none ↦ (ok tt, w)
    | some report_job_id ↦ elim branch [
      | none ↦
          after (observe_terminal_item_link batch report_job_id w)
            (λ _ w1. (err ReplayError.report_batch_item_cannot_be_replayed, w1))
      | some b ↦ refuse_foreign batch item now (port.get_job report_job_id w.jobs) w
    ]
  ]

  abbrev pub same_tenant_source :
      ReportBatchRecord → Option String → Call (World J) ReplayError JobView
  same_tenant_source batch none w = (err ReplayError.report_batch_item_cannot_be_replayed, w)
  same_tenant_source batch (some source_job_id) w = after (load_job source_job_id w) λ source w1.
      if not (str_eq source.tenant_id batch.tenant_id)
      then (err ReplayError.report_batch_item_cannot_be_replayed, w1)
      else (ok source, w1)

  -- `_source_job_for_replayed_job`
  unfoldable pub source_job_for_replayed_job :
      ReportBatchRecord → JobView → Call (World J) ReplayError JobView
  source_job_for_replayed_job batch replayed w =
      after (events_of replayed.job_id w)
        λ events w1. same_tenant_source batch (lineage_source events) w1

  -- The branch that finds the replay again
  unfoldable pub replay_again :
      ReportBatchRecord
      → ItemRow
      → String
      → String
      → String
      → Call (World J) ReplayError BatchItemReplayResult
  unfolding source_job_for_replayed_job
  replay_again batch item report_job_id key raw_key w =
      after (load_job report_job_id w) λ replayed w1.
        if not (str_eq replayed.idempotency_key key)
        then (err ReplayError.report_batch_item_cannot_be_replayed, w1)
        else after (source_job_for_replayed_job batch replayed w1) (λ source w2. (
          ok (record {
            batch_id = batch.batch_id;
            item = item;
            source_report_job = source;
            replayed_report_job = replayed;
            idempotency_key = raw_key;
          }),
          w2,
        ))
