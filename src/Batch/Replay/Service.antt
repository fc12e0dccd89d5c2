-- ===== src/Batch/Replay/Service.antt =====
-- src/app/report_batch_orchestrator/replay.py: a failed item of a batch is replayed as a new report job,
-- or the replay that was asked for before is found again.
use Prim.Native.String.{◌++◌ as text_append}
use lotus_report.Prelude.{String, Option, none, some, if◌then◌else◌}
use lotus_report.Sql.{ok, err, Call, after, fetchone}
use lotus_report.Clock.{Time}
use lotus_report.Batch.Models.{ItemRow, ReportBatchRecord}
use lotus_report.Batch.Selector.{ReportCallerContext}
use lotus_report.Batch.Admission.{load_admitted_batch}
use lotus_report.Batch.Ledger.Tables.{LedgerError}
use lotus_report.Batch.Ledger.Items.{of_batch, relink_failed_item_for_replay}
use lotus_report.Batch.World.{World}
use lotus_report.Batch.Dispatch.{request_of}
use lotus_report.Batch.Execution.{JobView, status_text}
use lotus_report.Batch.Replay.{
  Relationship, ReplayError, EventDraft, ReplayJobs, BatchItemReplayResult, ReplayBranch,
  replay_branch_for, replay_key, is_replay_eligible, default_max_attempts, lineage_type,
  already_appended,
}
use lotus_report.Batch.Replay.Links.{
  at_ledger, at_jobs, load_job, events_of, refuse_foreign_linked_job, replay_again,
}

abbrev pub event_key : String → String → String → String
event_key event_type job_id replayed_job_id =
    text_append event_type (text_append ":" (text_append job_id (text_append ":" replayed_job_id)))

abbrev pub requested_draft : String → String → ReportCallerContext → JobView → JobView → EventDraft
requested_draft batch_item_id reason caller source replayed = record {
  event_type = "batch_item_replay_requested";
  message = text_append "Batch item " (
      text_append batch_item_id (
        text_append " replay requested as "
          (text_append replayed.job_id (text_append ": " reason))));
  replayed_job_id = replayed.job_id;
  replayed_status = status_text replayed.status;
  batch_item_id = batch_item_id;
  source_job_id = none;
  event_idempotency_key = event_key "batch_item_replay_requested" source.job_id replayed.job_id;
  actor = caller.triggered_by;
  correlation_id = caller.correlation_id;
  trace_id = caller.trace_id;
}

abbrev pub lineage_draft : String → ReportCallerContext → JobView → JobView → EventDraft
lineage_draft batch_item_id caller source replayed = record {
  event_type = lineage_type;
  message = text_append "Batch item replay source job " (text_append source.job_id ".");
  replayed_job_id = source.job_id;
  replayed_status = status_text source.status;
  batch_item_id = batch_item_id;
  source_job_id = some source.job_id;
  event_idempotency_key = event_key lineage_type replayed.job_id source.job_id;
  actor = caller.triggered_by;
  correlation_id = caller.correlation_id;
  trace_id = caller.trace_id;
}

abbrev pub relation_of : String → ReportCallerContext → JobView → JobView → Relationship
relation_of reason caller source replayed = record {
  source_job = source;
  derived_job = replayed;
  relationship_type = "batch_item_replay";
  actor = caller.triggered_by;
  reason = reason;
  new_archive_document_id = replayed.archive_document_id;
}

-- idempotency_key or ""
abbrev pub raw_text : Option String → String
raw_text none = ""
raw_text (some t) = t

module _ {J : Type 0} (port : ReplayJobs J) where
  -- `append_source_event_once`
  unfoldable pub append_source_event_once :
      String → EventDraft → Call (World J) ReplayError (Unit {0})
  append_source_event_once job_id draft w = after (events_of port job_id w) λ events w1.
      if already_appended draft.event_type draft.replayed_job_id events
      then (ok tt, w1)
      else at_jobs (port.append_job_event job_id draft) w1

  -- `_request_for_item` and the creation of the replay
  unfoldable pub create_replay :
      ReportBatchRecord
      → ItemRow
      → ReportCallerContext
      → String
      → Call (World J) ReplayError JobView
  create_replay batch item caller key w = elim (port.rejects (request_of batch item)) [
    | some text ↦ (err (ReplayError.report_side text), w)
    | none ↦ at_jobs (port.create_portfolio_review_job (request_of batch item) caller key) w
  ]

  -- What follows the creation: the relationship, the link and the two events
  unfoldable pub bind_replay :
      ReportBatchRecord
      → String
      → String
      → ReportCallerContext
      → String
      → Time
      → JobView
      → JobView
      → Call (World J) ReplayError BatchItemReplayResult
  unfolding append_source_event_once
  bind_replay batch batch_item_id reason caller raw_key now source replayed w =
      after (at_jobs (port.upsert_job_relationship (relation_of reason caller source replayed)) w)
        λ _ w1.
          after
            (at_ledger
              (relink_failed_item_for_replay batch.batch_id batch_item_id replayed.job_id
                default_max_attempts now)
              w1)
            λ linked w2.
              after
                (append_source_event_once source.job_id
                  (requested_draft batch_item_id reason caller source replayed) w2)
                λ _ w3.
                  after
                    (append_source_event_once replayed.job_id
                      (lineage_draft batch_item_id caller source replayed) w3)
                    (λ _ w4. (
                      ok (record {
                        batch_id = batch.batch_id;
                        item = linked;
                        source_report_job = source;
                        replayed_report_job = replayed;
                        idempotency_key = raw_key;
                      }),
                      w4,
                    ))

  -- The branch that creates a new report job
  unfoldable pub replay_new :
      ReportBatchRecord
      → ItemRow
      → String
      → String
      → ReportCallerContext
      → String
      → String
      → Time
      → Call (World J) ReplayError BatchItemReplayResult
  unfolding create_replay bind_replay
  replay_new batch item report_job_id reason caller key raw_key now w =
      after (load_job port report_job_id w) λ source w1.
        if is_replay_eligible source
        then after (create_replay batch item caller key w1) (λ replayed w2.
          bind_replay batch item.batch_item_id reason caller raw_key now source replayed w2)
        else (err ReplayError.report_job_cannot_be_replayed, w1)

  abbrev pub replay_linked :
      ReportBatchRecord
      → ItemRow
      → String
      → ReportCallerContext
      → String
      → String
      → Time
      → Option ReplayBranch
      → Option String
      → Call (World J) ReplayError BatchItemReplayResult
  replay_linked batch item reason caller key raw_key now (some ReplayBranch.idempotent_replay)
        (some report_job_id) w =
      replay_again port batch item report_job_id key raw_key w
  replay_linked batch item reason caller key raw_key now (some ReplayBranch.new_replay)
        (some report_job_id) w =
      replay_new batch item report_job_id reason caller key raw_key now w
  replay_linked batch item reason caller key raw_key now branch linked w =
      (err ReplayError.report_batch_item_cannot_be_replayed, w)

  -- Past the admission of the batch
  unfoldable pub replay_admitted :
      ReportBatchRecord
      → String
      → String
      → String
      → ReportCallerContext
      → Option String
      → Time
      → Call (World J) ReplayError BatchItemReplayResult
  unfolding refuse_foreign_linked_job replay_again replay_new
  replay_admitted batch batch_id batch_item_id reason caller idempotency_key now w =
      elim (fetchone (of_batch batch_id batch_item_id) w.db.items) [
        | none ↦ (err (ReplayError.ledger_error LedgerError.report_batch_item_not_found), w)
        | some item ↦ elim (replay_key batch_item_id idempotency_key) [
          | err e ↦ (err e, w)
          | ok key ↦
              after (refuse_foreign_linked_job port batch item (replay_branch_for item) now w)
                λ _ w1.
                  replay_linked batch item reason caller key (raw_text idempotency_key) now
                    (replay_branch_for item) item.report_job_id w1
        ]
      ]

  unfoldable pub replay_item :
      String
      → String
      → String
      → ReportCallerContext
      → Option String
      → Time
      → Call (World J) ReplayError BatchItemReplayResult
  unfolding replay_admitted
  replay_item batch_id batch_item_id reason caller idempotency_key now w =
      elim (load_admitted_batch batch_id caller w.db) [
        | err e ↦ (err (ReplayError.ledger_error e), w)
        | ok batch ↦
            replay_admitted batch batch_id batch_item_id reason caller idempotency_key now w
      ]
