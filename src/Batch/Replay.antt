-- ===== src/Batch/Replay.antt =====
-- What the replay of batch items decides on, and the report-job side that it calls, which is a
-- parameter with a state of its own (src/app/report_batch_orchestrator/replay.py, and the eligibility
-- in src/app/reporting_render/replay_service.py and src/app/reporting_jobs/replay_policy.py).
pub mod Links
pub mod Service
pub mod Refusals
pub mod Foreign
pub mod Tenancy
use Prim.Native.String.{◌++◌ as text_append}
use lotus_report.Prelude.{
  ℕ, String, Bool, true, false, not, ◌&&◌, ◌||◌, Option, none, some, List, [], ◌∷◌, if◌then◌else◌,
  str_eq,
}
use lotus_report.Sql.{Result, ok, err, Call, after, fetchone}
use lotus_report.Clock.{Time}
use lotus_report.Text.{strip}
use lotus_report.Batch.Models.{BatchItemStatus, item_is, ItemRow, ReportBatchRecord}
use lotus_report.Batch.Selector.{ReportCallerContext}
use lotus_report.Batch.Admission.{get_batch, admit_batch}
use lotus_report.Batch.Ledger.Tables.{Db, LedgerError}
use lotus_report.Batch.Ledger.Items.{of_batch, mark_item_failed, relink_failed_item_for_replay}
use lotus_report.Batch.World.{JobRequest, World}
use lotus_report.Batch.Dispatch.{request_of}
use lotus_report.Batch.Execution.{
  DocumentContract, JobView, Lookup, found, absent, fault, failure, status_text,
  tenant_mismatch_category,
}
use lotus_report.Jobs.Status.{ReportJobStatus, job_is}

pub data ReplayError : Type 0 where
  ledger_error : LedgerError → ReplayError
  report_side : String → ReplayError
  missing_idempotency_key report_job_not_found : ReplayError
  report_batch_item_cannot_be_replayed report_job_cannot_be_replayed : ReplayError

-- The event of a replay's lineage, with the keys of its payload.
pub record LineageEvent : Type 0 where
  pub event_type : String
  pub replayed_job_id : Option String
  pub source_job_id : Option String

-- What `append_source_event_once` hands to `append_job_event`.
pub record EventDraft : Type 0 where
  pub event_type : String
  pub message : String
  pub replayed_job_id : String
  pub replayed_status : String
  pub batch_item_id : String
  pub source_job_id : Option String
  pub event_idempotency_key : String
  pub actor : String
  pub correlation_id : String
  pub trace_id : String

pub record Relationship : Type 0 where
  pub source_job : JobView
  pub derived_job : JobView
  pub relationship_type : String
  pub actor : String
  pub reason : String
  pub new_archive_document_id : Option String

-- BatchReplayReportJobLedger. An exception is its text; `rejects` is the message with which the
-- request's validators refuse it.
pub record ReplayJobs (J : Type 0) : Type 0 where
  pub get_job : String → J → Lookup
  pub list_status_events : String → J → Result String (List LineageEvent)
  pub rejects : JobRequest → Option String
  pub create_portfolio_review_job :
      JobRequest → ReportCallerContext → String → J → Result String JobView × J
  pub upsert_job_relationship : Relationship → J → Result String (Unit {0}) × J
  pub append_job_event : String → EventDraft → J → Result String (Unit {0}) × J

pub record BatchItemReplayResult : Type 0 where
  pub batch_id : String
  pub item : ItemRow
  pub source_report_job : JobView
  pub replayed_report_job : JobView
  pub idempotency_key : String

pub data ReplayBranch : Type 0 where
  idempotent_replay new_replay : ReplayBranch

-- `item.report_job_id` where it is neither None nor empty
abbrev pub linked_job : ItemRow → Option String
linked_job item = elim item.report_job_id [
  | none ↦ none
  | some id ↦ if str_eq id "" then none else some id
]

-- `_replay_branch_for`
unfoldable pub replay_branch_for : ItemRow → Option ReplayBranch
replay_branch_for item = elim (linked_job item) [
  | none ↦ none
  | some id ↦
      if item_is item.status BatchItemStatus.waiting_on_report_job
      then some ReplayBranch.idempotent_replay
      else if item_is item.status BatchItemStatus.failed_retryable && item.retry_eligible
      then some ReplayBranch.new_replay
      else none
]

-- `_batch_item_replay_idempotency_key`
unfoldable pub replay_key : String → Option String → Result ReplayError String
replay_key batch_item_id none = err ReplayError.missing_idempotency_key
replay_key batch_item_id (some key) =
    if str_eq (strip key) ""
    then err ReplayError.missing_idempotency_key
    else ok
        (text_append "batch-item-replay:" (text_append batch_item_id (text_append ":" (strip key))))

-- The template version that a contract's version stands for
abbrev pub composite_template : Option DocumentContract → Option String
composite_template none = none
composite_template (some c) = elim c.report_data_contract_version [
  | none ↦ none
  | some v ↦
      if str_eq v "composite_review.v8"
      then some "v8"
      else if str_eq v "composite_review.v9"
      then some "v9"
      else none
]

abbrev pub text_is : Option String → String → Bool
text_is none t = false
text_is (some s) t = str_eq s t

abbrev pub only_format : List String → String → Bool
only_format [] f = false
only_format (g ∷ []) f = str_eq g f
only_format (g ∷ h ∷ gs) f = false

unfoldable pub resolution_replay_supported : JobView → Bool
resolution_replay_supported job =
    str_eq job.report_type "portfolio_review"
    || str_eq job.report_type "composite_review"
      && only_format job.requested_output_formats "xlsx"
      && text_is job.render_template_id "composite-review"
      && (elim (composite_template job.accepted_document_contract) [
        | none ↦ false
        | some template ↦ text_is job.render_template_version template
      ])

abbrev pub archive_failure : Option String → Bool
archive_failure category =
    text_is category "archive_outcome_unknown"
    || text_is category "archive_handoff_failed"
    || text_is category "archive_handoff_not_configured"

abbrev pub has_text : Option String → Bool
has_text none = false
has_text (some s) = not (str_eq s "")

-- `assert_replay_eligible`: whether it returns without raising
unfoldable pub is_replay_eligible : JobView → Bool
unfolding resolution_replay_supported
is_replay_eligible job =
    resolution_replay_supported job
    && not (str_eq job.report_type "composite_review" && not (archive_failure job.failure_category))
    && job_is job.status ReportJobStatus.failed
    && job.retry_eligible
    && not (has_text job.archive_document_id)

-- BatchRetryPolicy().max_attempts
abbrev pub default_max_attempts : ℕ
default_max_attempts = 3

abbrev pub dangling_link_category : String
dangling_link_category = "batch_item_link_dangling"

abbrev pub dangling_summary : String
dangling_summary =
    "Linked report job no longer exists; replay refused and the item quarantined as a dangling link for operator review."

abbrev pub foreign_summary : String
foreign_summary =
    "Linked report job belongs to a different tenant than its batch; replay refused and the item quarantined for operator review."

abbrev pub lineage_type : String
lineage_type = "batch_item_replay_lineage_bound"

-- The first lineage event that names a source job
abbrev pub lineage_source : List LineageEvent → Option String
lineage_source [] = none
lineage_source (e ∷ es) =
    let rest = lineage_source es in
    if str_eq e.event_type lineage_type
    then (elim e.source_job_id [ none ↦ rest | some id ↦ some id ])
    else rest

abbrev pub already_appended : String → String → List LineageEvent → Bool
already_appended event_type replayed_job_id [] = false
already_appended event_type replayed_job_id (e ∷ es) =
    str_eq e.event_type event_type && text_is e.replayed_job_id replayed_job_id
    || already_appended event_type replayed_job_id es
