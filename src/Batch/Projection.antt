-- ===== src/Batch/Projection.antt =====
-- src/app/report_batch_orchestrator/status_projection.py: what a caller sees of a batch, with the status
-- and the document of its items' report jobs, and the lookup of both in
-- src/app/reporting_jobs/ledger.py.
pub mod Tenant
use lotus_report.Prelude.{
  ℕ, zero, suc, ◌+◌, String, Bool, true, false, ◌&&◌, ◌||◌, Option, none, some, List, [], ◌∷◌, ◌++◌,
  map, if◌then◌else◌, str_eq,
}
use lotus_report.Sql.{select, sort_rows, is_in}
use lotus_report.Clock.{Time}
use lotus_report.Text.{text_le, sort_texts}
use lotus_report.Batch.Models.{BatchStatus, BatchItemStatus, item_is, ItemRow, ReportBatchRecord}
use lotus_report.Jobs.Status.{ReportJobStatus, job_is}
use lotus_report.Jobs.Tables.{JobRow, Db}

pub record ReportJobArchiveStatusRecord : Type 0 where
  pub report_job_id : String
  pub status : ReportJobStatus
  pub archive_document_id : Option String

-- The distinct texts that are not empty
abbrev pub distinct : List String → List String
distinct [] = []
distinct (t ∷ ts) = let rest = distinct ts in if str_eq t "" || is_in rest t then rest else t ∷ rest

abbrev pub join_first : String → List (List String) → List (List String)
join_first t [] = (t ∷ []) ∷ []
join_first t (g ∷ gs) = (t ∷ g) ∷ gs

-- Chunks of 500, of which the first has room for some more.
abbrev pub chunks : ℕ → List String → List (List String)
chunks room [] = []
chunks zero (t ∷ ts) = [] ∷ join_first t (chunks 499 ts)
chunks (suc room) (t ∷ ts) = join_first t (chunks room ts)

-- report_request.tenant_id = ? AND report_job.report_job_id IN (...)
abbrev pub in_chunk : String → List String → JobRow → Bool
in_chunk tenant_id ids r = str_eq r.tenant_id tenant_id && is_in ids r.report_job_id

abbrev pub archive_status : JobRow → ReportJobArchiveStatusRecord
archive_status r = record {
  report_job_id = r.report_job_id;
  status = r.status;
  archive_document_id = r.archive_document_id;
}

abbrev pub chunk_statuses :
    String → List JobRow → List (List String) → List ReportJobArchiveStatusRecord
chunk_statuses tenant_id jobs [] = []
chunk_statuses tenant_id jobs (ids ∷ chunks) =
    map archive_status (
      sort_rows (λ a b. text_le a.report_job_id b.report_job_id)
        (select (in_chunk tenant_id ids) jobs))
    ++ chunk_statuses tenant_id jobs chunks

unfoldable pub get_archive_statuses_by_job_ids :
    List String → String → Db → List ReportJobArchiveStatusRecord
get_archive_statuses_by_job_ids job_ids tenant_id db =
    chunk_statuses tenant_id db.jobs (chunks 500 (sort_texts (distinct job_ids)))

abbrev pub linked_ids : List ItemRow → List String
linked_ids [] = []
linked_ids (r ∷ rs) = elim r.report_job_id [ none ↦ linked_ids rs | some id ↦ id ∷ linked_ids rs ]

-- The dictionary of the answers by their job, in which a later answer replaces an earlier one.
unfoldable pub status_of :
    String → List ReportJobArchiveStatusRecord → Option ReportJobArchiveStatusRecord
status_of id [] = none
status_of id (s ∷ ss) = elim (status_of id ss) [
  | some t ↦ some t
  | none ↦ if str_eq s.report_job_id id then some s else none
]

unfoldable pub load_report_job_archive_statuses :
    List ItemRow → String → Db → List ReportJobArchiveStatusRecord
unfolding get_archive_statuses_by_job_ids
load_report_job_archive_statuses items tenant_id db =
    get_archive_statuses_by_job_ids (sort_texts (distinct (linked_ids items))) tenant_id db

pub record BatchItemStatusResponse : Type 0 where
  pub batch_item_id : String
  pub item_position : ℕ
  pub portfolio_id : String
  pub status : BatchItemStatus
  pub report_job_id : Option String
  pub report_job_status : Option ReportJobStatus
  pub archive_document_id : Option String
  pub attempt_count : ℕ
  pub retry_eligible : Bool
  pub next_retry_at : Option Time
  pub last_error_category : Option String
  pub last_error_summary : Option String
  pub created_at : Time
  pub started_at : Option Time
  pub completed_at : Option Time
  pub cancelled_at : Option Time

-- `linked_report_job`
abbrev pub linked_report_job :
    Option String → Option ReportJobArchiveStatusRecord → Option ReportJobArchiveStatusRecord
linked_report_job (some id) (some s) = if str_eq s.report_job_id id then some s else none
linked_report_job _ _ = none

abbrev pub job_status : Option ReportJobArchiveStatusRecord → Option ReportJobStatus
job_status none = none
job_status (some s) = some s.status

abbrev pub shown_document : Option ReportJobArchiveStatusRecord → Option String
shown_document none = none
shown_document (some s) =
    if job_is s.status ReportJobStatus.archived then s.archive_document_id else none

unfoldable pub build_batch_item_status :
    ItemRow → Option ReportJobArchiveStatusRecord → BatchItemStatusResponse
build_batch_item_status item report_job = record {
  batch_item_id = item.batch_item_id;
  item_position = item.item_position;
  portfolio_id = item.portfolio_id;
  status = item.status;
  report_job_id = item.report_job_id;
  report_job_status = job_status (linked_report_job item.report_job_id report_job);
  archive_document_id = shown_document (linked_report_job item.report_job_id report_job);
  attempt_count = item.attempt_count;
  retry_eligible = item.retry_eligible;
  next_retry_at = item.next_retry_at;
  last_error_category = item.last_error_category;
  last_error_summary = item.last_error_summary;
  created_at = item.created_at;
  started_at = item.started_at;
  completed_at = item.completed_at;
  cancelled_at = item.cancelled_at;
}

-- `report_jobs_by_id.get(item.report_job_id) if item.report_job_id else None`
abbrev pub report_job_of :
    List ReportJobArchiveStatusRecord → ItemRow → Option ReportJobArchiveStatusRecord
report_job_of report_jobs item = elim item.report_job_id [
  | none ↦ none
  | some id ↦ if str_eq id "" then none else status_of id report_jobs
]

-- The items of `build_batch_status`
unfoldable pub batch_item_statuses :
    List ItemRow → List ReportJobArchiveStatusRecord → List BatchItemStatusResponse
unfolding build_batch_item_status
batch_item_statuses items report_jobs =
    map (λ item. build_batch_item_status item (report_job_of report_jobs item)) items
