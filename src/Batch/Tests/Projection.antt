-- ===== src/Batch/Tests/Projection.antt =====
-- The theorem on the projection of a batch, at an item whose job is archived and one whose job is foreign.
use lotus_report.Prelude.{Bool, true, false, is_none, ◌≡◌, refl, some, List, [], ◌∷◌, All, map}
use lotus_report.Sql.{select, sort_rows, is_in}
use lotus_report.Text.{text_le, sort_texts}
use lotus_report.Batch.Models.{ItemRow}
use lotus_report.Batch.Projection.{
  BatchItemStatusResponse, batch_item_statuses, load_report_job_archive_statuses, status_of,
}
use lotus_report.Batch.Projection.Tenant.{ShowsOwn, projection-ShowsOwn}
use lotus_report.Jobs.Status.{ReportJobStatus}
use lotus_report.Jobs.Tables.{JobRow, Db}
use lotus_report.Jobs.Tests.{accepted_job}
use lotus_report.Batch.Tests.{item}

abbrev archived_row : JobRow
archived_row = record accepted_job {
  status = ReportJobStatus.archived;
  archive_document_id = some "document-1";
}

abbrev foreign_row : JobRow
foreign_row = record archived_row { report_job_id = "job-2"; tenant_id = "other-bank" }

abbrev linked_items : List ItemRow
linked_items =
    record (item 1 "PF-2") { report_job_id = some "job-1" }
    ∷ record (item 2 "PF-1") { report_job_id = some "job-2" }
    ∷ []

abbrev both_jobs : Db
both_jobs = record { jobs = archived_row ∷ foreign_row ∷ []; work_items = []; events = [] }

abbrev document : BatchItemStatusResponse → Bool
document r = is_none r.archive_document_id

shown_once :
    map document (
      batch_item_statuses linked_items
        (load_report_job_archive_statuses linked_items "private-bank" both_jobs))
    ≡ false ∷ true ∷ []
unfolding batch_item_statuses load_report_job_archive_statuses status_of select sort_rows sort_texts
    is_in text_le
shown_once = refl

projection-ShowsOwn_example : All (ShowsOwn "private-bank" both_jobs.jobs) (
    batch_item_statuses linked_items
      (load_report_job_archive_statuses linked_items "private-bank" both_jobs))
projection-ShowsOwn_example = projection-ShowsOwn linked_items "private-bank" both_jobs
