-- ===== src/Jobs/Transition/Marks.antt =====
-- The `mark_*` operations: the keyword arguments that each passes to `_transition_job`
-- (src/app/reporting_jobs/ledger.py).
use lotus_report.Prelude.{ℕ, String, Bool, true, false, Option, none, some, List, [], ◌∷◌}
use lotus_report.Sql.{Result, connect}
use lotus_report.Jobs.Status.{ReportJobStatus}
use lotus_report.Jobs.Tables.{JobRow, Db, JobError}
use lotus_report.Jobs.Events.{EventType}
use lotus_report.Jobs.Custody.{Context}
use lotus_report.Jobs.Transition.{Time, Change, transition_job, cancel_job}

-- What the `mark_*` operations have in common.
abbrev step_change : ReportJobStatus → String → EventType → Option String → Change
step_change to_status step event_type message = record {
  to_status = to_status;
  failure_category = none;
  failure_message = none;
  current_step = step;
  retry_eligible = false;
  event_type = event_type;
  event_message = message;
  set_started_at = true;
  set_completed_at = false;
  render_job_id = none;
  render_output_format = none;
  render_template_id = none;
  render_template_version = none;
  render_template_publication = none;
  render_artifact_sha256 = none;
  render_bounded_determinism_fingerprint = none;
  render_runtime_engine = none;
  render_runtime_engine_version = none;
  render_duration_ms = none;
  archive_request_id = none;
  archive_document_id = none;
  archive_completed_at = none;
}

abbrev pub collecting_data_change : Change
collecting_data_change =
    step_change ReportJobStatus.collecting_data "collecting_data" EventType.job_collecting_data
      (some "Portfolio review input capture started.")

unfoldable pub mark_collecting_data : String → Context → Db → Result JobError JobRow × Db
unfolding transition_job
mark_collecting_data job_id ctx = connect (transition_job job_id collecting_data_change ctx)

abbrev pub data_ready_change : Change
data_ready_change =
    step_change ReportJobStatus.data_ready "data_ready" EventType.job_data_ready
      (some "Portfolio review snapshot and lineage captured.")

unfoldable pub mark_data_ready : String → Context → Db → Result JobError JobRow × Db
unfolding transition_job
mark_data_ready job_id ctx = connect (transition_job job_id data_ready_change ctx)

abbrev pub rendering_change : String → String → String → String → Change
rendering_change render_job_id output_format template_id template_version =
    record (step_change ReportJobStatus.rendering "rendering" EventType.job_rendering
      (some "Portfolio review render started.")) {
        render_job_id = some render_job_id;
        render_output_format = some output_format;
        render_template_id = some template_id;
        render_template_version = some template_version;
      }

unfoldable pub mark_rendering :
    String → String → String → String → String → Context → Db → Result JobError JobRow × Db
unfolding transition_job
mark_rendering job_id render_job_id output_format template_id template_version ctx = connect (
    transition_job job_id
      (rendering_change render_job_id output_format template_id template_version) ctx)

-- What a finished render reports.
pub record Rendered : Type 0 where
  pub render_job_id : String
  pub output_format : String
  pub template_id : String
  pub template_version : String
  pub template_publication : Option String
  pub artifact_sha256 : Option String
  pub bounded_determinism_fingerprint : Option String
  pub runtime_engine : Option String
  pub runtime_engine_version : Option String
  pub render_duration_ms : Option ℕ

abbrev pub completed_change : Rendered → Change
completed_change rendered =
    record (step_change ReportJobStatus.completed "completed" EventType.job_completed
      (some "Portfolio review render completed.")) {
        set_completed_at = true;
        render_job_id = some rendered.render_job_id;
        render_output_format = some rendered.output_format;
        render_template_id = some rendered.template_id;
        render_template_version = some rendered.template_version;
        render_template_publication = rendered.template_publication;
        render_artifact_sha256 = rendered.artifact_sha256;
        render_bounded_determinism_fingerprint = rendered.bounded_determinism_fingerprint;
        render_runtime_engine = rendered.runtime_engine;
        render_runtime_engine_version = rendered.runtime_engine_version;
        render_duration_ms = rendered.render_duration_ms;
      }

unfoldable pub mark_completed : String → Rendered → Context → Db → Result JobError JobRow × Db
unfolding transition_job
mark_completed job_id rendered ctx = connect (transition_job job_id (completed_change rendered) ctx)

abbrev pub archiving_change : String → Change
archiving_change archive_request_id =
    record (step_change ReportJobStatus.archiving "archiving" EventType.job_archiving
      (some "Portfolio review archive handoff started.")) {
        archive_request_id = some archive_request_id;
      }

unfoldable pub mark_archiving : String → String → Context → Db → Result JobError JobRow × Db
unfolding transition_job
mark_archiving job_id archive_request_id ctx =
    connect (transition_job job_id (archiving_change archive_request_id) ctx)

-- `archive_completed_at` is read from the clock like the time of the transition.
abbrev pub archived_change : String → String → Time → Change
archived_change archive_request_id archive_document_id now =
    record (step_change ReportJobStatus.archived "archived" EventType.job_archived
      (some "Portfolio review archived successfully.")) {
        archive_request_id = some archive_request_id;
        archive_document_id = some archive_document_id;
        archive_completed_at = some now;
      }

unfoldable pub mark_archived : String → String → String → Context → Db → Result JobError JobRow × Db
unfolding transition_job
mark_archived job_id archive_request_id archive_document_id ctx =
    connect
      (transition_job job_id (archived_change archive_request_id archive_document_id ctx.now) ctx)

abbrev pub failed_change : String → String → Bool → Change
failed_change failure_category failure_message retry_eligible =
    record (step_change ReportJobStatus.failed "failed" EventType.job_failed
      (some failure_message)) {
        failure_category = some failure_category;
        failure_message = some failure_message;
        retry_eligible = retry_eligible;
        set_completed_at = true;
      }

unfoldable pub mark_failed :
    String → String → String → Bool → Context → Db → Result JobError JobRow × Db
unfolding transition_job
mark_failed job_id failure_category failure_message retry_eligible ctx =
    connect
      (transition_job job_id (failed_change failure_category failure_message retry_eligible) ctx)

pub data Operation : Type 0 where
  collect : Operation
  make_ready : Operation
  render : String → String → String → String → Operation
  complete : Rendered → Operation
  start_archive : String → Operation
  archive : String → String → Operation
  fail : String → String → Bool → Operation
  cancel : Operation

-- The tables after one operation on a job, whatever it returns or raises.
unfoldable pub apply : String → Operation → Context → Db → Db
unfolding mark_collecting_data mark_data_ready mark_rendering mark_completed mark_archiving
    mark_archived mark_failed cancel_job
apply job_id collect ctx db = (mark_collecting_data job_id ctx db).1
apply job_id make_ready ctx db = (mark_data_ready job_id ctx db).1
apply job_id (render r f t v) ctx db = (mark_rendering job_id r f t v ctx db).1
apply job_id (complete rendered) ctx db = (mark_completed job_id rendered ctx db).1
apply job_id (start_archive a) ctx db = (mark_archiving job_id a ctx db).1
apply job_id (archive a d) ctx db = (mark_archived job_id a d ctx db).1
apply job_id (fail c m e) ctx db = (mark_failed job_id c m e ctx db).1
apply job_id cancel ctx db = (cancel_job job_id ctx db).1

-- Any sequence of operations on any jobs, by any callers.
unfoldable pub run : List (String × Operation × Context) → Db → Db
unfolding apply
run [] db = db
run ((job_id, op, ctx) ∷ ops) db = run ops (apply job_id op ctx db)
