-- ===== src/Jobs/Tests.antt =====
-- The theorems on the lifecycle of report jobs at a small table.
mod Queue
mod Ports
use lotus_report.Prelude.{String, ◌≡◌, refl, true, false, none, some, List, [], ◌∷◌, arith}
use lotus_report.Sql.{ok, fetchone, rowcount, update, IsUnique}
use lotus_report.Jobs.Status.{ReportJobStatus}
use lotus_report.Jobs.Tables.{JobRow, Db, is_job}
use lotus_report.Jobs.Events.{EventType, StatusEvent, empty_payload}
use lotus_report.Jobs.Custody.{Context}
use lotus_report.Jobs.Transition.{
  apply_change, status_event, transition_event_payload, transition_job,
}
use lotus_report.Jobs.Transition.Marks.{Operation, rendering_change, apply, run}
use lotus_report.Jobs.Transition.History.{replays, IsAudited, run-IsAudited}
use lotus_report.Jobs.Transition.Terminal.{IsFollowed, apply-IsFollowed, run-terminal}
use lotus_report.Jobs.Transition.Progress.{HasMoved, transition-progress}

abbrev pub worker : Context
worker = record {
  actor = "worker-1";
  correlation_id = "corr-1";
  trace_id = "trace-1";
  identity = none;
  guard_now = 1000000;
  now = 1000001;
  event_id = "rse_1";
}

abbrev pub accepted_job : JobRow
accepted_job = record {
  report_job_id = "job-1";
  report_request_id = "req-1";
  tenant_id = "private-bank";
  region = "SG";
  correlation_id = "corr-1";
  trace_id = "trace-1";
  status = ReportJobStatus.accepted;
  failure_category = none;
  failure_message = none;
  current_step = "accepted";
  retry_eligible = false;
  cancel_requested = false;
  created_at = 1000;
  updated_at = 1000;
  started_at = none;
  completed_at = none;
  cancelled_at = none;
  render_job_id = none;
  render_output_format = none;
  render_template_id = none;
  render_template_version = none;
  render_template_publication = none;
  render_artifact_sha256 = none;
  render_bounded_determinism_fingerprint = none;
  render_runtime_engine = none;
  render_runtime_engine_version = none;
  render_duration_ms = none;
  archive_request_id = none;
  archive_document_id = none;
  archive_completed_at = none;
  custody_policy = none;
  custody_state = none;
  custody_epoch = 0;
  custody_initial_count = 0;
  custody_dispatch_count = 0;
  custody_poll_count = 0;
  custody_window_started_at = none;
  custody_next_attempt_at = none;
  custody_reason = none;
  render_offer_body = none;
  render_offer_sha256 = none;
  custody_verification_json = none;
}

abbrev pub accepted_event : StatusEvent
accepted_event = record {
  status_event_id = "rse_0";
  report_job_id = "job-1";
  from_status = none;
  to_status = ReportJobStatus.accepted;
  event_type = EventType.job_accepted;
  event_family = "job_lifecycle";
  event_payload = record empty_payload { report_type = some "portfolio_review" };
  message = none;
  actor = "gateway";
  created_at = 1000;
  correlation_id = "corr-1";
  trace_id = "trace-1";
}

abbrev with_job : JobRow → Db
with_job r = record { jobs = r ∷ []; work_items = []; events = accepted_event ∷ [] }

abbrev script : List (String × Operation × Context)
script =
    ("job-1", Operation.collect, worker)
    ∷ ("job-1", Operation.make_ready, worker)
    ∷ ("job-1", Operation.render "render-1" "pdf" "template-1" "v1", worker)
    ∷ ("job-1", Operation.fail "render_failed" "no engine" true, worker)
    ∷ ("job-1", Operation.archive "request-1" "document-1", worker)
    ∷ ("job-2", Operation.cancel, worker)
    ∷ []

pub one_job : (r : JobRow) → IsUnique (λ (j : JobRow). j.report_job_id) (r ∷ [])
unfolding rowcount
one_job r k = ground arith

run-IsAudited_example : IsAudited (run script (with_job accepted_job))
unfolding replays
run-IsAudited_example =
    run-IsAudited script (with_job accepted_job)
      (record { history = (refl, tt); job_ids = one_job accepted_job })

apply-IsFollowed_example :
    IsFollowed "job-1" accepted_job
      (apply "job-1" Operation.make_ready worker (with_job accepted_job))
unfolding fetchone
apply-IsFollowed_example =
    apply-IsFollowed "job-1" accepted_job (with_job accepted_job) refl "job-1" Operation.make_ready
      worker

abbrev archived_job : JobRow
archived_job = record accepted_job {
  status = ReportJobStatus.archived;
  archive_document_id = some "document-1";
}

run-terminal_example :
    (next : JobRow) × (fetchone (is_job "job-1") (run script (with_job archived_job)).jobs
      ≡ some next)
    × (next.status ≡ ReportJobStatus.archived)
    × (next.archive_document_id ≡ some "document-1")
unfolding fetchone
run-terminal_example = run-terminal script "job-1" archived_job (with_job archived_job) refl refl

abbrev ready_job : JobRow
ready_job = record accepted_job { status = ReportJobStatus.data_ready }

transition-progress_example :
    HasMoved "job-1"
      (rendering_change "render-1" "pdf" "template-1" "v1")
      worker
      ready_job
      (with_job ready_job)
      (transition_job "job-1"
        (rendering_change "render-1" "pdf" "template-1" "v1")
        worker
        (with_job ready_job))
unfolding fetchone
transition-progress_example =
    transition-progress "job-1" (rendering_change "render-1" "pdf" "template-1" "v1") worker
      ready_job (with_job ready_job) refl (record { policy = refl; state = refl; offer = refl })
      (one_job ready_job) refl refl
