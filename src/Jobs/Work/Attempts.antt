-- ===== src/Jobs/Work/Attempts.antt =====
-- A failed attempt of the holder of a lease: the item is due again, or it fails with its last attempt and
-- the job fails with it.
use Prim.Native.String.{◌++◌ as text_append}
use lotus_report.Prelude.{
  ◌≢◌, ◌+◌, ◌*◌, ◌^◌, ◌-◌, min, coalesce, ◌≡◌, String, true, false, refl, none, some, ◌∷◌, ap, sym,
  subst, ◌∙◌, str_eq, eq_iff, if◌then◌else◌, leb,
}
use lotus_report.Jobs.Events.{EventType, StatusEvent, empty_payload}
use lotus_report.Sql.{Result, ok, fetchone, update, IsUnique, fetchone-true}
use lotus_report.Clock.{Time, seconds}
use lotus_report.Text.{cut, squeeze}
use lotus_report.Jobs.Status.{ReportJobStatus, is_report_job_transition_allowed}
use lotus_report.Jobs.Tables.{WorkStatus, JobRow, WorkItemRow, Db, JobError, is_job}
use lotus_report.Jobs.Custody.{Context}
use lotus_report.Jobs.Transition.Progress.{read_back, unseen as untouched}
use lotus_report.Jobs.Work.{ReportJobWorkRetryPolicy, decide_report_job_work_failure}
use lotus_report.Jobs.Work.Custody.{is_work}
use lotus_report.Jobs.Work.Queue.{work_fence}
use lotus_report.Jobs.Work.Failure.{exhausted_change, fail_work_item, retry_or_fail}
use lotus_report.Jobs.Work.Held.{IsHeld, reads_back, written, unseen, IsWritten}
use lotus_report.Jobs.Work.Ending.{fails, exhausts-eq}

-- The item as the last failed attempt leaves it.
abbrev failed_item : String → String → ReportJobWorkRetryPolicy → Time → WorkItemRow → WorkItemRow
failed_item category summary policy now w = record w {
  status = WorkStatus.failed;
  available_at =
      now
      + seconds
          (min (policy.base_delay_seconds * 2 ^ (w.attempt_count - 1)) policy.max_delay_seconds);
  lease_owner = none;
  lease_token = none;
  lease_acquired_at = none;
  lease_expires_at = none;
  last_error_category = some (cut 80 category);
  last_error_summary = some (cut 240 (squeeze summary));
  updated_at = now;
}

-- The text that the job and its event carry.
abbrev exhausted_text : String → String
exhausted_text summary = cut 500 (
    text_append "Durable report processing exhausted its permitted attempts. "
      (cut 240 (squeeze summary)))

-- The job as it fails with its item.
abbrev failed_job : String → Time → JobRow → JobRow
failed_job summary now row = record row {
  status = ReportJobStatus.failed;
  failure_category = some "operator_intervention_required";
  failure_message = some (exhausted_text summary);
  current_step = "failed";
  retry_eligible = true;
  updated_at = now;
  started_at = coalesce row.started_at (some now);
  completed_at = some now;
}

-- The event of the failure.
abbrev failed_event : String → Context → WorkItemRow → JobRow → StatusEvent
failed_event summary ctx w row = record {
  status_event_id = ctx.event_id;
  report_job_id = row.report_job_id;
  from_status = some row.status;
  to_status = ReportJobStatus.failed;
  event_type = EventType.job_failed;
  event_family = "job_lifecycle";
  event_payload = record empty_payload {
    current_step = some "failed";
    failure_category = some "operator_intervention_required";
    failure_message = some (exhausted_text summary);
  };
  message = some (cut 240 (squeeze summary));
  actor = elim w.lease_owner [
    | none ↦ "report-job-worker"
    | some owner ↦ if str_eq owner "" then "report-job-worker" else owner
  ];
  created_at = ctx.now;
  correlation_id = row.correlation_id;
  trace_id = row.trace_id;
}

-- The item and the job have failed, the event is appended, and all else is as it was.
pub record IsExhausted (i category summary : String) (policy : ReportJobWorkRetryPolicy)
    (ctx : Context) (now : Time) (w : WorkItemRow) (row : JobRow) (before : Db)
    (run : Result JobError WorkItemRow × Db) : Type 0 where
  pub answer : run.0 ≡ ok (failed_item category summary policy now w)
  pub item :
      fetchone (is_work i) run.1.work_items ≡ some (failed_item category summary policy now w)
  pub other_items :
      (k : String)
      → k ≢ i
      → fetchone (is_work k) run.1.work_items ≡ fetchone (is_work k) before.work_items
  pub job : fetchone (is_job row.report_job_id) run.1.jobs ≡ some (failed_job summary ctx.now row)
  pub other_jobs :
      (k : String)
      → k ≢ row.report_job_id
      → fetchone (is_job k) run.1.jobs ≡ fetchone (is_job k) before.jobs
  pub event : run.1.events ≡ failed_event summary ctx w row ∷ before.events

module _ (i token : String) (w : WorkItemRow) (row : JobRow) (db : Db)
    (h : IsHeld db i token w row) where
  -- On a job outside custody, the failure of an attempt that is not the last sends the item back to
  -- the queue: it is released, waits for its next attempt from the base delay, doubled for every
  -- attempt before, up to the greatest delay, and says what went wrong. Nothing else changes: the
  -- job goes on.
  pub fail-held :
      (category summary : String) (policy : ReportJobWorkRetryPolicy) (ctx : Context) (now : Time)
      → leb policy.max_attempts w.attempt_count ≡ false
      → let wait =
          min (policy.base_delay_seconds * 2 ^ (w.attempt_count - 1)) policy.max_delay_seconds in
        IsWritten i
          (record w {
            status = WorkStatus.retry_pending;
            available_at = now + seconds wait;
            lease_owner = none;
            lease_token = none;
            lease_acquired_at = none;
            lease_expires_at = none;
            last_error_category = some (cut 80 category);
            last_error_summary = some (cut 240 (squeeze summary));
            updated_at = now;
          })
          db
          (fail_work_item i token category summary policy ctx now db)
  unfolding decide_report_job_work_failure
  fail-held category summary policy ctx now more =
      let decision = decide_report_job_work_failure w.attempt_count now policy in
      let f =
        retry_or_fail decision decision.available_at (cut 80 category) (cut 240 (squeeze summary))
          now in
      let kept =
        written i token w row db h f _ (λ x. refl)
          (fails i token w row db h category summary policy ctx now (f w)
            (record db { work_items = update (work_fence i token) f db.work_items })
            (rw more refl)) in
      let waits : decision.status ≡ WorkStatus.retry_pending = rw more refl in
      subst
        (λ s.
          IsWritten i (record (f w) { status = s }) db
            (fail_work_item i token category summary policy ctx now db))
        waits kept

  -- On a job outside custody whose lifecycle allows a failure, the failure of the last permitted attempt
  -- fails the item and the job. The item is released and says what went wrong; the job has ended,
  -- for operator intervention, and keeps its first start; the event that explains it goes from the
  -- job's status to failed, by the holder of the lease and under the job's own correlation and
  -- trace. No other item, job or event changes.
  pub fail-exhausts :
      (category summary : String) (policy : ReportJobWorkRetryPolicy) (ctx : Context) (now : Time)
      → IsUnique (λ (r : JobRow). r.report_job_id) db.jobs
      → is_report_job_transition_allowed row.status ReportJobStatus.failed ≡ true
      → leb policy.max_attempts w.attempt_count ≡ true
      → IsExhausted i category summary policy ctx now w row db
          (fail_work_item i token category summary policy ctx now db)
  unfolding decide_report_job_work_failure
  fail-exhausts category summary policy ctx now unique allowed last =
      let decision = decide_report_job_work_failure w.attempt_count now policy in
      let f =
        retry_or_fail decision decision.available_at (cut 80 category) (cut 240 (squeeze summary))
          now in
      let c = exhausted_change "operator_intervention_required" summary in
      let (stopped, e) =
        exhausts-eq i token w row db h category summary policy ctx now unique allowed last in
      let mine : row.report_job_id ≡ w.report_job_id =
        (eq_iff row.report_job_id w.report_job_id).0
          (fetchone-true (is_job w.report_job_id) db.jobs row h.job) in
      let own : fetchone (is_job row.report_job_id) db.jobs ≡ some row =
        subst (λ k. fetchone (is_job k) db.jobs ≡ some row) (sym mine) h.job in
      let as_failed : f w ≡ failed_item category summary policy now w =
        ap (λ s. record (f w) { status = s }) stopped in
      record {
        answer =
            ap (λ (q : Result JobError WorkItemRow × Db). q.0) e
            ∙ ap (λ (x : WorkItemRow). ok x) as_failed;
        item =
            ap (λ (q : Result JobError WorkItemRow × Db). fetchone (is_work i) q.1.work_items) e
            ∙ reads_back i token w row db h f (λ x. refl)
            ∙ ap (λ (x : WorkItemRow). some x) as_failed;
        other_items = λ k ne.
            ap (λ (q : Result JobError WorkItemRow × Db). fetchone (is_work k) q.1.work_items) e
            ∙ unseen i token w row db h f (λ x. refl) k ne;
        job =
            ap
              (λ (q : Result JobError WorkItemRow × Db).
                fetchone (is_job row.report_job_id) q.1.jobs)
              e
            ∙ read_back row.report_job_id c ctx row db own;
        other_jobs = λ k ne.
            ap (λ (q : Result JobError WorkItemRow × Db). fetchone (is_job k) q.1.jobs) e
            ∙ untouched row.report_job_id c ctx row db k ne;
        event = ap (λ (q : Result JobError WorkItemRow × Db). q.1.events) e;
      }
