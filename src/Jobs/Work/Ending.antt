-- ===== src/Jobs/Work/Ending.antt =====
-- What the failure of an attempt computes to, statement by statement.
use lotus_report.Prelude.{
  ◌≡◌, String, true, false, refl, Option, none, some, ◌∷◌, arith, ap, sym, subst, ◌∙◌, str_eq,
  eq_iff, if◌then◌else◌, leb,
}
use lotus_report.Jobs.Events.{EventType}
use lotus_report.Sql.{
  fetchone-narrower, ok, return, ◌>>◌, fetchone, update, IsUnique, bind_step, connect-returned,
  fetchone-true,
}
use lotus_report.Clock.{Time}
use lotus_report.Text.{cut-append_nonempty, cut, squeeze}
use lotus_report.Jobs.Status.{ReportJobStatus, is_report_job_transition_allowed}
use lotus_report.Jobs.Tables.{WorkStatus, work_is, JobRow, WorkItemRow, Db, is_job}
use lotus_report.Jobs.Custody.{Context}
use lotus_report.Jobs.Transition.{
  apply_change, status_event, transition_event_payload, transition_job,
}
use lotus_report.Jobs.Transition.Progress.{transition-eq}
use lotus_report.Jobs.Work.{ReportJobWorkRetryPolicy, decide_report_job_work_failure}
use lotus_report.Jobs.Work.Custody.{
  is_work, validate_work, protect_work, settle_verified_work, scheduled_at,
}
use lotus_report.Jobs.Work.Queue.{leased_under, work_fence, fenced_work, load_work}
use lotus_report.Jobs.Work.Failure.{
  exhausted_change, fail_work_item, fail_current, retry_or_fail, owner_or_worker, terminalize,
  job_of_work, fail_job, job_over,
}
use lotus_report.Jobs.Work.Held.{
  IsHeld, validated, unprotected, unsettled, scheduled, fence-writes, reads_back, loads,
}

module _ (i token : String) (w : WorkItemRow) (row : JobRow) (db : Db)
    (h : IsHeld db i token w row) where
  current : fetchone (work_fence i token) db.work_items ≡ some w
  current = fetchone-narrower (is_work i) (leased_under token) db.work_items w h.found h.held

  -- What is left to do once the item is written.
  pub fails :
      (category summary : String) (policy : ReportJobWorkRetryPolicy) (ctx : Context) (now : Time)
      (a : WorkItemRow) (d : Db)
      → let decision = decide_report_job_work_failure w.attempt_count now policy in
        let f =
          retry_or_fail decision decision.available_at
            (cut 80 category)
            (cut 240 (squeeze summary))
            now in
        ((if work_is decision.status WorkStatus.failed
                then terminalize i
                    (owner_or_worker w.lease_owner)
                    "operator_intervention_required"
                    summary
                    ctx
                else return tt)
              >> return (f w))
            (record db { work_items = update (work_fence i token) f db.work_items })
          ≡ ok (a, d)
        → fail_work_item i token category summary policy ctx now db ≡ (ok a, d)
  unfolding fail_work_item
  fails category summary policy ctx now a d rest =
      let decision = decide_report_job_work_failure w.attempt_count now policy in
      let due = decision.available_at in
      let f = retry_or_fail decision due (cut 80 category) (cut 240 (squeeze summary)) now in
      let after = record db { work_items = update (work_fence i token) f db.work_items } in
      connect-returned _ db a d (
        bind_step (validate_work i token now) _ db tt db
          (validated i w row db h.found h.job h.legacy token now)
        ∙ bind_step (settle_verified_work i ctx) _ db none db
            (unsettled i w row db h.found h.job h.legacy ctx)
        ∙ ap (λ (o : Option WorkItemRow). fail_current i token category summary policy ctx now o db)
            current
        ∙ bind_step (scheduled_at i due) _ db due db
            (scheduled i w row db h.found h.job h.legacy due)
        ∙ bind_step (fenced_work i token f) _ db tt after (fence-writes i token w row db h f)
        ∙ bind_step (load_work i) _ after (f w) after
            (loads i token w row db h f after (λ x. refl) refl)
        ∙ rest)

  open_job :
      is_report_job_transition_allowed row.status ReportJobStatus.failed ≡ true
      → job_over row.status ≡ false
  open_job allowed = ground arith

  -- The job fails with its work item.
  terminalizes :
      (f : WorkItemRow → WorkItemRow) (actor category summary : String) (ctx : Context)
      → ((x : WorkItemRow) → (f x).work_item_id ≡ x.work_item_id)
      → (f w).report_job_id ≡ w.report_job_id
      → IsUnique (λ (r : JobRow). r.report_job_id) db.jobs
      → is_report_job_transition_allowed row.status ReportJobStatus.failed ≡ true
      → str_eq category "" ≡ false
      → let c = exhausted_change category summary in
        terminalize i actor category summary ctx
          (record db { work_items = update (work_fence i token) f db.work_items })
        ≡ ok (
          tt,
          record db {
            work_items = update (work_fence i token) f db.work_items;
            jobs = update (is_job row.report_job_id) (apply_change c ctx.now) db.jobs;
            events =
                status_event row.report_job_id row.status ReportJobStatus.failed
                  EventType.job_failed
                  (transition_event_payload c)
                  c.event_message
                  (record ctx {
                    actor = actor;
                    correlation_id = row.correlation_id;
                    trace_id = row.trace_id;
                  })
                ∷ db.events;
          },
        )
  unfolding terminalize
  terminalizes f actor category summary ctx same_id same_job unique allowed given =
      let c = exhausted_change category summary in
      let by = record ctx {
        actor = actor;
        correlation_id = row.correlation_id;
        trace_id = row.trace_id;
      } in
      let after = record db { work_items = update (work_fence i token) f db.work_items } in
      let back = reads_back i token w row db h f same_id in
      let job : fetchone (is_job (f w).report_job_id) db.jobs ≡ some row = rw same_job h.job in
      let mine : row.report_job_id ≡ w.report_job_id =
        (eq_iff row.report_job_id w.report_job_id).0
          (fetchone-true (is_job w.report_job_id) db.jobs row h.job) in
      let own : fetchone (is_job row.report_job_id) db.jobs ≡ some row =
        subst (λ k. fetchone (is_job k) db.jobs ≡ some row) (sym mine) h.job in
      let joined : job_of_work i after ≡ some row = ground (arith, back, job) in
      bind_step (protect_work i false ctx) _ after false after
        (unprotected i (f w) row after back job h.legacy false ctx)
      ∙ ap (λ o. fail_job actor c ctx o after) joined
      ∙ rw (open_job allowed) (
          bind_step (transition_job row.report_job_id c by) _ after _ _ (
            transition-eq row.report_job_id c by row after own h.legacy unique allowed (
              rw
                (
                  given,
                  cut-append_nonempty 499 "D"
                      "urable report processing exhausted its permitted attempts. "
                      (cut 240 (squeeze summary)),
                )
                refl)))

  decides_failed :
      (policy : ReportJobWorkRetryPolicy) (now : Time)
      → leb policy.max_attempts w.attempt_count ≡ true
      → (decide_report_job_work_failure w.attempt_count now policy).status ≡ WorkStatus.failed
  unfolding decide_report_job_work_failure
  decides_failed policy now last = rw last refl

  pub exhausts-eq :
      (category summary : String) (policy : ReportJobWorkRetryPolicy) (ctx : Context) (now : Time)
      → IsUnique (λ (r : JobRow). r.report_job_id) db.jobs
      → is_report_job_transition_allowed row.status ReportJobStatus.failed ≡ true
      → leb policy.max_attempts w.attempt_count ≡ true
      → let decision = decide_report_job_work_failure w.attempt_count now policy in
        let f =
          retry_or_fail decision decision.available_at
            (cut 80 category)
            (cut 240 (squeeze summary))
            now in
        let c = exhausted_change "operator_intervention_required" summary in
        (decision.status ≡ WorkStatus.failed)
        × (fail_work_item i token category summary policy ctx now db ≡ (
          ok (f w),
          record db {
            work_items = update (work_fence i token) f db.work_items;
            jobs = update (is_job row.report_job_id) (apply_change c ctx.now) db.jobs;
            events =
                status_event row.report_job_id row.status ReportJobStatus.failed
                  EventType.job_failed
                  (transition_event_payload c)
                  c.event_message
                  (record ctx {
                    actor = owner_or_worker w.lease_owner;
                    correlation_id = row.correlation_id;
                    trace_id = row.trace_id;
                  })
                ∷ db.events;
          },
        ))
  exhausts-eq category summary policy ctx now unique allowed last =
      let decision = decide_report_job_work_failure w.attempt_count now policy in
      let f =
        retry_or_fail decision decision.available_at (cut 80 category) (cut 240 (squeeze summary))
          now in
      let over =
        terminalize i (owner_or_worker w.lease_owner) "operator_intervention_required" summary
          ctx in
      let after = record db { work_items = update (work_fence i token) f db.work_items } in
      let stopped = decides_failed policy now last in
      (
        stopped,
        fails category summary policy ctx now _ _ (
            ap
              (λ s.
                ((if work_is s WorkStatus.failed then over else return tt) >> return (f w)) after)
              stopped
            ∙ bind_step over (λ _. return (f w)) after tt _
                (terminalizes f (owner_or_worker w.lease_owner) "operator_intervention_required"
                  summary ctx (λ x. refl) refl unique allowed refl)),
      )
