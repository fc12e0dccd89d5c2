-- ===== src/Jobs/Transition/Progress.antt =====
-- A job outside custody takes every step that the lifecycle table allows.
use mathlib.Core.Option
use lotus_report.Prelude.{
  String, true, false, ◌||◌, ◌≡◌, ◌≢◌, coalesce, refl, none, some, List, ◌∷◌, arith, ap, ◌∙◌,
  if◌then◌else◌,
}
use lotus_report.Sql.{
  Result, fetchone-update_other, bind_step, ok, IsUnique, update, fetchone, fetchone-true,
  fetchone-update, rowcount_of_unique,
}
use lotus_report.Jobs.Status.{ReportJobStatus, job_is, is_report_job_transition_allowed}
use lotus_report.Jobs.Tables.{
  JobError, JobRow, Db, is_job, custody_immutable, custody_shape, update_jobs, append_status_event,
  load_job,
}
use lotus_report.Jobs.Events.{StatusEvent, payload_complete}
use lotus_report.Jobs.Custody.{Context, guard_transition}
use lotus_report.Jobs.Transition.{
  Change, apply_change, transition_event_payload, transition_job, transition_unguarded,
  write_status, status_event,
}

-- Custody never began for the job.
pub record IsLegacy (row : JobRow) : Type 0 where
  pub policy : row.custody_policy ≡ none
  pub state : row.custody_state ≡ none
  pub offer : row.render_offer_body ≡ none

-- The transition succeeded: what is stored of the job, and the event that was appended.
pub record HasMoved (job_id : String) (c : Change) (ctx : Context) (row : JobRow) (before : Db)
    (run : Result JobError (JobRow × Db)) : Type 0 where
  pub moved : JobRow
  pub after : Db
  pub ran : run ≡ ok (moved, after)
  pub stored : fetchone (is_job job_id) after.jobs ≡ some moved
  pub status : moved.status ≡ c.to_status
  pub category : moved.failure_category ≡ c.failure_category
  pub message : moved.failure_message ≡ c.failure_message
  pub step : moved.current_step ≡ c.current_step
  pub retry : moved.retry_eligible ≡ c.retry_eligible
  pub time : moved.updated_at ≡ ctx.now
  pub started :
      moved.started_at ≡ coalesce row.started_at (if c.set_started_at then some ctx.now else none)
  pub completed : moved.completed_at ≡ (if c.set_completed_at then some ctx.now else none)
  pub render : moved.render_job_id ≡ coalesce c.render_job_id row.render_job_id
  pub document : moved.archive_document_id ≡ coalesce c.archive_document_id row.archive_document_id
  pub scope : (moved.tenant_id ≡ row.tenant_id) × (moved.region ≡ row.region)
  pub others :
      (k : String) → k ≢ job_id → fetchone (is_job k) after.jobs ≡ fetchone (is_job k) before.jobs
  pub work_items : after.work_items ≡ before.work_items
  pub event : StatusEvent
  pub appended : after.events ≡ event ∷ before.events
  pub subject : event.report_job_id ≡ job_id
  pub origin : event.from_status ≡ some row.status
  pub target : event.to_status ≡ c.to_status
  pub kind : event.event_type ≡ c.event_type
  pub author :
      (event.actor ≡ ctx.actor)
      × (event.correlation_id ≡ ctx.correlation_id)
      × (event.trace_id ≡ ctx.trace_id)

not_refused :
    (c : Change) (ctx : Context) (row : JobRow)
    → IsLegacy row
    → (custody_immutable row (apply_change c ctx.now row)
        || custody_shape row (apply_change c ctx.now row))
      ≡ false
not_refused c ctx row l = rw (l.policy, l.state, l.offer) (ground arith)

different :
    (s t : ReportJobStatus) → is_report_job_transition_allowed s t ≡ true → job_is s t ≡ false
different s t h = ground arith

module _ (job_id : String) (c : Change) (ctx : Context) (row : JobRow) (db : Db) where
  guard_passes :
      fetchone (is_job job_id) db.jobs ≡ some row
      → IsLegacy row
      → guard_transition job_id c.to_status ctx db ≡ ok (false, db)
  unfolding guard_transition
  guard_passes found l = ground (arith, found, l.policy)

  updates :
      fetchone (is_job job_id) db.jobs ≡ some row
      → IsLegacy row
      → IsUnique (λ r. r.report_job_id) db.jobs
      → update_jobs (is_job job_id) (apply_change c ctx.now) db
        ≡ ok (tt, record db { jobs = update (is_job job_id) (apply_change c ctx.now) db.jobs })
  unfolding update_jobs
  updates found l u =
      let n =
        rowcount_of_unique (λ (r : JobRow). r.report_job_id) job_id
          (λ r.
            custody_immutable r (apply_change c ctx.now r)
            || custody_shape r (apply_change c ctx.now r))
          db.jobs row u found in
      ground (arith, n, not_refused c ctx row l)

  pub read_back :
      fetchone (is_job job_id) db.jobs ≡ some row
      → fetchone (is_job job_id) (update (is_job job_id) (apply_change c ctx.now) db.jobs)
        ≡ some (apply_change c ctx.now row)
  read_back found =
      fetchone-update (is_job job_id) (is_job job_id) (apply_change c ctx.now) db.jobs (λ r. refl)
      ∙ ap (λ o. Option.map (λ r. if is_job job_id r then apply_change c ctx.now r else r) o) found
      ∙ rw (fetchone-true (is_job job_id) db.jobs row found) refl

  pub unseen :
      (k : String)
      → k ≢ job_id
      → fetchone (is_job k) (update (is_job job_id) (apply_change c ctx.now) db.jobs)
        ≡ fetchone (is_job k) db.jobs
  unseen k ne =
      fetchone-update_other (λ (r : JobRow). r.report_job_id) k job_id (is_job job_id)
        (apply_change c ctx.now) db.jobs (λ r. refl) (λ r e. e) ne

  loads :
      (after : Db)
      → fetchone (is_job job_id) db.jobs ≡ some row
      → after.jobs ≡ update (is_job job_id) (apply_change c ctx.now) db.jobs
      → load_job job_id after ≡ ok (apply_change c ctx.now row, after)
  unfolding load_job
  loads after found e =
      let f = ap (λ (js : List JobRow). fetchone (is_job job_id) js) e ∙ read_back found in
      ground (arith, f)

  writes :
      fetchone (is_job job_id) db.jobs ≡ some row
      → IsLegacy row
      → IsUnique (λ r. r.report_job_id) db.jobs
      → payload_complete c.event_type (transition_event_payload c) ≡ true
      → let e =
          status_event job_id row.status c.to_status c.event_type
            (transition_event_payload c)
            c.event_message
            ctx in
        write_status job_id (apply_change c ctx.now) e db
        ≡ ok (
          apply_change c ctx.now row,
          record db {
            jobs = update (is_job job_id) (apply_change c ctx.now) db.jobs;
            events = e ∷ db.events;
          },
        )
  unfolding write_status
  writes found l u complete =
      let e =
        status_event job_id row.status c.to_status c.event_type (transition_event_payload c)
          c.event_message ctx in
      let d1 = record db { jobs = update (is_job job_id) (apply_change c ctx.now) db.jobs } in
      let d2 = record d1 { events = e ∷ db.events } in
      bind_step (update_jobs (is_job job_id) (apply_change c ctx.now)) _ db tt d1
        (updates found l u)
      ∙ bind_step (append_status_event e) _ d1 tt d2 (rw complete refl)
      ∙ loads d2 found refl

  steps :
      fetchone (is_job job_id) db.jobs ≡ some row
      → is_report_job_transition_allowed row.status c.to_status ≡ true
      → transition_unguarded job_id c ctx db
        ≡ write_status job_id
            (apply_change c ctx.now)
            (status_event job_id row.status c.to_status c.event_type
              (transition_event_payload c)
              c.event_message
              ctx)
            db
  unfolding transition_unguarded
  steps found allowed = ground (arith, found, different row.status c.to_status allowed, allowed)

  pub transition-eq :
      fetchone (is_job job_id) db.jobs ≡ some row
      → IsLegacy row
      → IsUnique (λ r. r.report_job_id) db.jobs
      → is_report_job_transition_allowed row.status c.to_status ≡ true
      → payload_complete c.event_type (transition_event_payload c) ≡ true
      → transition_job job_id c ctx db
        ≡ ok (
          apply_change c ctx.now row,
          record db {
            jobs = update (is_job job_id) (apply_change c ctx.now) db.jobs;
            events =
                status_event job_id row.status c.to_status c.event_type
                  (transition_event_payload c)
                  c.event_message
                  ctx
                ∷ db.events;
          },
        )
  unfolding transition_job
  transition-eq found l u allowed complete =
      bind_step (guard_transition job_id c.to_status ctx) _ db false db (guard_passes found l)
      ∙ steps found allowed
      ∙ writes found l u complete

  -- On a job outside custody, stored once, every transition that the lifecycle table allows, with a
  -- complete event payload, succeeds. The stored job has the new status, step and failure, keeps its
  -- first start, and stays under its id; the event says from where to where it went, and who moved
  -- it; nothing else changes.
  pub transition-progress :
      fetchone (is_job job_id) db.jobs ≡ some row
      → IsLegacy row
      → IsUnique (λ r. r.report_job_id) db.jobs
      → is_report_job_transition_allowed row.status c.to_status ≡ true
      → payload_complete c.event_type (transition_event_payload c) ≡ true
      → HasMoved job_id c ctx row db (transition_job job_id c ctx db)
  transition-progress found l u allowed complete =
      let e =
        status_event job_id row.status c.to_status c.event_type (transition_event_payload c)
          c.event_message ctx in
      let jobs = update (is_job job_id) (apply_change c ctx.now) db.jobs in
      record {
        moved = apply_change c ctx.now row;
        after = record db { jobs = jobs; events = e ∷ db.events };
        ran = transition-eq found l u allowed complete;
        stored = read_back found;
        status = refl;
        category = refl;
        message = refl;
        step = refl;
        retry = refl;
        time = refl;
        started = refl;
        completed = refl;
        render = refl;
        document = refl;
        scope = (refl, refl);
        others = unseen;
        work_items = refl;
        event = e;
        appended = refl;
        subject = refl;
        origin = refl;
        target = refl;
        kind = refl;
        author = (refl, refl, refl);
      }
