-- ===== src/Jobs/Transition/Effect.antt =====
-- Each operation on a job has one of the effects of Jobs/Transition/Move.
use lotus_report.Prelude.{
  refl, subst, String, true, ◌≡◌, inl, inr, some, arith, Bool-cases, Option-cases, ap,
  if◌then◌else◌,
}
use lotus_report.Sql.{connect_keeps, ◌>>=◌, ok, fetchone, bind-ok}
use lotus_report.Jobs.Status.{
  ReportJobStatus, job_is, is_report_job_transition_allowed, is_report_job_cancellable,
}
use lotus_report.Jobs.Tables.{JobRow, Db, JobError, is_job, load_job}
use lotus_report.Jobs.Events.{empty_payload, EventType, StatusEvent}
use lotus_report.Jobs.Custody.{Context, guard_transition}
use lotus_report.Jobs.Transition.Marks.{
  Operation, collecting_data_change, data_ready_change, rendering_change, completed_change,
  archiving_change, archived_change, failed_change, collect, make_ready, render, complete,
  start_archive, archive, fail, cancel, apply, mark_collecting_data, mark_data_ready,
  mark_rendering, mark_completed, mark_archiving, mark_archived, mark_failed,
}
use lotus_report.Jobs.Transition.{
  transition_event_payload, apply_change, cancel_message, status_event, cancel_row, connect, Change,
  cancel_job, Tx, cancel_unguarded, transition_job, transition_unguarded, write_status,
}
use lotus_report.Jobs.Transition.Move.{moved, same, legal, guarded, Effect}
use lotus_report.Jobs.Transition.Guard.{stop, go_on, load-ok, write_status-ok, guard-Guarded}

written :
    (job_id : String) (f : JobRow → JobRow) (e : StatusEvent) (row r : JobRow) (db db' : Db)
    → fetchone (is_job job_id) db.jobs ≡ some row
    → ((r : JobRow) → (f r).report_job_id ≡ r.report_job_id)
    → ((r : JobRow) → (f r).status ≡ e.to_status)
    → e.report_job_id ≡ job_id
    → e.from_status ≡ some row.status
    → legal row.status e.to_status ≡ true
    → guarded row e.to_status ≡ true
    → write_status job_id f e db ≡ ok (r, db')
    → Effect job_id db db'
written job_id f e row r db db' found keeps to of_job from lawful custody h =
    let w = write_status-ok job_id f e db db' r h in
    moved (record {
      row = row;
      f = f;
      event = e;
      found = found;
      keeps_id = keeps;
      of_job = of_job;
      from = from;
      to = to;
      lawful = lawful;
      custody = custody;
      jobs = ap (λ (d : Db). d.jobs) w;
      events = ap (λ (d : Db). d.events) w;
    })

unguarded-Effect :
    (job_id : String) (c : Change) (ctx : Context) (db db' : Db) (r : JobRow)
    → ((row : JobRow)
        → fetchone (is_job job_id) db.jobs ≡ some row
        → guarded row c.to_status ≡ true)
    → transition_unguarded job_id c ctx db ≡ ok (r, db')
    → Effect job_id db db'
unfolding transition_unguarded
unguarded-Effect job_id c ctx db db' r g h =
    elim (Option-cases (fetchone (is_job job_id) db.jobs)) [
      | inl n ↦ absurd (ground arith)
      | inr (row, f) ↦ elim (Bool-cases (job_is row.status c.to_status)) [
        | inl s ↦ same (load-ok job_id db db' r (ground arith))
        | inr s ↦ elim (Bool-cases (is_report_job_transition_allowed row.status c.to_status)) [
          | inl a ↦
              written job_id (apply_change c ctx.now)
                (status_event job_id row.status c.to_status c.event_type
                  (transition_event_payload c) c.event_message ctx)
                row r db db' f (λ x. refl) (λ x. refl) refl refl (rw a refl) (g row f)
                (ground arith)
          | inr a ↦ absurd (ground arith)
        ]
      ]
    ]

cancel_unguarded-Effect :
    (job_id : String) (ctx : Context) (db db' : Db) (r : JobRow)
    → ((row : JobRow)
        → fetchone (is_job job_id) db.jobs ≡ some row
        → guarded row ReportJobStatus.cancelled ≡ true)
    → cancel_unguarded job_id ctx db ≡ ok (r, db')
    → Effect job_id db db'
unfolding cancel_unguarded
cancel_unguarded-Effect job_id ctx db db' r g h =
    elim (Option-cases (fetchone (is_job job_id) db.jobs)) [
      | inl n ↦ absurd (ground arith)
      | inr (row, f) ↦ elim (Bool-cases (is_report_job_cancellable row.status)) [
        | inl a ↦
            written job_id (cancel_row ctx.now)
              (status_event job_id row.status ReportJobStatus.cancelled EventType.job_cancelled
                (record empty_payload { current_step = some "cancelled"; cancel_requested = true })
                (some cancel_message) ctx)
              row r db db' f (λ x. refl) (λ x. refl) refl refl (rw a refl) (g row f) (ground arith)
        | inr a ↦ absurd (ground arith)
      ]
    ]

-- A body behind the guard, where the body itself has an effect.
guarded-Effect :
    (job_id : String) (to : ReportJobStatus) (ctx : Context) (body : Tx Db JobError JobRow)
    (db : Db)
    → ((db' : Db) (r : JobRow)
        → ((row : JobRow) → fetchone (is_job job_id) db.jobs ≡ some row → guarded row to ≡ true)
        → body db ≡ ok (r, db')
        → Effect job_id db db')
    → Effect job_id db
        (connect (guard_transition job_id to ctx >>= λ t. if t then load_job job_id else body) db).1
guarded-Effect job_id to ctx body db k =
    connect_keeps (Effect job_id db)
      (guard_transition job_id to ctx >>= λ t. if t then load_job job_id else body) db
      (λ r db' h.
        let (t, c, h1, h2) =
          bind-ok (guard_transition job_id to ctx) (λ t. if t then load_job job_id else body) db
            h in
        elim (guard-Guarded job_id to ctx db c t h1) [
          | go_on e s g ↦ k db' r g (
              subst (λ x. body x ≡ ok (r, db')) s
                (subst (λ b. (if b then load_job job_id else body) c ≡ ok (r, db')) e h2))
          | stop e x ↦
              let l =
                load-ok job_id c db' r
                  (subst (λ b. (if b then load_job job_id else body) c ≡ ok (r, db')) e h2) in
              rw l x
        ])
      (same refl)

pub transition-Effect :
    (job_id : String) (c : Change) (ctx : Context) (db : Db)
    → Effect job_id db (connect (transition_job job_id c ctx) db).1
unfolding transition_job
transition-Effect job_id c ctx db =
    guarded-Effect job_id c.to_status ctx (transition_unguarded job_id c ctx) db
      (λ db' r g h. unguarded-Effect job_id c ctx db db' r g h)

pub apply-Effect :
    (job_id : String) (op : Operation) (ctx : Context) (db : Db)
    → Effect job_id db (apply job_id op ctx db)
unfolding apply mark_collecting_data mark_data_ready mark_rendering mark_completed mark_archiving
    mark_archived mark_failed cancel_job
apply-Effect job_id collect ctx db = transition-Effect job_id collecting_data_change ctx db
apply-Effect job_id make_ready ctx db = transition-Effect job_id data_ready_change ctx db
apply-Effect job_id (render r f t v) ctx db =
    transition-Effect job_id (rendering_change r f t v) ctx db
apply-Effect job_id (complete rendered) ctx db =
    transition-Effect job_id (completed_change rendered) ctx db
apply-Effect job_id (start_archive a) ctx db = transition-Effect job_id (archiving_change a) ctx db
apply-Effect job_id (archive a d) ctx db =
    transition-Effect job_id (archived_change a d ctx.now) ctx db
apply-Effect job_id (fail c m e) ctx db = transition-Effect job_id (failed_change c m e) ctx db
apply-Effect job_id cancel ctx db =
    guarded-Effect job_id ReportJobStatus.cancelled ctx (cancel_unguarded job_id ctx) db
      (λ db' r g h. cancel_unguarded-Effect job_id ctx db db' r g h)
