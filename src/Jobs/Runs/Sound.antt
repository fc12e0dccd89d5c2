-- ===== src/Jobs/Runs/Sound.antt =====
-- Any run of jobs and work queue keeps the attempt budget and the log of events.
use lotus_report.Prelude.{
  if◌then◌else◌, ◌≡◌, String, true, inl, inr, some, List, [], ◌∷◌, arith, Bool-cases, Option-cases,
  ap,
}
use lotus_report.Sql.{ok, fetchone, connect, Keeps-bind, Keeps-if, Keeps-connect, ◌>>=◌}
use lotus_report.Jobs.Status.{ReportJobStatus, is_report_job_cancellable}
use lotus_report.Jobs.Events.{EventType, empty_payload}
use lotus_report.Jobs.Tables.{JobRow, WorkItemRow, Db, is_job, load_job}
use lotus_report.Jobs.Custody.{Context, guard_transition}
use lotus_report.Jobs.Transition.{
  Change, transition_job, cancel_job, cancel_unguarded, cancel_row, cancel_message, status_event,
}
use lotus_report.Jobs.Transition.Guard.{write_status-ok, load-ok}
use lotus_report.Jobs.Transition.Marks.{
  mark_failed, mark_archived, mark_archiving, mark_completed, mark_rendering, mark_data_ready,
  mark_collecting_data, Operation, collect, make_ready, render, complete as complete_job,
  start_archive, archive, fail as fail_job, cancel, apply, collecting_data_change,
  data_ready_change, rendering_change, completed_change, archiving_change, archived_change,
  failed_change,
}
use lotus_report.Jobs.Transition.Effect.{apply-Effect}
use lotus_report.Jobs.Transition.History.{Effect-IsAudited}
use lotus_report.Jobs.Work.{ReportJobWorkRetryPolicy}
use lotus_report.Jobs.Work.Stock.{
  IsStocked, AllowsOver, guard-IsStocked, transition-IsStocked, same-IsStocked,
}
use lotus_report.Jobs.Work.Invariant.{IsConsistent}
use lotus_report.Jobs.Work.Budget.{IsWithin, IsWithin-IsClosed}
use lotus_report.Jobs.Work.Closed.{IsClosed}
use lotus_report.Jobs.Work.Operations.{complete-IsConsistent, defer-IsConsistent}
use lotus_report.Jobs.Work.Failing.{fail-IsConsistent}
use lotus_report.Jobs.Work.Rounds.{claim-IsConsistent}
use lotus_report.Jobs.Runs.{Command, operate, claim, complete, defer, fail, execute, run}

cancel_unguarded-items :
    (job_id : String) (ctx : Context) (db db' : Db) (r : JobRow)
    → cancel_unguarded job_id ctx db ≡ ok (r, db')
    → db'.work_items ≡ db.work_items
unfolding cancel_unguarded
cancel_unguarded-items job_id ctx db db' r h =
    elim (Option-cases (fetchone (is_job job_id) db.jobs)) [
      | inl n ↦ absurd (ground arith)
      | inr (row, f) ↦ elim (Bool-cases (is_report_job_cancellable row.status)) [
        | inl a ↦
            ap (λ (x : Db). x.work_items)
              (write_status-ok job_id (cancel_row ctx.now)
                (status_event job_id row.status ReportJobStatus.cancelled EventType.job_cancelled
                  (record empty_payload {
                    current_step = some "cancelled";
                    cancel_requested = true;
                  })
                  (some cancel_message) ctx)
                db db' r (ground arith))
        | inr a ↦ absurd (ground arith)
      ]
    ]

module _ {ids : List String} (R : WorkItemRow → Type 0) (over : AllowsOver R) (job_id : String)
    (ctx : Context) where
  moved-IsStocked :
      (c : Change) (db : Db)
      → IsStocked ids R db
      → IsStocked ids R (connect (transition_job job_id c ctx) db).1
  moved-IsStocked c db k =
      Keeps-connect (IsStocked ids R) (transition_job job_id c ctx) db
        (transition-IsStocked R over job_id c ctx) k

  cancel-IsStocked : (db : Db) → IsStocked ids R db → IsStocked ids R (cancel_job job_id ctx db).1
  unfolding cancel_job
  cancel-IsStocked db k =
      Keeps-connect (IsStocked ids R)
        (guard_transition job_id ReportJobStatus.cancelled ctx >>= λ settled.
          if settled then load_job job_id else cancel_unguarded job_id ctx)
        db
        (Keeps-bind (IsStocked ids R) (guard_transition job_id ReportJobStatus.cancelled ctx) _
          (guard-IsStocked R over job_id ReportJobStatus.cancelled ctx)
          (λ settled.
            Keeps-if (IsStocked ids R) settled _ _
              (λ d r d' e c.
                same-IsStocked R d d' (ap (λ (x : Db). x.work_items) (load-ok job_id d d' r e)) c)
              (λ d r d' e c. same-IsStocked R d d' (cancel_unguarded-items job_id ctx d d' r e) c)))
        k

  apply-IsStocked :
      (op : Operation) (db : Db) → IsStocked ids R db → IsStocked ids R (apply job_id op ctx db)
  unfolding apply mark_collecting_data mark_data_ready mark_rendering mark_completed mark_archiving
      mark_archived mark_failed
  apply-IsStocked collect db k = moved-IsStocked collecting_data_change db k
  apply-IsStocked make_ready db k = moved-IsStocked data_ready_change db k
  apply-IsStocked (render r f t v) db k = moved-IsStocked (rendering_change r f t v) db k
  apply-IsStocked (complete_job rendered) db k = moved-IsStocked (completed_change rendered) db k
  apply-IsStocked (start_archive a) db k = moved-IsStocked (archiving_change a) db k
  apply-IsStocked (archive a d) db k = moved-IsStocked (archived_change a d ctx.now) db k
  apply-IsStocked (fail_job c m e) db k = moved-IsStocked (failed_change c m e) db k
  apply-IsStocked cancel db k = cancel-IsStocked db k

module _ (ids : List String) (policy : ReportJobWorkRetryPolicy) (R : WorkItemRow → Type 0)
    (closed : IsClosed policy R) where
  execute-keeps :
      (c : Command) (db : Db) → IsConsistent ids R db → IsConsistent ids R (execute policy c db)
  unfolding execute
  execute-keeps (operate job_id op ctx) db k = record {
    stocked = apply-IsStocked R closed.over job_id ctx op db k.stocked;
    audited =
        Effect-IsAudited job_id db (apply job_id op ctx db) k.audited
          (apply-Effect job_id op ctx db);
  }
  execute-keeps (claim worker limit n now tokens draws) db k =
      claim-IsConsistent ids policy R closed now worker n limit tokens draws db k
  execute-keeps (complete i token ctx now) db k =
      complete-IsConsistent ids policy R closed i token ctx now db k
  execute-keeps (defer i token reason delay ctx now) db k =
      defer-IsConsistent ids policy R closed i token ctx now reason delay db k
  execute-keeps (fail i token category summary ctx now) db k =
      fail-IsConsistent ids policy R closed i token ctx now category summary db k

  -- A run keeps any predicate that every step on a work item keeps.
  pub run-keeps :
      (cs : List Command) (db : Db) → IsConsistent ids R db → IsConsistent ids R (run policy cs db)
  unfolding run
  run-keeps [] db k = k
  run-keeps (c ∷ cs) db k = run-keeps cs (execute policy c db) (execute-keeps c db k)

module _ (ids : List String) (policy : ReportJobWorkRetryPolicy) where
  abbrev pub Consistent : Db → Type 0
  Consistent db = IsConsistent ids (IsWithin policy.max_attempts) db

  -- Under one retry policy, any interleaving of operations on jobs with claims (which recover expired
  -- leases), completions, deferrals and failures of work items keeps three things. The
  -- table has the same items, no two with one id. Every item stays within its attempt budget: it
  -- waits with attempts left, or is leased, with a token, within max_attempts. And the log of status
  -- events still explains the status of every job, those that fail with their last attempt included.
  pub run-IsConsistent :
      (cs : List Command) (db : Db) → Consistent db → Consistent (run policy cs db)
  run-IsConsistent cs db k =
      run-keeps ids policy (IsWithin policy.max_attempts) (IsWithin-IsClosed policy) cs db k
