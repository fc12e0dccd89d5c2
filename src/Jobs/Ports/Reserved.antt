-- ===== src/Jobs/Ports/Reserved.antt =====
-- What a reservation that was granted had to find, and what it wrote.
use lotus_report.Prelude.{
  ◌⊎◌, sym, ap, ◌∙◌, ◌≢◌, eq_iff, ℕ, ◌+◌, ◌≤◌, ◌<◌, ◌≡◌, String, Bool, true, false, inl, inr,
  Option, some, arith, Bool-cases, leb, ltb, ◌||◌,
}
use lotus_report.Sql.{
  ok, update, fetchone, connect, returned-connect, step-ok, return, ◌>>=◌, ◌>>◌, bind-ok,
}
use lotus_report.Clock.{Time, seconds}
use lotus_report.Jobs.Tables.{CustodyState, JobRow, WorkItemRow, Db, JobError, is_job, update_jobs}
use lotus_report.Jobs.Custody.{Context, at_epoch, work_of, park}
use lotus_report.Jobs.Work.Custody.{execute_update}
use lotus_report.Jobs.Ports.{
  Bindings, authorize, CustodyLease, lease_is, PortOperation, operation_name, count_of, limit_of,
  delay_of, or_now, window_over, is_closed, reserved, spend, fenced, reserve,
}
use lotus_report.Jobs.Ports.Budgets.{budget, used}
use lotus_report.Jobs.Ports.Fence.{authorized-IsFenced}
use lotus_report.Jobs.Ports.Charged.{
  IsCharged, charges_row, open_states, in_scope-own, reserved-IsCharged, left_of_budget, frame,
}

-- The stored job was open and due, with budget and time left, and its work item leased under the fence,
-- in the tenant, the region and the policy of the call; it was charged, and nothing else was written.
pub record IsGranted (job_id tenant_id region : String) (fence : CustodyLease)
    (operation : PortOperation) (jitter : ℕ) (now : Time) (db db' : Db) : Type 0 where
  pub row : JobRow
  pub work : Option WorkItemRow
  pub found : fetchone (is_job job_id) db.jobs ≡ some row
  pub working : fetchone (work_of row.report_job_id) db.work_items ≡ work
  pub leased : lease_is fence now row work ≡ true
  pub own_epoch : row.custody_epoch ≡ fence.epoch
  pub own_tenant : row.tenant_id ≡ tenant_id
  pub own_region : row.region ≡ region
  pub opened :
      (s : CustodyState)
      → row.custody_state ≡ some s
      → (s ≡ CustodyState.ready) ⊎ (s ≡ CustodyState.waiting)
  pub due : or_now row.custody_next_attempt_at now ≤ now
  pub budget_left : used operation row < budget operation
  pub window : now < or_now row.custody_window_started_at now + seconds 86400
  pub after : JobRow
  pub stored : fetchone (is_job job_id) db'.jobs ≡ some after
  pub charged : IsCharged operation jitter now row after
  pub others :
      (k : String) → k ≢ job_id → fetchone (is_job k) db'.jobs ≡ fetchone (is_job k) db.jobs
  pub work_items : db'.work_items ≡ db.work_items
  pub events : db'.events ≡ db.events

written :
    (p : JobRow → Bool) (f : JobRow → JobRow) (db db' : Db) (u : Unit {0})
    → execute_update p f db ≡ ok (u, db')
    → (db'.jobs ≡ update p f db.jobs) × (db'.work_items ≡ db.work_items) × (db'.events ≡ db.events)
unfolding execute_update update_jobs
written p f db db' u h = (ground arith, ground arith, ground arith)

parked_refuses :
    (reason : String) (ctx : Context) (work : Option WorkItemRow) (row : JobRow) (db db' : Db)
    → (park reason ctx work row >> return false) db ≡ ok (true, db')
    → ⊥
parked_refuses reason ctx work row db db' h =
    let (u, d, h1, h2) = bind-ok (park reason ctx work row) (λ _. return false) db h in clash d h2
  where
    clash : (d : Db) → return {D = Db} {E = JobError} false d ≡ ok (true, db') → ⊥
    clash d k = ground arith

spent :
    (operation : PortOperation) (jitter : ℕ) (ctx : Context) (row : JobRow)
    (work : Option WorkItemRow) (db db' : Db)
    → spend operation jitter ctx row work db ≡ ok (true, db')
    → (is_closed row.custody_state ≡ false)
      × (ltb ctx.guard_now (or_now row.custody_next_attempt_at ctx.guard_now) ≡ false)
      × (leb (limit_of operation) (count_of operation row) ≡ false)
      × (window_over row ctx.guard_now ≡ false)
      × (execute_update
            (at_epoch row)
            (reserved operation
              (or_now row.custody_window_started_at ctx.guard_now)
              (ctx.guard_now + seconds (delay_of operation row jitter)))
            db
          ≡ ok (tt, db'))
unfolding spend
spent operation jitter ctx row work db db' h =
    elim (Bool-cases (
      is_closed row.custody_state
      || ltb ctx.guard_now (or_now row.custody_next_attempt_at ctx.guard_now))) [
        | inl e ↦ absurd (ground (arith, e))
        | inr e ↦
            elim (Bool-cases (
              leb (limit_of operation) (count_of operation row) || window_over row ctx.guard_now)) [
                | inl x ↦ absurd (
                    parked_refuses "custody_retry_budget_exhausted" ctx work row db db'
                      (ground (arith, e, x)))
                | inr x ↦ (
                  ground (arith, e),
                  ground (arith, e),
                  ground (arith, x),
                  ground (arith, x),
                  step-ok
                      (execute_update (at_epoch row) (
                        reserved operation (or_now row.custody_window_started_at ctx.guard_now)
                          (ctx.guard_now + seconds (delay_of operation row jitter))))
                      true true db db' (ground (arith, e, x)),
                )
              ]
      ]

-- A reservation that is granted was asked for by the holder of the job's lease, at its epoch and in its
-- scope, for an open job that is due, with budget left and within 24 hours of the first one. The counter
-- of its operation goes up by one and no other does, the window opens where none was, the next attempt
-- is due 1, 5 or 15 minutes later and what was drawn, or at once after a poll, and no other job or
-- table changes.
pub reserve-IsGranted :
    (bindings : Bindings) (job_id tenant_id region : String) (fence : CustodyLease)
    (operation : PortOperation) (jitter : ℕ) (ctx : Context) (db : Db)
    → (reserve bindings job_id tenant_id region fence operation jitter ctx db).0 ≡ ok true
    → IsGranted job_id tenant_id region fence operation jitter ctx.guard_now db
        (reserve bindings job_id tenant_id region fence operation jitter ctx db).1
unfolding reserve
reserve-IsGranted bindings job_id tenant_id region fence operation jitter ctx db h =
    let body = authorize bindings (operation_name operation) job_id tenant_id region >>= λ _.
    fenced job_id tenant_id region fence ctx.guard_now (spend operation jitter ctx) in
    let db' = (connect body db).1 in
    let f =
      authorized-IsFenced bindings (operation_name operation) job_id tenant_id region fence
        ctx.guard_now (spend operation jitter ctx) db db' true (returned-connect body db true h) in
    let (opened, due, left, window, w) = spent operation jitter ctx f.row f.work db db' f.ran in
    let write =
      reserved operation (or_now f.row.custody_window_started_at ctx.guard_now)
        (ctx.guard_now + seconds (delay_of operation f.row jitter)) in
    let (jobs, work_items, events) = written (at_epoch f.row) write db db' tt w in
    let (stored, others) =
      charges_row job_id f.row write db db' jobs
        (λ r.
          (frame operation (or_now f.row.custody_window_started_at ctx.guard_now)
            (ctx.guard_now + seconds (delay_of operation f.row jitter)) r).3)
        f.found in
    record {
      row = f.row;
      work = f.work;
      found = f.found;
      working = f.working;
      leased = f.leased;
      own_epoch = ground (arith, f.leased);
      own_tenant =
          (eq_iff f.row.tenant_id tenant_id).0 (in_scope-own tenant_id region f.row f.scoped).0;
      own_region = (eq_iff f.row.region region).0 (in_scope-own tenant_id region f.row f.scoped).1;
      opened = λ s e. open_states s (ap is_closed (sym e) ∙ opened);
      due = ground (arith, due);
      budget_left = left_of_budget operation f.row left;
      window = ground (arith, window);
      after = write f.row;
      stored = stored;
      charged = reserved-IsCharged operation jitter ctx.guard_now f.row;
      others = others;
      work_items = work_items;
      events = events;
    }
