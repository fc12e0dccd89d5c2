-- ===== src/Jobs/Ports.antt =====
-- The fenced ports of custody recovery that spend its budgets: `reserve`, `record_owner_due` and `block`
-- (src/app/reporting_jobs/custody_recovery.py), as the SQLite ledger runs them.
pub mod Fence
pub mod Charged
pub mod Reserved
pub mod Budgets
pub mod Quiet
pub mod Budgeted
use lotus_report.Prelude.{
  ℕ, ◌+◌, ◌*◌, min, max, String, Bool, true, false, not, ◌&&◌, ◌||◌, Option, none, some, List, [],
  ◌∷◌, ltb, leb, ◌==◌, if◌then◌else◌, str_eq,
}
use lotus_report.Sql.{Result, Tx, ok, err, return, raise, connect, ◌>>=◌, ◌>>◌}
use lotus_report.Clock.{Time, seconds}
use lotus_report.Jobs.Tables.{CustodyState, JobRow, WorkItemRow, Db, JobError, is_required}
use lotus_report.Jobs.Custody.{Context, lock_pair, lease_holds, at_epoch, park}
use lotus_report.Jobs.Work.Custody.{metadata, execute_update}

-- CustodyLease
pub record CustodyLease : Type 0 where
  pub work_item_id : String
  pub token : String
  pub epoch : ℕ

-- CustodyBindings as `authorize` uses it: operation, job, tenant and region; false where it raises.
abbrev pub Bindings : Type 0
Bindings = Option (String → String → String → String → Bool)

unfoldable pub authorize : Bindings → String → String → String → String → Tx Db JobError (Unit {0})
authorize none operation job_id tenant_id region = raise JobError.custody_authority_unavailable
authorize (some bindings) operation job_id tenant_id region =
    if bindings operation job_id tenant_id region
    then return tt
    else raise JobError.custody_authority_refused

-- `lease`, with the epoch of the row
abbrev pub lease_is : CustodyLease → Time → JobRow → Option WorkItemRow → Bool
lease_is fence now row work =
    lease_holds (fence.work_item_id, fence.token) work now && row.custody_epoch == fence.epoch

abbrev pub in_scope : String → String → JobRow → Bool
in_scope tenant_id region row =
    str_eq row.tenant_id tenant_id && str_eq row.region region && is_required row

-- The row and the work item of a fenced call: `lock_pair`, `lease` and `scope`.
abbrev pub check_fence :
    CustodyLease → String → String → Time → JobRow → Option WorkItemRow → Tx Db JobError (Unit {0})
check_fence fence tenant_id region now row work =
    if lease_is fence now row work
    then (if in_scope tenant_id region row
        then return tt
        else raise JobError.custody_scope_mismatch)
    else raise JobError.custody_stale_lease

pub data PortOperation : Type 0 where
  initial retry poll : PortOperation

abbrev pub operation_name : PortOperation → String
operation_name initial = "initial"
operation_name retry = "retry"
operation_name poll = "poll"

-- The counter of an operation, and its limit
abbrev pub count_of : PortOperation → JobRow → ℕ
count_of initial r = r.custody_initial_count
count_of retry r = r.custody_dispatch_count
count_of poll r = r.custody_poll_count

abbrev pub limit_of : PortOperation → ℕ
limit_of initial = 1
limit_of retry = 3
limit_of poll = 12

-- RECOVERY_DELAYS
abbrev pub recovery_delay : ℕ → ℕ
recovery_delay n = if n == 0 then 60 else if n == 1 then 300 else 900

-- `jitter` is what `randbelow(11)` draws.
abbrev pub delay_of : PortOperation → JobRow → ℕ → ℕ
delay_of initial r jitter = recovery_delay (min r.custody_dispatch_count 2) + jitter
delay_of retry r jitter = recovery_delay (min (r.custody_dispatch_count + 1) 2) + jitter
delay_of poll r jitter = 0

abbrev pub or_now : Option Time → Time → Time
or_now none now = now
or_now (some t) now = t

-- timedelta(hours=24)
abbrev pub window_length : ℕ
window_length = seconds 86400

abbrev pub window_over : JobRow → Time → Bool
window_over row now = leb (or_now row.custody_window_started_at now + window_length) now

abbrev pub is_closed : Option CustodyState → Bool
is_closed none = false
is_closed (some s) = elim s [
  | CustodyState.ready ↦ false
  | CustodyState.waiting ↦ false
  | CustodyState.blocked ↦ true
  | CustodyState.refused ↦ true
  | CustodyState.verified ↦ true
]

abbrev pub counted : PortOperation → JobRow → JobRow
counted initial r = record r { custody_initial_count = r.custody_initial_count + 1 }
counted retry r = record r { custody_dispatch_count = r.custody_dispatch_count + 1 }
counted poll r = record r { custody_poll_count = r.custody_poll_count + 1 }

-- The UPDATE of `reserve`
abbrev pub reserved : PortOperation → Time → Time → JobRow → JobRow
reserved operation window next r = record (counted operation r) {
  custody_window_started_at = some window;
  custody_next_attempt_at = some next;
}

-- `reserve` past its checks
unfoldable pub spend :
    PortOperation → ℕ → Context → JobRow → Option WorkItemRow → Tx Db JobError Bool
unfolding execute_update park
spend operation jitter ctx row work =
    if is_closed row.custody_state
      || ltb ctx.guard_now (or_now row.custody_next_attempt_at ctx.guard_now)
    then return false
    else if leb (limit_of operation) (count_of operation row) || window_over row ctx.guard_now
    then (do park "custody_retry_budget_exhausted" ctx work row; return false)
    else (do
      execute_update (at_epoch row) (
          reserved operation (or_now row.custody_window_started_at ctx.guard_now)
            (ctx.guard_now + seconds (delay_of operation row jitter)))
      return true)

-- A body behind the fence
abbrev pub fenced :
    {A : Type 0}
    → String
    → String
    → String
    → CustodyLease
    → Time
    → (JobRow → Option WorkItemRow → Tx Db JobError A)
    → Tx Db JobError A
fenced job_id tenant_id region fence now body = do
  row ← metadata job_id
  work ← lock_pair row
  check_fence fence tenant_id region now row work
  body row work

unfoldable pub reserve :
    Bindings
    → String
    → String
    → String
    → CustodyLease
    → PortOperation
    → ℕ
    → Context
    → Db
    → Result JobError Bool × Db
unfolding authorize spend
reserve bindings job_id tenant_id region fence operation jitter ctx = connect do
  authorize bindings (operation_name operation) job_id tenant_id region
  fenced job_id tenant_id region fence ctx.guard_now (spend operation jitter ctx)

abbrev pub due_at : Time → JobRow → JobRow
due_at target r = record r { custody_next_attempt_at = some target }

unfoldable pub postpone : Time → Context → JobRow → Option WorkItemRow → Tx Db JobError Bool
unfolding execute_update park
postpone due ctx row work =
    if leb (or_now row.custody_window_started_at ctx.guard_now + window_length) due
    then (do park "custody_owner_schedule_exhausted" ctx work row; return false)
    else (do
      execute_update (λ r. str_eq r.report_job_id row.report_job_id)
          (due_at (max due (or_now row.custody_next_attempt_at ctx.guard_now)))
      return true)

unfoldable pub record_owner_due :
    Bindings
    → String
    → String
    → String
    → CustodyLease
    → Time
    → Context
    → Db
    → Result JobError Bool × Db
unfolding authorize postpone
record_owner_due bindings job_id tenant_id region fence due ctx = connect do
  authorize bindings "record_owner_due" job_id tenant_id region
  fenced job_id tenant_id region fence ctx.guard_now (postpone due ctx)

unfoldable pub block :
    Bindings
    → String
    → String
    → String
    → CustodyLease
    → Context
    → Db
    → Result JobError (Unit {0}) × Db
unfolding authorize park
block bindings job_id tenant_id region fence ctx = connect do
  authorize bindings "record_outcome" job_id tenant_id region
  fenced job_id tenant_id region fence ctx.guard_now
      (λ row work. park "custody_owner_blocked" ctx work row)

pub data PortCall : Type 0 where
  reserve_call : String → String → String → CustodyLease → PortOperation → ℕ → Context → PortCall
  due_call : String → String → String → CustodyLease → Time → Context → PortCall
  block_call : String → String → String → CustodyLease → Context → PortCall

-- The tables after a sequence of calls, whatever each returns or raises.
unfoldable pub run_ports : Bindings → List PortCall → Db → Db
unfolding reserve record_owner_due block
run_ports bindings [] db = db
run_ports bindings (reserve_call j t r fence op jitter ctx ∷ cs) db =
    run_ports bindings cs (reserve bindings j t r fence op jitter ctx db).1
run_ports bindings (due_call j t r fence due ctx ∷ cs) db =
    run_ports bindings cs (record_owner_due bindings j t r fence due ctx db).1
run_ports bindings (block_call j t r fence ctx ∷ cs) db =
    run_ports bindings cs (block bindings j t r fence ctx db).1
