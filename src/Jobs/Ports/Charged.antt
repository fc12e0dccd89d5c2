-- ===== src/Jobs/Ports/Charged.antt =====
-- What a granted reservation changes of the row of its job.
use mathlib.Core.Option
use lotus_report.Prelude.{
  ◌⊎◌, ap, ◌∙◌, ◌≢◌, refl, none, coalesce, min, ◌==◌, if◌then◌else◌, str_eq, eq_iff, eq_refl, ℕ,
  ◌+◌, ◌<◌, ◌≡◌, String, true, false, inl, inr, Option, some, arith, leb,
}
use lotus_report.Sql.{fetchone-true, fetchone-update, fetchone-update_other, update, fetchone}
use lotus_report.Clock.{Time, seconds}
use lotus_report.Jobs.Tables.{CustodyState, JobRow, Db, is_job}
use lotus_report.Jobs.Custody.{at_epoch}
use lotus_report.Jobs.Ports.{
  initial, retry, poll, recovery_delay, in_scope, PortOperation, count_of, limit_of, delay_of,
  or_now, is_closed, reserved,
}
use lotus_report.Jobs.Ports.Budgets.{budget, used}

-- How many operations of each kind one operation is.
abbrev pub one_of_kind : PortOperation → PortOperation → ℕ
one_of_kind initial initial = 1
one_of_kind retry retry = 1
one_of_kind poll poll = 1
one_of_kind _ _ = 0

-- The seconds to the next attempt after so many recoveries: 1, 5 and then 15 minutes, and what is drawn;
-- a recovery counts itself, and a poll does not wait.
abbrev pub pause : PortOperation → ℕ → ℕ → ℕ
pause initial recoveries drawn =
    (if recoveries == 0 then 60 else if recoveries == 1 then 300 else 900) + drawn
pause retry recoveries drawn = (if recoveries == 0 then 300 else 900) + drawn
pause poll recoveries drawn = 0

-- What a granted operation changes of the row: it is counted, once and as what it is, and it opens the
-- window, where none is open, and sets the next attempt.
pub record IsCharged (operation : PortOperation) (jitter : ℕ) (now : Time) (row after : JobRow)
    : Type 0 where
  pub counted :
      (kind : PortOperation) → used kind after ≡ used kind row + one_of_kind operation kind
  pub window_start :
      after.custody_window_started_at ≡ coalesce row.custody_window_started_at (some now)
  pub next :
      after.custody_next_attempt_at
      ≡ some (now + seconds (pause operation row.custody_dispatch_count jitter))
  pub state : after.custody_state ≡ row.custody_state
  pub epoch : after.custody_epoch ≡ row.custody_epoch
  pub status : after.status ≡ row.status

pub open_states :
    (s : CustodyState)
    → is_closed (some s) ≡ false
    → (s ≡ CustodyState.ready) ⊎ (s ≡ CustodyState.waiting)
open_states CustodyState.ready h = inl refl
open_states CustodyState.waiting h = inr refl
open_states CustodyState.blocked h = cc
open_states CustodyState.refused h = cc
open_states CustodyState.verified h = cc

pub in_scope-own :
    (tenant_id region : String) (row : JobRow)
    → in_scope tenant_id region row ≡ true
    → (str_eq row.tenant_id tenant_id ≡ true) × (str_eq row.region region ≡ true)
in_scope-own tenant_id region row h = (ground arith, ground arith)

opens_window : (o : Option Time) (now : Time) → some (or_now o now) ≡ coalesce o (some now)
opens_window none now = refl
opens_window (some t) now = refl

recovery_pauses :
    (n drawn : ℕ)
    → (recovery_delay (min n 2) + drawn ≡ pause initial n drawn)
      × (recovery_delay (min (n + 1) 2) + drawn ≡ pause retry n drawn)
recovery_pauses n drawn = (ground arith, ground arith)

counts_one :
    (operation kind : PortOperation) (window next : Time) (row : JobRow)
    → used kind (reserved operation window next row) ≡ used kind row + one_of_kind operation kind
counts_one initial initial window next row = refl
counts_one initial retry window next row = omega arith
counts_one initial poll window next row = omega arith
counts_one retry initial window next row = omega arith
counts_one retry retry window next row = refl
counts_one retry poll window next row = omega arith
counts_one poll initial window next row = omega arith
counts_one poll retry window next row = omega arith
counts_one poll poll window next row = refl

waits :
    (operation : PortOperation) (row : JobRow) (jitter : ℕ)
    → delay_of operation row jitter ≡ pause operation row.custody_dispatch_count jitter
waits initial row jitter = (recovery_pauses row.custody_dispatch_count jitter).0
waits retry row jitter = (recovery_pauses row.custody_dispatch_count jitter).1
waits poll row jitter = refl

-- A reservation leaves the state, the epoch, the status and the id.
pub frame :
    (operation : PortOperation) (window next : Time) (row : JobRow)
    → ((reserved operation window next row).custody_state ≡ row.custody_state)
      × ((reserved operation window next row).custody_epoch ≡ row.custody_epoch)
      × ((reserved operation window next row).status ≡ row.status)
      × ((reserved operation window next row).report_job_id ≡ row.report_job_id)
frame initial window next row = (refl, refl, refl, refl)
frame retry window next row = (refl, refl, refl, refl)
frame poll window next row = (refl, refl, refl, refl)

-- The row that was read is the one that the UPDATE at its epoch changes.
pub charges_row :
    (job_id : String) (row : JobRow) (f : JobRow → JobRow) (db db' : Db)
    → db'.jobs ≡ update (at_epoch row) f db.jobs
    → ((r : JobRow) → (f r).report_job_id ≡ r.report_job_id)
    → fetchone (is_job job_id) db.jobs ≡ some row
    → (fetchone (is_job job_id) db'.jobs ≡ some (f row))
      × ((k : String) → k ≢ job_id → fetchone (is_job k) db'.jobs ≡ fetchone (is_job k) db.jobs)
charges_row job_id row f db db' e same found =
    let own = fetchone-true (is_job job_id) db.jobs row found in
    let here : at_epoch row row ≡ true = ground (arith, eq_refl row.report_job_id) in
    let mine : row.report_job_id ≡ job_id = (eq_iff row.report_job_id job_id).0 own in
    (
      ap (λ rows. fetchone (is_job job_id) rows) e
          ∙ fetchone-update (is_job job_id) (at_epoch row) f db.jobs
              (λ r. ap (λ k. str_eq k job_id) (same r))
          ∙ ap (λ o. Option.map (λ r. if at_epoch row r then f r else r) o) found
          ∙ rw here refl,
      λ k ne.
          ap (λ rows. fetchone (is_job k) rows) e
          ∙ fetchone-update_other (λ (r : JobRow). r.report_job_id) k row.report_job_id
              (at_epoch row) f db.jobs same (λ r t. ground arith) (λ q. ne (q ∙ mine)),
    )

pub reserved-IsCharged :
    (operation : PortOperation) (jitter : ℕ) (now : Time) (row : JobRow)
    → IsCharged operation jitter now row (
        reserved operation
          (or_now row.custody_window_started_at now)
          (now + seconds (delay_of operation row jitter))
          row)
reserved-IsCharged operation jitter now row =
    let (state, epoch, status, id) =
      frame operation (or_now row.custody_window_started_at now)
        (now + seconds (delay_of operation row jitter)) row in
    record {
      counted = λ kind.
          counts_one operation kind (or_now row.custody_window_started_at now)
            (now + seconds (delay_of operation row jitter)) row;
      window_start = opens_window row.custody_window_started_at now;
      next = ap (λ d. some (now + seconds d)) (waits operation row jitter);
      state = state;
      epoch = epoch;
      status = status;
    }

pub left_of_budget :
    (operation : PortOperation) (row : JobRow)
    → leb (limit_of operation) (count_of operation row) ≡ false
    → used operation row < budget operation
left_of_budget initial row h = ground arith
left_of_budget retry row h = ground arith
left_of_budget poll row h = ground arith
