-- ===== src/Jobs/Tests/Queue.antt =====
-- The theorems on the work queue at a table of one job and one work item.
use lotus_report.Prelude.{ℕ, ◌↔◌, ◌≤◌, ℕ, ◌≡◌, refl, none, some, List, [], ◌∷◌, arith, ◌+◌}
use lotus_report.Sql.{fetchone, rowcount, IsUnique}
use lotus_report.Clock.{seconds}
use lotus_report.Text.{cut, squeeze}
use lotus_report.Jobs.Status.{ReportJobStatus}
use lotus_report.Jobs.Tables.{JobRow, WorkItemRow, WorkStatus, Db}
use lotus_report.Jobs.Transition.Marks.{Operation}
use lotus_report.Jobs.Transition.History.{replays}
use lotus_report.Jobs.Work.{ReportJobWorkRetryPolicy, decide_report_job_work_failure}
use lotus_report.Jobs.Work.Custody.{is_work}
use lotus_report.Jobs.Work.Queue.{complete_work_item, defer_work_item}
use lotus_report.Jobs.Work.Failure.{fail_work_item}
use lotus_report.Jobs.Work.Budget.{IsWithin}
use lotus_report.Jobs.Work.Delay.{decide-bounded}
use lotus_report.Jobs.Work.Fencing.{IsRefused, unheld-IsRefused}
use lotus_report.Jobs.Work.Held.{IsHeld, IsWritten, held-settled}
use lotus_report.Jobs.Work.Attempts.{IsExhausted, fail-held, fail-exhausts}
use lotus_report.Jobs.Runs.{Command, run}
use lotus_report.Jobs.Runs.Sound.{Consistent, run-IsConsistent}
use lotus_report.Jobs.Runs.Refines.{Steps, phase, run-refines}
use lotus_report.Jobs.Tests.{replays, worker, accepted_job, accepted_event, one_job}

abbrev work_policy : ReportJobWorkRetryPolicy
work_policy = record { max_attempts = 3; base_delay_seconds = 5; max_delay_seconds = 300 }

abbrev queued_item : WorkItemRow
queued_item = record {
  work_item_id = "work-1";
  report_job_id = "job-1";
  status = WorkStatus.pending;
  attempt_count = 0;
  available_at = 1000;
  lease_owner = none;
  lease_token = none;
  lease_acquired_at = none;
  lease_expires_at = none;
  last_error_category = none;
  last_error_summary = none;
  created_at = 1000;
  updated_at = 1000;
  completed_at = none;
}

abbrev pub leased_item : ℕ → WorkItemRow
leased_item n = record queued_item {
  status = WorkStatus.leased;
  attempt_count = n;
  lease_owner = some "worker-1";
  lease_token = some "token-1";
  lease_acquired_at = some 500000;
  lease_expires_at = some 60500000;
}

abbrev completed_item : WorkItemRow
completed_item = record queued_item { status = WorkStatus.completed; attempt_count = 1 }

abbrev collecting_job : JobRow
collecting_job = record accepted_job { status = ReportJobStatus.collecting_data }

abbrev with_item : JobRow → WorkItemRow → Db
with_item r w = record { jobs = r ∷ []; work_items = w ∷ []; events = accepted_event ∷ [] }

one_item : (w : WorkItemRow) → IsUnique (λ (x : WorkItemRow). x.work_item_id) (w ∷ [])
unfolding rowcount
one_item w k = ground arith

abbrev queue_script : List Command
queue_script =
    Command.claim "worker-1" 5 120 2000 (λ i. "token-1") (λ i. worker)
    ∷ Command.operate "job-1" Operation.collect worker
    ∷ Command.fail "work-1" "token-1" "upstream" "no answer" worker 3000
    ∷ Command.claim "worker-2" 5 120 200000000 (λ i. "token-2") (λ i. worker)
    ∷ Command.complete "work-1" "token-1" worker 200000001
    ∷ Command.defer "work-1" "token-2" "waiting" 30 worker 200000002
    ∷ []

with_item-Consistent :
    (w : WorkItemRow)
    → IsWithin 3 w
    → Consistent (w.work_item_id ∷ []) work_policy (with_item accepted_job w)
unfolding replays
with_item-Consistent w h = record {
  stocked = record { stored = refl; rows = (h, tt); work_ids = one_item w };
  audited = record { history = (refl, tt); job_ids = one_job accepted_job };
}

queued_item-IsWithin : IsWithin 3 queued_item
queued_item-IsWithin = record {
  queued = λ e. ground arith;
  leased = λ e. ground arith;
  charged = λ e. ground arith;
  held = λ e. ground arith;
  free = λ e. refl;
}

completed_item-IsWithin : IsWithin 3 completed_item
completed_item-IsWithin = record {
  queued = λ e. ground arith;
  leased = λ e. ground arith;
  charged = λ e. ground arith;
  held = λ e. ground arith;
  free = λ e. refl;
}

run-IsConsistent_example :
    Consistent
      ("work-1" ∷ [])
      work_policy
      (run work_policy queue_script (with_item accepted_job queued_item))
run-IsConsistent_example =
    run-IsConsistent ("work-1" ∷ []) work_policy queue_script (with_item accepted_job queued_item)
      (with_item-Consistent queued_item queued_item-IsWithin)

run-refines_example :
    (x : WorkItemRow) × (fetchone
        (is_work "work-1")
        (run work_policy queue_script (with_item accepted_job queued_item)).work_items
      ≡ some x)
    × Steps 3 (phase queued_item) (phase x)
unfolding fetchone
run-refines_example =
    run-refines work_policy ("work-1" ∷ []) queue_script (with_item accepted_job queued_item)
      "work-1" queued_item (with_item-Consistent queued_item queued_item-IsWithin) refl

unheld-IsRefused_example :
    IsRefused
      (with_item collecting_job (leased_item 1))
      (complete_work_item "work-1" "token-0" worker 2000 (with_item collecting_job (leased_item 1)))
    × IsRefused (with_item collecting_job (leased_item 1)) (
        defer_work_item "work-1" "token-0" "waiting" 30 worker 2000
          (with_item collecting_job (leased_item 1)))
    × IsRefused (with_item collecting_job (leased_item 1)) (
        fail_work_item "work-1" "token-0" "upstream" "no answer" work_policy worker 2000
          (with_item collecting_job (leased_item 1)))
unfolding fetchone
unheld-IsRefused_example =
    unheld-IsRefused (with_item collecting_job (leased_item 1)) "work-1" "token-0" (leased_item 1)
      collecting_job 2000 (one_item (leased_item 1)) refl refl refl (λ e. ground arith) worker
      "waiting" "upstream" "no answer" 30 work_policy

leased_item-IsHeld :
    (n : ℕ)
    → IsHeld
        (with_item collecting_job (leased_item n))
        "work-1"
        "token-1"
        (leased_item n)
        collecting_job
unfolding fetchone
leased_item-IsHeld n = record {
  work_ids = one_item (leased_item n);
  found = refl;
  job = refl;
  legacy = record { policy = refl; state = refl; offer = refl };
  held = refl;
}

abbrev leased_db : ℕ → Db
leased_db n = with_item collecting_job (leased_item n)

held-settled_example :
    IsWritten "work-1"
      (record (leased_item 1) {
        status = WorkStatus.completed;
        lease_owner = none;
        lease_token = none;
        lease_acquired_at = none;
        lease_expires_at = none;
        updated_at = 2000;
        completed_at = some 2000;
      })
      (leased_db 1)
      (complete_work_item "work-1" "token-1" worker 2000 (leased_db 1))
    × IsWritten "work-1"
        (record (leased_item 1) {
          status = WorkStatus.retry_pending;
          attempt_count = 0;
          available_at = 2000 + seconds 1;
          lease_owner = none;
          lease_token = none;
          lease_acquired_at = none;
          lease_expires_at = none;
          last_error_category = some (cut 80 "waiting");
          last_error_summary = some "Waiting on owner-side work; the failure budget is untouched.";
          updated_at = 2000;
        })
        (leased_db 1)
        (defer_work_item "work-1" "token-1" "waiting" 0 worker 2000 (leased_db 1))
held-settled_example =
    held-settled "work-1" "token-1" (leased_item 1) collecting_job (leased_db 1)
      (leased_item-IsHeld 1) "waiting" 0 worker 2000

fail-held_example :
    IsWritten "work-1"
      (record (leased_item 2) {
        status = WorkStatus.retry_pending;
        available_at = 2000 + seconds 10;
        lease_owner = none;
        lease_token = none;
        lease_acquired_at = none;
        lease_expires_at = none;
        last_error_category = some (cut 80 "upstream");
        last_error_summary = some (cut 240 (squeeze "no  answer"));
        updated_at = 2000;
      })
      (leased_db 2)
      (fail_work_item "work-1" "token-1" "upstream" "no  answer" work_policy worker 2000
        (leased_db 2))
fail-held_example =
    fail-held "work-1" "token-1" (leased_item 2) collecting_job (leased_db 2) (leased_item-IsHeld 2)
      "upstream" "no  answer" work_policy worker 2000 refl

fail-exhausts_example :
    IsExhausted "work-1" "upstream" "no  answer" work_policy worker 2000
      (leased_item 3)
      collecting_job
      (leased_db 3)
      (fail_work_item "work-1" "token-1" "upstream" "no  answer" work_policy worker 2000
        (leased_db 3))
fail-exhausts_example =
    fail-exhausts "work-1" "token-1" (leased_item 3) collecting_job (leased_db 3)
      (leased_item-IsHeld 3) "upstream" "no  answer" work_policy worker 2000
      (one_job collecting_job) refl refl

decide-bounded_example :
    (((decide_report_job_work_failure 2 2000 work_policy).status ≡ WorkStatus.failed) ↔ (3 ≤ 2))
    × (2000 + seconds 5 ≤ (decide_report_job_work_failure 2 2000 work_policy).available_at)
    × ((decide_report_job_work_failure 2 2000 work_policy).available_at ≤ 2000 + seconds 300)
    × ((decide_report_job_work_failure 2 2000 work_policy).available_at
        ≤ (decide_report_job_work_failure 3 2000 work_policy).available_at)
decide-bounded_example = decide-bounded work_policy 2 2000 (omega arith)
