-- ===== src/Lib.antt =====
-- Verification of lotus-report: the durable state behind batch reports and report jobs.
--
-- The program. A batch is created for a list of portfolios (src/app/report_batch_orchestrator). Its
-- items are leased to a worker, each is handed to a report job, the job is executed, and the batch
-- takes its status from its items. A report job (src/app/reporting_jobs) moves through its lifecycle
-- in a ledger of its own, which writes a status event with every change. Both ledgers are SQL tables;
-- every operation is one transaction under a lock, so a run is a sequence of operations.
--
-- Files.
--   Prelude        lists, Boolean tests and texts that the other files share
--   Sql            SELECT, UPDATE, unique columns, a transaction (`connect`: commit, or roll back on an
--                  exception), bodies of several transactions (`Call`), and what a body keeps (Steps)
--   Clock          `_dt_to_text` and the SQL order of the stored texts
--   Text           the text operations of both: `strip`, `split`, sorting, slices and `str`
--   Batch/Models, Lifecycle
--                  models.py and lifecycle_policy.py of the orchestrator
--   Batch/Selector selector.py; Selector/Scope has its theorem, Lookup and Distinct its lemmas
--   Batch/Ledger   ledger.py: Tables (rows, `_load_batch`, `_refresh_batch_status`), Create
--                  (`create_batch`), Items (operations on one item), Control (operations on a batch).
--                  Commands puts them together as runs. Effects, BatchEffects, Invariant, Soundness,
--                  Create/Keeps and Preservation are the invariant; Fencing, Leases, Progress, Status,
--                  Identity, Once, Cancelled, Settled (with Create/Appends) and Retry are the properties
--                  of the operations.
--   Batch/Admission  tenant_admission.py
--   Batch/World      the state, the load and the policy of a pass, and the report-job side
--   Batch/Dispatch   dispatch.py; Dispatch/Bounds has its theorem
--   Batch/Execution  execution.py; Execution/Quarantine has its theorem
--   Batch/Replay     replay.py: what it decides on; Replay/Links and Replay/Service have the operation,
--                    Replay/Refusals and Replay/Tenancy its theorems, Replay/Foreign lemmas of the second
--   Batch/Projection status_projection.py; Projection/Tenant has its theorem
--   Batch/Worker     worker.py; Worker/Executed, Steps and Passes have its theorems
--   Jobs/Status    models.py and lifecycle_policy.py of src/app/reporting_jobs
--   Jobs/Events    event_contracts.py
--   Jobs/Tables    the rows of its ledger.py, and the triggers of custody_schema.py
--   Jobs/Custody   `guard_transition` and what it calls in custody_recovery.py and custody_policy.py
--   Jobs/Transition  `_transition_job` and `cancel_job`; Marks has the `mark_*` operations and runs;
--                  Move, Guard, Effect, History, Terminal and Progress are their properties.
--   Jobs/Work      the retry policy of work_queue.py, and the work queue of the ledger: Custody (what
--                  custody_recovery.py adds to it), Queue (`complete_work_item`, `defer_work_item`),
--                  Failure (`fail_work_item`, `_terminalize_report_job_from_work`), Claims
--                  (`claim_work_items`, `_recover_expired_work_items`). Closed says what a predicate on
--                  work items must satisfy for all of them to keep it, which Stock, Readings,
--                  Invariant, Operations, Failing, Recovery and Rounds show; Budget is such a
--                  predicate. Fencing, Held, Attempts (with
--                  Ending) and Delay are the properties of single operations.
--   Jobs/Ports     the ports `reserve`, `record_owner_due` and `block` of custody_recovery.py; Fence has
--                  what they check, Budgets, Quiet and Charged what they spend, Budgeted and Reserved their
--                  theorems
--   Jobs/Runs      every operation on jobs and work items as one type of commands, and their runs;
--                  Runs/Sound has the invariant, Runs/Refines the abstract machine of a work item
--   Clients/Retry  http_resilience.py of src/app/clients; Retry/Ends has its theorem, Retry/Verdicts its lemmas
--   Tests          of each part: small tables on which the theorems are applied
--
-- State and conventions. A table is the list of its rows, in the order of insertion; a row is a
-- record with the columns' names, NULL is `none`. A time is its microseconds since the epoch.
-- Clock readings, random ids and lease tokens are arguments. SHA-256 is an argument of
-- `create_batch`. An exception is a value, and a transaction that raises leaves the tables as
-- they were. Every function is structurally recursive: there is no fuel; a retried request recurs
-- on what is left of its range. The report-job side of the batch orchestrator is a parameter
-- (`JobCreation`, `JobRunner`, `ReplayJobs`) with an arbitrary state, about which nothing is
-- assumed. Status events keep the newest first.
--
-- Not modelled: the PostgreSQL ledgers, which repeat these operations; the lists and counts for
-- operators, schedules, and the counts of the status projection of batches; acceptance and rerenders
-- of report jobs; the offers, dispositions, verification and resumption of custody, which starts
-- its counters anew, the CHECK constraints on these counters, which `reserve` tests before it counts,
-- and the clauses of the triggers on columns that the modelled operations never write; the calendar
-- and the parsing of stored times; log lines; rendering, lineage, composite content, the other
-- clients, the HTTP layer and metrics.
pub mod Prelude
pub mod Sql
pub mod Clock
pub mod Text
pub mod Batch
pub mod Jobs
pub mod Clients
