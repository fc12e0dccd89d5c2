-- ===== src/Batch/World.antt =====
-- What a pass of the orchestrator works on: the batch tables beside the report-job side, which is a
-- parameter with a state of its own, and the load, the policy and the result of a dispatch
-- (src/app/report_batch_orchestrator/models.py and dispatch.py).
use lotus_report.Prelude.{ℕ, String, Option, List}
use lotus_report.Sql.{Result, ok, err, Call}
use lotus_report.Clock.{Time}
use lotus_report.Batch.Selector.{ReportCallerContext}
use lotus_report.Batch.Ledger.Tables.{Db, LedgerError}

pub record BatchRuntimeLoad : Type 0 where
  pub active_batches : ℕ
  pub active_items : ℕ
  pub active_upstream_jobs : ℕ
  pub active_render_jobs : ℕ
  pub active_archive_jobs : ℕ

pub record BatchDispatchPolicy : Type 0 where
  pub max_active_batches : ℕ
  pub max_active_items : ℕ
  pub max_active_upstream_jobs : ℕ
  pub max_active_render_jobs : ℕ
  pub max_active_archive_jobs : ℕ
  pub lease_seconds : ℕ

pub record BatchDispatchResult : Type 0 where
  pub batch_id : String
  pub leased_count : ℕ
  pub dispatched_count : ℕ
  pub report_job_ids : List String
  pub back_pressure_reasons : List String

-- PortfolioReviewJobRequest
pub record JobRequest : Type 0 where
  pub portfolio_ids : List String
  pub as_of_date : String
  pub requested_output_formats : List String
  pub reporting_currency : Option String
  pub options : String

-- What a pass of the orchestrator raises: an error of the batch ledger, an exception of the report
-- side with its text, or its own refusals.
pub data PassError : Type 0 where
  ledger_error : LedgerError → PassError
  report_side : String → PassError
  batch_item_missing_lease_token batch_item_not_waiting_on_report_job : PassError
  batch_item_report_job_missing report_batch_item_not_found : PassError

-- The batch tables, and the state of the report-job side.
pub record World (J : Type 0) : Type 0 where
  pub db : Db
  pub jobs : J

-- Creation of a report job: the message with which the request's validators refuse it, or none; and
-- the job id that the ledger returns, or the text of its exception.
pub record JobCreation (J : Type 0) : Type 0 where
  pub rejects : JobRequest → Option String
  pub create_portfolio_review_job :
      JobRequest → ReportCallerContext → String → J → Result String String × J

abbrev pub ledger_answer : {A : Type 0} → Result LedgerError A → Result PassError A
ledger_answer (ok a) = ok a
ledger_answer (err e) = err (PassError.ledger_error e)

abbrev pub report_answer : {A : Type 0} → Result String A → Result PassError A
report_answer (ok a) = ok a
report_answer (err e) = err (PassError.report_side e)

module _ {J : Type 0} where
  -- A call of the batch ledger, which commits or rolls back by itself.
  abbrev pub on_ledger :
      {A : Type 0} → (Db → Result LedgerError A × Db) → Call (World J) PassError A
  on_ledger call w = (ledger_answer (call w.db).0, record w { db = (call w.db).1 })

  abbrev pub on_jobs : {A : Type 0} → (J → Result String A × J) → Call (World J) PassError A
  on_jobs call w = (report_answer (call w.jobs).0, record w { jobs = (call w.jobs).1 })

-- What a pass draws from outside: the fresh lease token, and a reading of the clock for the dispatch
-- and for the call on each item.
pub record PassDraws : Type 0 where
  pub lease_token : String
  pub acquired_at : Time
  pub item_at : ℕ → Time
