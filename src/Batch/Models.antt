-- ===== src/Batch/Models.antt =====
-- The rows of the tables `report_batch` and `report_batch_item`, and the records that the ledger
-- returns (src/app/report_batch_orchestrator/models.py, ledger.py).
use lotus_report.Prelude.{ℕ, String, Bool, Option, List, ◌==◌}
use lotus_report.Clock.{Time}

pub data BatchStatus : Type 0 where
  materialized running paused cancelled completed completed_with_failures failed : BatchStatus

pub data BatchItemStatus : Type 0 where
  materialized leased waiting_on_report_job succeeded : BatchItemStatus
  failed_retryable failed_terminal cancelled recovery_pending : BatchItemStatus

abbrev batch_code : BatchStatus → ℕ
batch_code BatchStatus.materialized = 0
batch_code BatchStatus.running = 1
batch_code BatchStatus.paused = 2
batch_code BatchStatus.cancelled = 3
batch_code BatchStatus.completed = 4
batch_code BatchStatus.completed_with_failures = 5
batch_code BatchStatus.failed = 6

abbrev item_code : BatchItemStatus → ℕ
item_code BatchItemStatus.materialized = 0
item_code BatchItemStatus.leased = 1
item_code BatchItemStatus.waiting_on_report_job = 2
item_code BatchItemStatus.succeeded = 3
item_code BatchItemStatus.failed_retryable = 4
item_code BatchItemStatus.failed_terminal = 5
item_code BatchItemStatus.cancelled = 6
item_code BatchItemStatus.recovery_pending = 7

-- `status = '...'`
abbrev pub batch_is : BatchStatus → BatchStatus → Bool
batch_is a b = batch_code a == batch_code b

abbrev pub item_is : BatchItemStatus → BatchItemStatus → Bool
item_is a b = item_code a == item_code b

pub record ItemRow : Type 0 where
  pub batch_item_id : String
  pub batch_id : String
  pub item_position : ℕ
  pub portfolio_id : String
  pub item_idempotency_key : String
  pub status : BatchItemStatus
  pub source_system : String
  pub source_object : String
  pub created_at : Time
  pub report_job_id : Option String
  pub lease_owner : Option String
  pub lease_token : Option String
  pub lease_acquired_at : Option Time
  pub lease_expires_at : Option Time
  pub last_heartbeat_at : Option Time
  pub dispatched_at : Option Time
  pub attempt_count : ℕ
  pub retry_eligible : Bool
  pub next_retry_at : Option Time
  pub last_error_category : Option String
  pub last_error_summary : Option String
  pub started_at : Option Time
  pub completed_at : Option Time
  pub cancelled_at : Option Time

-- The columns that hold JSON keep their text, but for the two lists that the program reads back.
pub record BatchRow : Type 0 where
  pub batch_id : String
  pub selector_mode : String
  pub tenant_id : String
  pub region : String
  pub booking_center_code : Option String
  pub materialized_portfolio_ids : List String
  pub requested_output_formats : List String
  pub as_of_date : String
  pub reporting_currency : Option String
  pub options_json : String
  pub trigger_type : String
  pub triggered_by : String
  pub caller_application : String
  pub role : Option String
  pub idempotency_key : String
  pub request_hash : String
  pub status : BatchStatus
  pub item_count : ℕ
  pub correlation_id : String
  pub trace_id : String
  pub created_at : Time
  pub updated_at : Option Time
  pub started_at : Option Time
  pub completed_at : Option Time
  pub cancelled_at : Option Time
  pub failed_at : Option Time

pub record ReportBatchRecord : Type 0 where
  pub row : BatchRow
  pub open row use *
  pub items : List ItemRow

pub record BatchControlResult : Type 0 where
  pub batch_id : String
  pub affected_count : ℕ
  pub batch_status : BatchStatus

pub record BatchRecoveryResult : Type 0 where
  pub batch_id : String
  pub recovered_count : ℕ
  pub recovery_pending_item_ids : List String
