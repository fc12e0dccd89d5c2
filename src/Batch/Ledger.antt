-- ===== src/Batch/Ledger.antt =====
-- `ReportBatchLedger`, the SQLite ledger of batches and their items
-- (src/app/report_batch_orchestrator/ledger.py). Each operation is a function from the tables to its
-- result and the tables after it.
pub mod Tables
pub mod Items
pub mod Control
pub mod Create
pub mod Effects
pub mod BatchEffects
pub mod Invariant
pub mod Commands
pub mod Soundness
pub mod Preservation
pub mod Fencing
pub mod Leases
pub mod Identity
pub mod Once
pub mod Cancelled
pub mod Progress
pub mod Status
pub mod Retry
pub mod Settled
