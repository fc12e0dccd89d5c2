-- ===== src/Batch.antt =====
-- Batch reporting (src/app/report_batch_orchestrator).
pub mod Models
pub mod Lifecycle
pub mod Selector
pub mod Ledger
pub mod Admission
pub mod World
pub mod Dispatch
pub mod Execution
pub mod Replay
pub mod Projection
pub mod Worker
mod Tests
