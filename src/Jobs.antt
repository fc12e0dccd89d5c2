-- ===== src/Jobs.antt =====
-- The lifecycle of report jobs in the SQLite ledger (src/app/reporting_jobs/).
pub mod Status
pub mod Events
pub mod Tables
pub mod Custody
pub mod Transition
pub mod Work
pub mod Ports
pub mod Runs
pub mod Tests
