-- ===== src/Clock.antt =====
-- Times as the ledgers store and compare them: `_dt_to_text` writes a UTC time as ISO text, and SQL
-- compares the texts (src/app/report_batch_orchestrator/ledger.py, src/app/reporting_jobs/ledger.py). A time
-- is its microseconds since the epoch. `isoformat` leaves the fraction out where it is zero.
mod Laws
mod Tests
pub use Laws.*
mod Text
pub use Text.{Time, IsoText, second, seconds}
unfoldable pub use Text.{dt_to_text, before, not_after}
