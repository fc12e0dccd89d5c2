-- ===== src/Clients.antt =====
-- The clients of other services (src/app/clients).
pub mod Retry
mod Tests
