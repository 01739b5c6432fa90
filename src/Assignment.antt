-- ===== src/Assignment.antt =====
-- controller/internal/runners: a GitHub registration, a machine and a runner record for a job.
pub mod Request
pub mod Policy
pub mod Registrar
pub mod Cleanup
pub mod Bootstrap
pub mod Service
pub mod Cleaning
pub mod Leak
pub mod Records
pub mod Success
pub mod Settlement
mod Tests
