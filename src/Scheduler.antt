-- ===== src/Scheduler.antt =====
-- controller/internal/scheduler: capacity, a machine and a runner record for a job, or nothing.
pub mod Cloud
pub mod Scheduling
pub mod Accounts
pub mod Keeping
pub mod Fakes
pub mod Samples
mod Tests
