-- ===== src/State.antt =====
-- controller/internal/state: the durable records of jobs, runners, leases and lifecycle events,
-- and the repository in memory.
pub mod Types
pub mod Table
pub mod Memory
pub mod Events
pub mod Agreement
pub mod Idempotency
pub mod Concurrency
pub mod Saving
pub mod Creation
pub mod Versions
pub mod Passing
pub mod Listing
pub mod Naming
mod Tests
