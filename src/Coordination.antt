-- ===== src/Coordination.antt =====
-- controller/internal/coordination: leadership leases with a time to live and fencing tokens.
pub mod Lease
pub mod MemoryStore
pub mod Coordinator
pub mod Calls
mod Refusal
mod Grant
pub mod Exclusion
mod Follows
pub mod Fenced
pub mod Fencing
pub mod Answers
mod Tests
