-- ===== src/Lifecycle.antt =====
-- controller/internal/lifecycle: the moves of a job, and the reaper of expired runners, over
-- controller/internal/state and a provider of controller/internal/providers.
pub mod Transitions
pub mod Moving
pub mod Provider
pub mod System
pub mod Reaper
pub mod Repair
pub mod Reconciler
pub mod Confirmation
pub mod Fake
pub mod FakeLaws
pub mod Solitude
pub mod Syncs
pub mod Records
mod Tests
