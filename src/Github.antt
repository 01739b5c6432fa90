-- ===== src/Github.antt =====
-- controller/internal/github: the deliveries of webhooks and the scope of what is admitted.
pub mod Events
pub mod Scope
pub mod Retry
pub mod Delays
pub mod Attempts
pub mod Bounded
mod Tests
