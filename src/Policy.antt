-- ===== src/Policy.antt =====
-- controller/internal/policy: which pool a mode selects.
pub mod Selecting
mod Tests
