-- ===== src/Domain.antt =====
-- controller/internal/domain: the states of a job in the domain model.
pub mod Machine
mod Tests
