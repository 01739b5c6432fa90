-- ===== src/Capacity.antt =====
-- controller/internal/capacity: the registry of capacity pools, its reservations and its replicas.
pub mod Pool
pub mod Validation
pub mod Registry
mod Usage
pub mod Validity
pub mod Soundness
pub mod Histories
pub mod Retraction
pub mod Fences
mod Takeover
mod Overflow
pub mod Choice
mod Leadership
pub mod Samples
mod Tests
pub mod Replica
pub mod Selection
