-- ===== src/Controller.antt =====
-- controller/internal/controller: what a webhook delivery does to the repository, the scheduler, the
-- runner service and the providers.
pub mod Deployment
pub mod Queueing
pub mod Finishing
pub mod Handler
pub mod Keeping
pub mod Events
pub mod Deliveries
pub mod Names
pub mod Stopping
pub mod Closing
pub mod Finished
mod Tests
