-- ===== src/Events.antt =====
-- backend/src/postbase/capabilities/events.
pub mod Store
pub mod Jobs
pub mod Attempt
pub mod Batch
pub mod Replay
pub mod Policy
mod Examples
