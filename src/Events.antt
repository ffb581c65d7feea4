-- ===== src/Events.antt =====
-- The server's processing of job lifecycle events:
-- packages/server/src/server/services/events/processing.py over the job repository.
pub mod Contract
pub mod Rows
pub mod Store
pub mod Progress
pub mod Columns
pub mod Updates
pub mod Handlers
pub mod Outcome
pub mod Documents
pub mod Delivery
pub mod Lifecycle
pub mod Order
pub mod Throttle
pub mod Workspace
