-- ===== src/Queue.antt =====
-- The Redis queue of packages/upnext/src/upnext/engine/queue/redis/queue.py: which functions a worker
-- may dequeue from, how often, and in which order.
pub mod Keys
pub mod Redis
pub mod State
pub mod Scripts
pub mod Operations
pub mod Process
pub mod Deliver
pub mod Lookup
pub mod Cancel
pub mod Sweep
pub mod Same
pub mod Dedup
pub mod Enqueued
pub mod Moved
pub mod Cancelled
pub mod Kept
pub mod Tokens
pub mod Bound
pub mod Fair
pub mod Windows
pub mod Missed
pub mod Runnable
