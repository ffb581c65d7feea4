-- ===== src/Processor.antt =====
-- Execution of one job by a worker: packages/upnext/src/upnext/engine/job_processor.py.
pub mod State
pub mod Run
pub mod Counts
pub mod Settles
pub mod Ends
pub mod Latest
pub mod Retry
pub mod Active
