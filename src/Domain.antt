-- ===== src/Domain.antt =====
-- packages/shared/src/shared/domain/jobs.py: statuses, sources, jobs and their payloads.
pub mod Status
pub mod Source
pub mod Job
pub mod Payload
pub mod Parse
pub mod RoundTrip
pub mod Lifecycle
