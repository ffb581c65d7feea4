-- ===== src/Tests.antt =====
-- Concrete jobs, stores and workers, and what the library's theorems say of them.
pub mod Fixtures
pub mod Json
pub mod Redis
pub mod Jobs
pub mod Domain
pub mod Events
pub mod Pattern
pub mod Processor
pub mod Queue
pub mod Alerts
