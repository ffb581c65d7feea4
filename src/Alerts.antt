-- ===== src/Alerts.antt =====
-- Operational alerts: packages/server/src/server/services/operations/alerts.py.
pub mod Build
pub mod Deliver
pub mod Cooldown
pub mod Counters
