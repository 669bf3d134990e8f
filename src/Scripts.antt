-- ===== src/Scripts.antt =====
-- The scripts of an operator, and when the schedules run them (internal/scripts).
pub mod Text
pub mod Cron
pub mod Scheduler
mod Examples
