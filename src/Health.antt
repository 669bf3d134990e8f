-- ===== src/Health.antt =====
-- The health of the services (internal/health).
pub mod Checker
mod Examples
