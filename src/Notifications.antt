-- ===== src/Notifications.antt =====
-- Notifications: the stored notifications and the queue that delivers them
-- (internal/notifications, internal/storage).
pub mod Store
pub mod Queue
pub mod Tracker
mod Examples
