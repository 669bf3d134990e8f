-- ===== src/Websocket.antt =====
-- The WebSocket server's topics (internal/websocket): which subscriptions a message reaches.
pub mod Topics
pub mod Qos
pub mod Dedup
mod Examples
