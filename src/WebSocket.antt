-- ===== src/WebSocket.antt =====
-- The WebSocket transport, ably-c/src/ws/ws_client.c.
pub mod Transport
pub mod Upgrade
pub mod Leftover
pub mod Closing
mod Runs
