-- ===== src/Client.antt =====
-- ably-c/src/realtime/realtime_client.c and realtime_client.h: the connection of the realtime client.
pub mod Url
pub mod State
pub mod Dispatch
pub mod Service
pub mod Polling
pub mod Retries
pub mod Table
pub mod Closing
pub mod UrlCoding
pub mod Fallback
mod Runs
