-- ===== src/Http.antt =====
-- ably-c/src/http/http_client.c: the head of a response.
pub mod Headers
pub mod Boundary
pub mod Exchange
pub mod Stream
mod Runs
