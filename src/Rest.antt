-- ===== src/Rest.antt =====
-- ably-c/src/rest/rest_client.c: request paths, response bodies and the REST calls.
pub mod Text
pub mod Paths
pub mod Cursor
pub mod Links
pub mod Bodies
pub mod Calls
pub mod Recovery
pub mod Token
pub mod Stats
pub mod History
pub mod Bounds
pub mod Names
mod Runs
