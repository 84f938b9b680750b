-- ===== src/Json.antt =====
-- The JSON protocol frames: ably-c/src/realtime/protocol_json.c and the JSON encoder of presence.c.
pub mod Tree
pub mod Encode
pub mod Decode
pub mod Escape
pub mod Bounds
pub mod RoundTrip
mod Runs
