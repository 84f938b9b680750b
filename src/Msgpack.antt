-- ===== src/Msgpack.antt =====
-- The MessagePack protocol frames: ably-c/src/realtime/protocol_msgpack.c and the MessagePack encoder
-- of presence.c.
pub mod Nodes
pub mod Decode
pub mod Encode
pub mod Lost
mod Runs
