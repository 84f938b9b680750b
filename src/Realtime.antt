-- ===== src/Realtime.antt =====
-- ably-c/src/realtime: the realtime client, its outbound ring and the presence of a channel.
pub mod SendRing
pub mod SendQueue
pub mod Presence
pub mod Members
pub mod Joins
pub mod Sync
pub mod Pages
pub mod Kept
pub mod Frames
pub mod Subscribers
pub mod Subscribed
pub mod Runs
