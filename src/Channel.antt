-- ===== src/Channel.antt =====
-- ably-c/src/realtime/channel.c and channel.h: one channel of the realtime client.
pub mod ChannelState
pub mod Pending
pub mod Listeners
pub mod Listening
pub mod Delta
pub mod DeltaLaws
pub mod Site
pub mod Receive
pub mod Control
pub mod Steps
pub mod Tracked
pub mod TrackedFrames
pub mod TrackedRuns
pub mod Reconnect
pub mod Recovery
pub mod Flushing
pub mod Flushed
pub mod Delivered
pub mod Outcomes
pub mod Rejoined
pub mod Runs
mod WholeRuns
mod RestRuns
mod JsonRuns
