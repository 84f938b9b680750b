-- ===== src/Channel/ChannelState.antt =====
-- `ably_channel_state_t` of ably-c/include/ably/ably_types.h.
use ably_connectors.Prelude.{Bool, true, false}

pub data ChannelState : Type 0 where
  initialized attaching attached detaching detached failed : ChannelState

abbrev pub same_state : ChannelState → ChannelState → Bool
same_state initialized initialized = true
same_state attaching attaching = true
same_state attached attached = true
same_state detaching detaching = true
same_state detached detached = true
same_state failed failed = true
same_state _ _ = false

-- `st == ABLY_CHAN_ATTACHED || st == ABLY_CHAN_ATTACHING`.
abbrev pub is_attached_or_attaching : ChannelState → Bool
is_attached_or_attaching attached = true
is_attached_or_attaching attaching = true
is_attached_or_attaching _ = false
