-- ===== src/Channel/Site.antt =====
-- A channel with the parts of its client that it uses, ably-c/src/realtime/channel.h and channel.c:
-- `ably_channel_t`, the state transitions, and what a lost connection does.
-- A callback for messages, with its user data, is an element of `C`. What the user is told through
-- the callbacks is a list of events. Locking and logging are left out.
use ably_connectors.Prelude.{
  ℕ, Bool, true, false, not, ◌||◌, Option, none, some, List, [], ◌∷◌, ◌++◌, take, if◌then◌else◌,
}
use ably_connectors.Types.{
  AblyError, success, network, ConnectionState, ErrorInfo, no_error, Message, AttachParams,
  is_empty, non_empty, Codec,
}
use ably_connectors.Realtime.Presence.{PresenceState, PresenceMessage, enter}
use ably_connectors.Realtime.SendRing.{SendRing}
use ably_connectors.Channel.ChannelState.{
  ChannelState, initialized, attaching, detached, same_state, is_attached_or_attaching,
}
use ably_connectors.Channel.Pending.{Pending, empty_pending, enqueue_if}
use ably_connectors.Channel.Listeners.{Listeners, no_listeners}
use ably_connectors.Channel.Delta.{DeltaState, forget}

-- `ably_presence_state_t` with the fields for the client's own membership.
pub record OwnPresence : Type 0 where
  pub members : PresenceState
  pub own_client_id : List ℕ
  pub own_data : List ℕ
  pub own_entered : Bool

-- The calls of `state_cb`, of a subscriber, of `occupancy_listener` and of the presence subscribers.
pub data Event {ℓ} (C : Type ℓ) : Type ℓ where
  state_changed : ChannelState → ChannelState → AblyError → Event C
  delivered : C → Message → Event C
  occupancy : Event C
  member : PresenceMessage → Event C

-- `ably_channel_t`; of `state_cb` and `occupancy_listener` whether they are set.
pub record Channel {ℓ} (C : Type ℓ) : Type ℓ where
  pub name : List ℕ
  pub state : ChannelState
  pub has_state_cb : Bool
  pub listeners : Listeners C
  pub reattach_pending : Bool
  pub rewind : ℕ
  pub channel_serial : List ℕ
  pub has_occupancy_listener : Bool
  pub channel_modes : ℕ
  pub granted_modes : ℕ
  pub last_error : ErrorInfo
  pub delta : DeltaState
  pub pres : Option OwnPresence
  pub pending : Pending

-- A channel, what it uses of `channel->client`, and the calls of the user's callbacks so far.
pub record Site {ℓ} (C : Type ℓ) : Type ℓ where
  pub ch : Channel C
  pub ring : SendRing
  pub conn_state : ConnectionState
  pub client_id : List ℕ
  pub told : List (Event C)

module _ {ℓ} {C : Type ℓ} where
  unfoldable pub channel_create : List ℕ → Channel C
  channel_create name = record {
    name = take 255 name;
    state = initialized;
    has_state_cb = false;
    listeners = no_listeners;
    reattach_pending = false;
    rewind = 0;
    channel_serial = [];
    has_occupancy_listener = false;
    channel_modes = 0;
    granted_modes = 0;
    last_error = no_error;
    delta = record {
      enabled = false;
      buf0 = some [];
      buf1 = some [];
      buf_idx = false;
      last_id = [];
    };
    pres = none;
    pending = empty_pending;
  }

  abbrev pub tell : Site C → List (Event C) → Site C
  tell s events = record s { told = s.told ++ events }

  unfoldable pub set_state_locked : Site C → ChannelState → AblyError → Site C
  set_state_locked s new_state reason =
      let moved = record s { ch = record s.ch { state = new_state } } in
      if same_state s.ch.state new_state
      then s
      else if s.ch.has_state_cb
      then tell moved (state_changed new_state s.ch.state reason ∷ [])
      else moved

  unfoldable pub on_disconnect : Site C → Site C
  on_disconnect s =
      let marked =
        if is_attached_or_attaching s.ch.state
        then record s { ch = record s.ch { reattach_pending = true } }
        else s in
      let down = set_state_locked marked detached network in
      record down { ch = record down.ch { delta = forget down.ch.delta } }

  unfoldable pub set_attaching : Site C → Site C
  set_attaching s =
      set_state_locked (record s { ch = record s.ch { reattach_pending = false } }) attaching
        success

  -- The parameters of an ATTACH frame; the requested modes stay 0.
  abbrev pub attach_params : Channel C → AttachParams
  attach_params ch = record {
    delta = ch.delta.enabled;
    rewind = ch.rewind;
    occupancy = ch.has_occupancy_listener;
    channel_modes = 0;
    channel_serial = non_empty ch.channel_serial;
  }

  -- One channel of `rt_reattach_pending_channels`.
  abbrev pub reattach_encoded : Site C → Option (List ℕ) → Site C
  reattach_encoded s none = s
  reattach_encoded s (some buf) = set_attaching (record s { ring = enqueue_if s.ring (some buf) })

  unfoldable pub reattach : Codec → Site C → Site C
  reattach codec s =
      if s.ch.reattach_pending
      then reattach_encoded s (codec.encode_attach s.ch.name (attach_params s.ch))
      else s

  -- `send_presence` with the action ENTER, if the client has entered.
  abbrev pub reenter : Codec → Site C → Option OwnPresence → Site C
  reenter codec s none = s
  reenter codec s (some p) =
      let frame = codec.encode_presence s.ch.name enter p.own_client_id (some p.own_data) in
      if not p.own_entered || is_empty p.own_client_id
      then s
      else record s { ring = enqueue_if s.ring frame }

  unfoldable pub reenter_own : Codec → Site C → Site C
  reenter_own codec s = reenter codec s s.ch.pres
