-- ===== src/Channel/Control.antt =====
-- The operations on a channel of ably-c/src/realtime/channel.c that send a frame or set an option:
-- attach, detach, `ably_channel_set_options`, `ably_channel_enable_delta`, and the client's own presence.
-- Where memory is allocated, the argument `allocated` says whether there is enough.
use ably_connectors.Prelude.{
  ℕ, zero, suc, ◌+◌, Bool, true, false, ◌&&◌, Option, none, some, List, [], ◌∷◌, take,
  if◌then◌else◌,
}
use ably_connectors.Types.{
  AblyError, success, bad_state, invalid_arg, no_mem, internal, capacity, ConnectionState,
  connected, or_empty, non_empty, Codec,
}
use ably_connectors.Realtime.Presence
use ably_connectors.Realtime.Presence.{
  PresenceState, PresenceMessage, PresenceAction, leave, update, is_present, Member, member_at,
  max_presence_members,
}
use ably_connectors.Realtime.SendRing
use ably_connectors.Realtime.SendRing.{SendRing, EnqueueError, rt_enqueue_frame}
use ably_connectors.Channel.ChannelState.{
  ChannelState, attaching, attached, detaching, same_state, is_attached_or_attaching,
}
use ably_connectors.Channel.Pending.{enqueue_encoded, publish}
use ably_connectors.Channel.Delta.{DeltaState, forget}
use ably_connectors.Channel.Site.{OwnPresence, Site, set_state_locked, attach_params, reenter_own}

abbrev pub is_connected : ConnectionState → Bool
is_connected connected = true
is_connected _ = false

-- The presence state of a channel that had none: `ably_presence_init` and a zeroed own membership.
abbrev pub new_presence : OwnPresence
new_presence = record {
  members = Presence.init;
  own_client_id = [];
  own_data = [];
  own_entered = false;
}

-- The client id of the caller, else that of the client; "" where neither is given.
abbrev pub identity : Option (List ℕ) → List ℕ → List ℕ
identity none client = client
identity (some []) client = client
identity (some (c ∷ id)) client = c ∷ id

-- `ably_presence_get_members` at index `i` with `n` members left, where `room` places of `out` are
-- free: what is written, and the total.
unfoldable pub members_from : ℕ → ℕ → ℕ → List Member → List PresenceMessage × ℕ
members_from zero i room pool = ([], 0)
members_from (suc n) i zero pool =
    let (written, total) = members_from n (i + 1) zero pool in
    let m = member_at pool i in
    if m.in_use && is_present m.msg.action then (written, total + 1) else (written, total)
members_from (suc n) i (suc room) pool =
    let m = member_at pool i in
    let taken = members_from n (i + 1) room pool in
    let skipped = members_from n (i + 1) (suc room) pool in
    if m.in_use && is_present m.msg.action then (m.msg ∷ taken.0, taken.1 + 1) else skipped

abbrev pub get_members : Option OwnPresence → ℕ → List PresenceMessage × ℕ
get_members none max = ([], 0)
get_members (some p) max = members_from max_presence_members 0 max p.members.pool

-- `ensure_pres`.
abbrev pub ensure_pres : (allocated : Bool) → Option OwnPresence → Option OwnPresence
ensure_pres allocated (some p) = some p
ensure_pres true none = some new_presence
ensure_pres false none = none

module _ {ℓ} {C : Type ℓ} where
  -- `rt_enqueue_frame`, then the new state where the ring takes the frame.
  abbrev pub enqueued_then : Site C → ChannelState → SendRing × EnqueueError → Site C × AblyError
  enqueued_then s new_state (ring, SendRing.success) =
      (set_state_locked (record s { ring = ring }) new_state success, success)
  enqueued_then s new_state (ring, SendRing.capacity) = (s, capacity)

  abbrev pub send_then : Site C → ChannelState → Option (List ℕ) → Site C × AblyError
  send_then s new_state none = (s, internal)
  send_then s new_state (some buf) = enqueued_then s new_state (rt_enqueue_frame s.ring buf)

  unfoldable pub attach : Codec → Site C → Site C × AblyError
  attach codec s =
      if is_attached_or_attaching s.ch.state
      then (s, success)
      else if is_connected s.conn_state
      then send_then s attaching (codec.encode_attach s.ch.name (attach_params s.ch))
      else (s, bad_state)

  unfoldable pub detach : Codec → Site C → Site C × AblyError
  detach codec s =
      if is_attached_or_attaching s.ch.state
      then send_then s detaching (codec.encode_detach s.ch.name)
      else (s, bad_state)

  abbrev pub attach_after : Codec → Site C × AblyError → Site C × AblyError
  attach_after codec (s, success) = attach codec s
  attach_after codec (s, e) = (s, e)

  -- A negative `rewind` is the case of 0.
  unfoldable pub set_options : Codec → Site C → ℕ → ℕ → Site C × AblyError
  set_options codec s rewind modes =
      let s' = record s { ch = record s.ch { rewind = rewind; channel_modes = modes } } in
      if is_attached_or_attaching s.ch.state
      then attach_after codec (detach codec s')
      else (s', success)

  abbrev pub with_delta : Site C → DeltaState → Site C
  with_delta s d = record s { ch = record s.ch { delta = d } }

  unfoldable pub enable_delta : (allocated : Bool) → Site C → Site C × AblyError
  enable_delta allocated s =
      if is_attached_or_attaching s.ch.state
      then (s, bad_state)
      else if s.ch.delta.enabled
      then (s, success)
      else if allocated
      then (with_delta s (record (forget s.ch.delta) { enabled = true }), success)
      else (s, no_mem)

  abbrev pub sent : Site C → SendRing × AblyError → Site C × AblyError
  sent s (ring, e) = (record s { ring = ring }, e)

  abbrev pub with_own : Site C → OwnPresence → Site C
  with_own s p = record s { ch = record s.ch { pres = some p } }

  abbrev pub enter_with :
      Codec → Site C → List ℕ → Option (List ℕ) → Option OwnPresence → Site C × AblyError
  enter_with codec s client_id own_data none = (s, no_mem)
  enter_with codec s client_id own_data (some p) = (
    reenter_own codec (
        with_own s (record p {
          own_client_id = take 255 client_id;
          own_data = take 32767 (or_empty own_data);
          own_entered = true;
        })),
    success,
  )

  abbrev pub enter_as :
      Codec → (allocated : Bool) → Site C → List ℕ → Option (List ℕ) → Site C × AblyError
  enter_as codec allocated s [] own_data = (s, invalid_arg)
  enter_as codec allocated s (c ∷ id) own_data =
      if same_state s.ch.state attached
      then enter_with codec s (c ∷ id) own_data (ensure_pres allocated s.ch.pres)
      else (s, bad_state)

  unfoldable pub presence_enter :
      Codec → (allocated : Bool) → Site C → Option (List ℕ) → Option (List ℕ) → Site C × AblyError
  presence_enter codec allocated s client_id own_data =
      enter_as codec allocated s (identity client_id s.client_id) own_data

  -- The presence message of the client itself.
  abbrev pub send_own :
      Codec → Site C → OwnPresence → PresenceAction → Option (List ℕ) → Site C × AblyError
  send_own codec s p action own_data = sent s (
      enqueue_encoded s.ring
        (codec.encode_presence s.ch.name action p.own_client_id (non_empty (or_empty own_data))))

  abbrev pub leave_with : Codec → Site C → Option (List ℕ) → Option OwnPresence → Site C × AblyError
  leave_with codec s own_data none = (s, bad_state)
  leave_with codec s own_data (some p) =
      if p.own_entered
      then send_own codec (with_own s (record p { own_entered = false })) p leave own_data
      else (s, bad_state)

  unfoldable pub presence_leave : Codec → Site C → Option (List ℕ) → Site C × AblyError
  presence_leave codec s own_data =
      if same_state s.ch.state attached
      then leave_with codec s own_data s.ch.pres
      else (s, bad_state)

  abbrev pub update_with :
      Codec → Site C → Option (List ℕ) → Option OwnPresence → Site C × AblyError
  update_with codec s own_data none = (s, bad_state)
  update_with codec s own_data (some p) =
      if p.own_entered
      then send_own codec (with_own s (record p { own_data = take 32767 (or_empty own_data) })) p
          update own_data
      else (s, bad_state)

  unfoldable pub presence_update : Codec → Site C → Option (List ℕ) → Site C × AblyError
  presence_update codec s own_data =
      if same_state s.ch.state attached
      then update_with codec s own_data s.ch.pres
      else (s, bad_state)

  -- `ably_channel_publish` on the channel of `s`.
  unfoldable pub publish_on :
      Codec → Site C → Option (List ℕ) → Option (List ℕ) → Option (List ℕ) → Site C × AblyError
  publish_on codec s name msg_data id =
      let (pending, ring, e) =
        publish codec s.ch.name s.client_id s.ch.state s.ch.pending s.ring name msg_data id in
      (record s { ch = record s.ch { pending = pending }; ring = ring }, e)
