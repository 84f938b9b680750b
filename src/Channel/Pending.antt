-- ===== src/Channel/Pending.antt =====
-- Publishing on a channel, ably-c/src/realtime/channel.c: `ably_channel_publish`,
-- `ably_channel_publish_with_id`, and the queue for the messages published while the channel attaches.
use ably_connectors.Prelude.{
  ℕ, zero, suc, ◌+◌, ◌%◌, Option, none, some, List, [], get_or, set, take, replicate, ◌==◌,
  if◌then◌else◌,
}
use ably_connectors.Types.{
  AblyError, success, bad_state, capacity, internal, Codec, or_empty, non_empty,
}
use ably_connectors.Realtime.SendRing
use ably_connectors.Realtime.SendRing.{
  SendRing, EnqueueError, rt_enqueue_frame, rt_claim_msg_serial,
}
use ably_connectors.Channel.ChannelState.{ChannelState, attaching, attached}

abbrev pub pending_capacity : ℕ
pending_capacity = 32

-- One entry of `pending_queue`: a name and data, "" for NULL.
abbrev pub Queued : Type 0
Queued = List ℕ × List ℕ

abbrev pub no_entry : Queued
no_entry = ([], [])

pub record Pending : Type 0 where
  pub queue : List Queued
  pub head : ℕ
  pub tail : ℕ

abbrev pub next_slot : ℕ → ℕ
next_slot i = (i + 1) % pending_capacity

unfoldable pub empty_pending : Pending
empty_pending = record { queue = replicate pending_capacity no_entry; head = 0; tail = 0 }

-- While ATTACHING: the message is queued, cut to the fields of the queue.
unfoldable pub queue_message : Pending → Option (List ℕ) → Option (List ℕ) → Pending × AblyError
queue_message p name msg_data = if next_slot p.head == p.tail then (p, capacity) else (
  record p {
    queue = set p.queue p.head (take 255 (or_empty name), take 32767 (or_empty msg_data));
    head = next_slot p.head;
  },
  success,
)

abbrev pub to_error : EnqueueError → AblyError
to_error SendRing.success = success
to_error SendRing.capacity = capacity

abbrev pub enqueue_encoded : SendRing → Option (List ℕ) → SendRing × AblyError
enqueue_encoded ring none = (ring, internal)
enqueue_encoded ring (some buf) = let (ring', e) = rt_enqueue_frame ring buf in (ring', to_error e)

-- The frame of a message, with the next serial.
unfoldable pub send_message :
    Codec
    → List ℕ
    → List ℕ
    → SendRing
    → Option (List ℕ)
    → Option (List ℕ)
    → Option (List ℕ)
    → SendRing × AblyError
send_message codec channel client_id ring name msg_data id =
    let (ring', serial) = rt_claim_msg_serial ring in
    enqueue_encoded ring'
      (codec.encode_publish channel name msg_data (non_empty client_id) id serial)

abbrev pub with_ring : SendRing → Pending × AblyError → Pending × SendRing × AblyError
with_ring ring (p, e) = (p, ring, e)

abbrev pub with_pending : Pending → SendRing × AblyError → Pending × SendRing × AblyError
with_pending p (ring, e) = (p, ring, e)

-- `ably_channel_publish_with_id`; `ably_channel_publish` is the case of no id. The queue does not keep
-- the id.
unfoldable pub publish :
    Codec
    → List ℕ
    → List ℕ
    → ChannelState
    → Pending
    → SendRing
    → Option (List ℕ)
    → Option (List ℕ)
    → Option (List ℕ)
    → Pending × SendRing × AblyError
publish codec channel client_id attaching p ring name msg_data id =
    with_ring ring (queue_message p name msg_data)
publish codec channel client_id attached p ring name msg_data id =
    with_pending p (send_message codec channel client_id ring name msg_data id)
publish codec channel client_id _ p ring name msg_data id = (p, ring, bad_state)

-- A frame that the ring refuses is lost.
abbrev pub enqueue_if : SendRing → Option (List ℕ) → SendRing
enqueue_if ring none = ring
enqueue_if ring (some buf) = (rt_enqueue_frame ring buf).0

-- One round of `flush_pending_queue`.
unfoldable pub flush_one : Codec → List ℕ → List ℕ → Pending → SendRing → SendRing
flush_one codec channel client_id p ring =
    let (name, msg_data) = get_or p.queue p.tail no_entry in
    let (ring', serial) = rt_claim_msg_serial ring in
    enqueue_if ring' (
      codec.encode_publish channel (non_empty name) (non_empty msg_data) (non_empty client_id) none
        serial)

-- The loop, with `fuel` rounds at most.
unfoldable pub flush_from : ℕ → Codec → List ℕ → List ℕ → Pending → SendRing → Pending × SendRing
flush_from zero codec channel client_id p ring = (p, ring)
flush_from (suc fuel) codec channel client_id p ring =
    let rest =
      flush_from fuel codec channel client_id (record p { tail = next_slot p.tail })
        (flush_one codec channel client_id p ring) in
    if p.tail == p.head then (p, ring) else rest

-- The queue holds fewer than `pending_capacity` entries, so this is fuel enough.
unfoldable pub flush_pending_queue :
    Codec → List ℕ → List ℕ → Pending → SendRing → Pending × SendRing
flush_pending_queue codec channel client_id p ring =
    flush_from pending_capacity codec channel client_id p ring
