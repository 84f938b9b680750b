-- ===== src/Realtime/SendRing.antt =====
-- The outbound ring buffer of ably-c/src/realtime/realtime_client.c, between the threads that publish
-- and the service thread. Every operation holds `send_mutex`, so a run of the threads is a sequence of
-- operations. A slot is the list of its `payload_len` payload bytes.
use ably_connectors.Prelude.{
  ℕ, ◌+◌, ◌%◌, Option, none, some, List, [], ◌∷◌, get_or, set, replicate, ◌==◌, if◌then◌else◌,
}

abbrev pub send_ring_capacity : ℕ
send_ring_capacity = 256

-- The part of `ably_rt_client_s` that `send_mutex` protects.
pub record SendRing : Type 0 where
  pub send_ring : List (List ℕ)
  pub send_head : ℕ
  pub send_tail : ℕ
  pub outbound_msg_serial : ℕ

-- ABLY_OK and ABLY_ERR_CAPACITY.
pub data EnqueueError : Type 0 where
  success capacity : EnqueueError

abbrev pub next_index : ℕ → ℕ
next_index i = (i + 1) % send_ring_capacity

unfoldable pub rt_enqueue_frame : SendRing → List ℕ → SendRing × EnqueueError
rt_enqueue_frame r payload = if next_index r.send_head == r.send_tail then (r, capacity) else (
  record r { send_ring = set r.send_ring r.send_head payload; send_head = next_index r.send_head },
  success,
)

unfoldable pub rt_claim_msg_serial : SendRing → SendRing × ℕ
rt_claim_msg_serial r =
    (record r { outbound_msg_serial = r.outbound_msg_serial + 1 }, r.outbound_msg_serial)

-- A new connection; the frames that wait stay in the ring.
unfoldable pub reset_msg_serial : SendRing → SendRing
reset_msg_serial r = record r { outbound_msg_serial = 0 }

unfoldable pub ring_peek : SendRing → Option (List ℕ)
ring_peek r = if r.send_head == r.send_tail then none else some (get_or r.send_ring r.send_tail [])

unfoldable pub ring_consume : SendRing → SendRing
ring_consume r = record r { send_tail = next_index r.send_tail }

abbrev pub consume_if : SendRing → Option (List ℕ) → SendRing × Option (List ℕ)
consume_if r none = (r, none)
consume_if r (some frame) = (ring_consume r, some frame)

-- "Drain outbound ring buffer": the payload that the service thread goes on to send.
unfoldable pub drain : SendRing → SendRing × Option (List ℕ)
drain r = consume_if r (ring_peek r)

-- The ring as the client is created with it. What `malloc` leaves in the frames is taken as empty.
unfoldable pub create_ring : SendRing
create_ring = record {
  send_ring = replicate send_ring_capacity [];
  send_head = 0;
  send_tail = 0;
  outbound_msg_serial = 0;
}

-- What the threads do with the ring.
pub data SendOp : Type 0 where
  enqueue : List ℕ → SendOp
  claim : SendOp
  take_frame : SendOp
  connect : SendOp

pub data SendReply : Type 0 where
  enqueued : EnqueueError → SendReply
  claimed : ℕ → SendReply
  taken : Option (List ℕ) → SendReply
  connected : SendReply

unfoldable pub perform : SendRing → SendOp → SendRing × SendReply
perform r (enqueue payload) = let (r', e) = rt_enqueue_frame r payload in (r', enqueued e)
perform r claim = let (r', serial) = rt_claim_msg_serial r in (r', claimed serial)
perform r connect = (reset_msg_serial r, connected)
perform r take_frame = let (r', frame) = drain r in (r', taken frame)

unfoldable pub perform_all : SendRing → List SendOp → List SendReply
perform_all r [] = []
perform_all r (op ∷ ops) = let (r', reply) = perform r op in reply ∷ perform_all r' ops
