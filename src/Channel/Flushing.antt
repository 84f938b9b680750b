-- ===== src/Channel/Flushing.antt =====
-- The messages published while a channel attaches: `ably_channel_publish` and `flush_pending_queue` of
-- ably-c/src/realtime/channel.c against a list, with the ring of realtime_client.c against its queue.
use ably_connectors.Prelude.{
  ℕ, zero, suc, ◌+◌, ◌%◌, ◌<◌, ◌≡◌, refl, sym, ap, ◌∙◌, arith, true, false, Option, none, some,
  List, [], ◌∷◌, ◌++◌, length, get_or, take, length-set, length-append, length-replicate, ◌==◌, inl,
  inr, Bool-cases, ◌⊎◌,
}
use mathlib.Core.Path.{subst}
use ably_connectors.Prelude.Rings.{ring_from, ring_from-snoc}
use ably_connectors.Types.{success, capacity, or_empty, non_empty, Codec}
use ably_connectors.Realtime.SendRing.{SendRing, enqueue, claim, perform, rt_claim_msg_serial}
use ably_connectors.Realtime.SendQueue.{SendQueue, answer, Holds, perform-answer}
use ably_connectors.Channel.Pending.{
  Queued, no_entry, Pending, next_slot, empty_pending, queue_message, enqueue_if, flush_one,
  flush_from, flush_pending_queue,
}

-- The queue `p` holds the messages `l`, the oldest first.
pub record Queues (p : Pending) (l : List Queued) : Type 0 where
  pub sized : length p.queue ≡ 32
  pub tail : p.tail < 32
  pub head : p.head ≡ (p.tail + length l) % 32
  pub few : length l < 32
  pub held : ring_from 32 no_entry p.queue p.tail (length l) ≡ l

pub empty_pending-Queues : Queues empty_pending []
unfolding empty_pending ring_from
empty_pending-Queues = record {
  sized = length-replicate {A = Queued} 32 no_entry;
  tail = omega arith;
  head = refl;
  few = omega arith;
  held = refl;
}

-- What is kept of a message.
abbrev pub entry : Option (List ℕ) → Option (List ℕ) → Queued
entry name msg_data = (take 255 (or_empty name), take 32767 (or_empty msg_data))

-- A message published while the channel attaches is refused where 31 messages wait; else it waits
-- behind the others.
pub queue_message-Queues :
    (p : Pending) (l : List Queued) (name msg_data : Option (List ℕ))
    → Queues p l
    → (queue_message p name msg_data ≡ (p, capacity)) × (length l ≡ 31)
      ⊎ ((queue_message p name msg_data).1 ≡ success)
        × Queues (queue_message p name msg_data).0 (l ++ (entry name msg_data ∷ []))
unfolding queue_message
queue_message-Queues p l name msg_data h = elim (Bool-cases (next_slot p.head == p.tail)) [
  | inl full ↦ rw full (inl (refl, ground (arith, full, h.head, h.tail, h.few)))
  | inr room ↦
      let long : length (l ++ (entry name msg_data ∷ [])) ≡ suc (length l) =
        omega (arith, length-append l (entry name msg_data ∷ [])) in
      rw room (
        inr (
          refl,
          record {
            sized = length-set p.queue p.head (entry name msg_data) ∙ h.sized;
            tail = h.tail;
            head = ground (arith, h.head, h.tail, h.few, long);
            few = ground (arith, room, h.head, h.tail, h.few, long);
            held = rw long (
                ring_from-snoc 32 no_entry p.queue p.head p.tail (length l) (entry name msg_data)
                  h.sized h.tail h.few h.head
                ∙ ap (λ f. f ++ (entry name msg_data ∷ [])) h.held);
          },
        ))
]

module _ (codec : Codec) (channel client_id : List ℕ) where
  -- The frame of a message that waited; no id.
  abbrev pub frame_of : Queued → ℕ → Option (List ℕ)
  frame_of (name, msg_data) serial =
      codec.encode_publish channel (non_empty name) (non_empty msg_data) (non_empty client_id) none
        serial

  abbrev pub post : SendQueue → Option (List ℕ) → SendQueue
  post q none = q
  post q (some buf) = (answer q (enqueue buf)).0

  -- Each message claims a serial; its frame goes in, unless it cannot be encoded or 255 frames wait.
  unfoldable pub flushed : SendQueue → List Queued → SendQueue
  flushed q [] = q
  flushed q (m ∷ l) = flushed (post (record q { serial = q.serial + 1 }) (frame_of m q.serial)) l

  enqueue_if-Holds :
      (r : SendRing) (q : SendQueue) (frame : Option (List ℕ))
      → Holds r q
      → Holds (enqueue_if r frame) (post q frame)
  unfolding perform
  enqueue_if-Holds r q none h = h
  enqueue_if-Holds r q (some buf) h = (perform-answer (enqueue buf) r q h).1

  flush_one-Holds :
      (p : Pending) (m : Queued) (l : List Queued) (r : SendRing) (q : SendQueue)
      → Queues p (m ∷ l)
      → Holds r q
      → Holds
          (flush_one codec channel client_id p r)
          (post (record q { serial = q.serial + 1 }) (frame_of m q.serial))
  unfolding flush_one ring_from perform answer rt_claim_msg_serial
  flush_one-Holds p m l r q h holds =
      let here : get_or p.queue p.tail no_entry ≡ m = cc h.held in
      let claimed = (perform-answer claim r q holds).1 in
      let next : SendQueue = record q { serial = q.serial + 1 } in
      rw here (
        subst
          (λ (serial : ℕ).
            Holds (enqueue_if (rt_claim_msg_serial r).0 (frame_of m serial))
              (post next (frame_of m q.serial)))
          (sym holds.serial)
          (enqueue_if-Holds (rt_claim_msg_serial r).0 next (frame_of m q.serial) claimed))

  Queues-rest :
      (p : Pending) (m : Queued) (l : List Queued)
      → Queues p (m ∷ l)
      → Queues (record p { tail = next_slot p.tail }) l
  unfolding ring_from
  Queues-rest p m l h = record {
    sized = h.sized;
    tail = omega arith;
    head = omega (arith, h.head, h.tail);
    few = omega (arith, h.few);
    held = cc h.held;
  }

  flush_from-flushed :
      (l : List Queued) (fuel : ℕ) (p : Pending) (r : SendRing) (q : SendQueue)
      → length l < fuel
      → Queues p l
      → Holds r q
      → (Queues (flush_from fuel codec channel client_id p r).0 [])
        × Holds (flush_from fuel codec channel client_id p r).1 (flushed q l)
  unfolding flush_from flushed
  flush_from-flushed l zero p r q enough h holds = absurd (omega (arith, enough))
  flush_from-flushed [] (suc fuel) p r q enough h holds =
      let idle : (p.tail == p.head) ≡ true = ground (arith, h.head, h.tail) in rw idle (h, holds)
  flush_from-flushed (m ∷ l) (suc fuel) p r q enough h holds =
      let busy : (p.tail == p.head) ≡ false = ground (arith, h.head, h.tail, h.few) in
      rw busy (
        flush_from-flushed l fuel (record p { tail = next_slot p.tail }) _ _ (omega (arith, enough))
          (Queues-rest p m l h) (flush_one-Holds p m l r q h holds))

  -- The queue of the messages published while the channel attached, the oldest first, and a ring whose
  -- frames and serial are those of a queue: flushing ends with an empty queue, and it claims a serial
  -- and enqueues a frame for each message in turn; where 255 frames wait in the ring the frame is lost.
  pub flush_pending_queue-flushed :
      (l : List Queued) (p : Pending) (r : SendRing) (q : SendQueue)
      → Queues p l
      → Holds r q
      → (Queues (flush_pending_queue codec channel client_id p r).0 [])
        × Holds (flush_pending_queue codec channel client_id p r).1 (flushed q l)
  unfolding flush_pending_queue
  flush_pending_queue-flushed l p r q h holds = flush_from-flushed l 32 p r q h.few h holds
