-- ===== src/Realtime/SendQueue.antt =====
-- The outbound ring of ably-c/src/realtime/realtime_client.c against a queue of at most 255 frames
-- and a counter.
use ably_connectors.Prelude.{
  ℕ, suc, ◌+◌, ◌%◌, ◌<◌, ◌≡◌, refl, ap, ◌∙◌, arith, true, false, none, some, List, [], ◌∷◌, ◌++◌,
  length, get_or, length-set, length-append, length-replicate, ltb, ◌==◌, if◌then◌else◌, inl, inr,
  Bool-cases,
}
use ably_connectors.Prelude.Rings.{ring_from, ring_from-snoc}
use ably_connectors.Realtime.SendRing.{
  SendRing, success, capacity, next_index, rt_enqueue_frame, rt_claim_msg_serial, ring_peek,
  ring_consume, drain, create_ring, SendOp, enqueue, claim, take_frame, connect, connected,
  reset_msg_serial, SendReply, enqueued, claimed, taken, perform, perform_all,
}
use mathlib.Core.Path.{ap₂}

-- First in, first out, of at most 255 frames; the serials count up.
pub record SendQueue : Type 0 where
  pub frames : List (List ℕ)
  pub serial : ℕ

unfoldable pub answer : SendQueue → SendOp → SendQueue × SendReply
answer q (enqueue payload) =
    if ltb (length q.frames) 255
    then (record q { frames = q.frames ++ (payload ∷ []) }, enqueued success)
    else (q, enqueued capacity)
answer q claim = (record q { serial = q.serial + 1 }, claimed q.serial)
answer q connect = (record q { serial = 0 }, connected)
answer q take_frame = elim (q.frames) [
  | [] ↦ (q, taken none)
  | frame ∷ frames ↦ (record q { frames = frames }, taken (some frame))
]

unfoldable pub answer_all : SendQueue → List SendOp → List SendReply
answer_all q [] = []
answer_all q (op ∷ ops) = let (q', reply) = answer q op in reply ∷ answer_all q' ops

pub record Holds (r : SendRing) (q : SendQueue) : Type 0 where
  pub sized : length r.send_ring ≡ 256
  pub tail : r.send_tail < 256
  pub head : r.send_head ≡ (r.send_tail + length q.frames) % 256
  pub few : length q.frames < 256
  pub held : ring_from 256 [] r.send_ring r.send_tail (length q.frames) ≡ q.frames
  pub serial : r.outbound_msg_serial ≡ q.serial

enqueue-answer :
    (payload : List ℕ) (r : SendRing) (q : SendQueue)
    → Holds r q
    → ((perform r (enqueue payload)).1 ≡ (answer q (enqueue payload)).1)
      × Holds (perform r (enqueue payload)).0 (answer q (enqueue payload)).0
unfolding perform answer rt_enqueue_frame
enqueue-answer payload r q h = elim (Bool-cases (ltb (length q.frames) 255)) [
  | inl room ↦
      let free : (next_index r.send_head == r.send_tail) ≡ false = ground (arith, h.head, h.tail) in
      let long : length (q.frames ++ (payload ∷ [])) ≡ suc (length q.frames) =
        omega (arith, length-append q.frames (payload ∷ [])) in
      rw (room, free)
        (
          refl,
          record {
            sized = length-set r.send_ring r.send_head payload ∙ h.sized;
            tail = h.tail;
            head = omega (arith, h.head, length-append q.frames (payload ∷ []));
            few = ground (arith, length-append q.frames (payload ∷ []));
            held = rw long (
                ring_from-snoc 256 [] r.send_ring r.send_head r.send_tail (length q.frames) payload
                  h.sized h.tail h.few h.head
                ∙ ap (λ f. f ++ (payload ∷ [])) h.held);
            serial = h.serial;
          },
        )
  | inr none_left ↦
      let busy : (next_index r.send_head == r.send_tail) ≡ true =
        ground (arith, h.head, h.tail, h.few) in
      rw (none_left, busy) (refl, h)
]

drain-answer :
    (frames : List (List ℕ)) (serial : ℕ) (r : SendRing)
    → Holds r (record { frames = frames; serial = serial })
    → ((perform r take_frame).1
        ≡ (answer (record { frames = frames; serial = serial }) take_frame).1)
      × Holds
          (perform r take_frame).0
          (answer (record { frames = frames; serial = serial }) take_frame).0
unfolding perform answer drain ring_peek ring_consume ring_from
drain-answer [] serial r h =
    let idle : (r.send_head == r.send_tail) ≡ true = ground (arith, h.head, h.tail) in
    rw idle (refl, h)
drain-answer (frame ∷ frames) serial r h =
    let busy : (r.send_head == r.send_tail) ≡ false = ground (arith, h.head, h.tail, h.few) in
    let here : get_or r.send_ring r.send_tail [] ≡ frame = cc h.held in
    let rest : ring_from 256 [] r.send_ring (next_index r.send_tail) (length frames) ≡ frames =
      cc h.held in
    rw busy (
      ap (λ f. taken (some f)) here,
      record {
        sized = h.sized;
        tail = omega arith;
        head = omega (arith, h.head, h.tail);
        few = omega (arith, h.few);
        held = rest;
        serial = h.serial;
      },
    )

-- One operation on a ring that holds `q` answers as the queue, and leaves a ring that holds the queue
-- after it.
pub perform-answer :
    (op : SendOp) (r : SendRing) (q : SendQueue)
    → Holds r q
    → ((perform r op).1 ≡ (answer q op).1) × Holds (perform r op).0 (answer q op).0
unfolding perform answer rt_claim_msg_serial reset_msg_serial
perform-answer (enqueue payload) r q h = enqueue-answer payload r q h
perform-answer claim r q h = (
  ap claimed h.serial,
  record {
    sized = h.sized;
    tail = h.tail;
    head = h.head;
    few = h.few;
    held = h.held;
    serial = omega (arith, h.serial);
  },
)
perform-answer connect r q h = (
  refl,
  record {
    sized = h.sized;
    tail = h.tail;
    head = h.head;
    few = h.few;
    held = h.held;
    serial = refl;
  },
)
perform-answer take_frame r q h = drain-answer q.frames q.serial r h

all_refine :
    (ops : List SendOp) (r : SendRing) (q : SendQueue)
    → Holds r q
    → perform_all r ops ≡ answer_all q ops
unfolding perform_all answer_all
all_refine [] r q h = refl
all_refine (op ∷ ops) r q h =
    let (same, h') = perform-answer op r q h in ap₂ ◌∷◌ same (all_refine ops _ _ h')

pub create_ring-Holds : Holds create_ring (record { frames = []; serial = 0 })
unfolding create_ring ring_from
create_ring-Holds = record {
  sized = length-replicate {A = List ℕ} 256 [];
  tail = omega arith;
  head = refl;
  few = omega arith;
  held = refl;
  serial = refl;
}

-- From the creation of the client, in whatever order the threads enqueue frames, claim serials, drain
-- the ring and connect anew, the frames come out once each in the order in which they went in, a
-- frame is refused exactly when 255 frames wait, and the serials count up from 0 on each connection.
pub perform_all-answer_all :
    (ops : List SendOp)
    → perform_all create_ring ops ≡ answer_all (record { frames = []; serial = 0 }) ops
perform_all-answer_all ops = all_refine ops _ _ create_ring-Holds
