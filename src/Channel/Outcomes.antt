-- ===== src/Channel/Outcomes.antt =====
-- What `ably_channel_attach`, `ably_channel_detach` and `ably_channel_set_options` of
-- ably-c/src/realtime/channel.c answer and leave behind, on every branch.
use ably_connectors.Prelude.{
  ℕ, ◌≤◌, ◌<◌, ◌≡◌, ◌≢◌, ◌⊎◌, refl, ap, ◌∙◌, arith, Bool, true, false, Option, none, some, List, [],
  ◌∷◌, ◌++◌, length, length-append, append_assoc, ltb, inl, inr, Bool-cases,
}
use mathlib.Core.Path.{subst}
use ably_connectors.Types.{AblyError, success, connected, Codec}
use ably_connectors.Realtime.SendRing
use ably_connectors.Realtime.SendRing.{
  SendRing, EnqueueError, SendOp, SendReply, enqueue, enqueued, perform, rt_enqueue_frame,
}
use ably_connectors.Realtime.SendQueue.{SendQueue, answer, Holds, perform-answer}
use ably_connectors.Channel.ChannelState.{
  ChannelState, attaching, detaching, is_attached_or_attaching,
}
use ably_connectors.Channel.Site.{Event, Site, set_state_locked, attach_params}
use ably_connectors.Channel.Control.{
  is_connected, enqueued_then, send_then, attach, detach, attach_after, set_options,
}
use ably_connectors.Channel.Reconnect.{moved, set_state_locked-moved}

-- A ring with room takes the frame.
pub rt_enqueue_frame-Holds :
    (r : SendRing) (q : SendQueue) (buf : List ℕ)
    → Holds r q
    → length q.frames < 255
    → (rt_enqueue_frame r buf ≡ ((rt_enqueue_frame r buf).0, SendRing.success))
      × Holds (rt_enqueue_frame r buf).0 (record q { frames = q.frames ++ (buf ∷ []) })
unfolding perform answer
rt_enqueue_frame-Holds r q buf h room =
    let free : ltb (length q.frames) 255 ≡ true = ground (arith, room) in
    let (reply, h') = perform-answer (enqueue buf) r q h in
    let after = record q { frames = q.frames ++ (buf ∷ []) } in
    let answered : answer q (enqueue buf) ≡ (after, enqueued SendRing.success) = rw free refl in
    let said : enqueued (rt_enqueue_frame r buf).1 ≡ enqueued SendRing.success =
      reply ∙ ap (λ (x : SendQueue × SendReply). x.1) answered in
    (
      ap (λ (e : EnqueueError). ((rt_enqueue_frame r buf).0, e)) (cc said),
      subst (λ (x : SendQueue × SendReply). Holds (rt_enqueue_frame r buf).0 x.0) answered h',
    )

abbrev pub is_detaching : ChannelState → Bool
is_detaching detaching = true
is_detaching _ = false

module _ {ℓ} {C : Type ℓ} where
  -- The operation answers ABLY_OK and the channel is in a state with `P`, or it answers an error and
  -- nothing has changed.
  abbrev pub IsAllOrNothing : (ChannelState → Bool) → Site C → Site C × AblyError → Type ℓ
  IsAllOrNothing p s r = ((r.1 ≡ success) × (p r.0.ch.state ≡ true)) ⊎ ((r.1 ≢ success) × (r.0 ≡ s))

  set_state_locked-state :
      (s : Site C) (new_state : ChannelState) (reason : AblyError)
      → (set_state_locked s new_state reason).ch.state ≡ new_state
  set_state_locked-state s new_state reason =
      ap (λ (x : Site C). x.ch.state) (set_state_locked-moved s new_state reason).1

  enqueued_then-IsAllOrNothing :
      (p : ChannelState → Bool) (s : Site C) (new_state : ChannelState)
      (sent : SendRing × EnqueueError)
      → p new_state ≡ true
      → IsAllOrNothing p s (enqueued_then s new_state sent)
  enqueued_then-IsAllOrNothing p s new_state (ring, SendRing.success) fits =
      inl (refl, ap p (set_state_locked-state (record s { ring = ring }) new_state success) ∙ fits)
  enqueued_then-IsAllOrNothing p s new_state (ring, SendRing.capacity) fits = inr (λ e. cc e, refl)

  send_then-IsAllOrNothing :
      (p : ChannelState → Bool) (s : Site C) (new_state : ChannelState) (frame : Option (List ℕ))
      → p new_state ≡ true
      → IsAllOrNothing p s (send_then s new_state frame)
  send_then-IsAllOrNothing p s new_state none fits = inr (λ e. cc e, refl)
  send_then-IsAllOrNothing p s new_state (some buf) fits =
      enqueued_then-IsAllOrNothing p s new_state (rt_enqueue_frame s.ring buf) fits

  -- `attach` answers ABLY_OK and leaves the channel ATTACHED or ATTACHING, or it answers an error and
  -- changes nothing: no state, no callback, no frame.
  pub attach-IsAllOrNothing :
      (codec : Codec) (s : Site C) → IsAllOrNothing is_attached_or_attaching s (attach codec s)
  unfolding attach
  attach-IsAllOrNothing codec s = elim (Bool-cases (is_attached_or_attaching s.ch.state)) [
    | inl active ↦ rw active (inl (refl, active))
    | inr idle ↦ elim (Bool-cases (is_connected s.conn_state)) [
      | inl up ↦
          rw (idle, up) (send_then-IsAllOrNothing is_attached_or_attaching s attaching _ refl)
      | inr down ↦ rw (idle, down) (inr (λ e. cc e, refl))
    ]
  ]

  -- `detach` answers ABLY_OK and leaves the channel DETACHING, or it answers an error and changes nothing.
  pub detach-IsAllOrNothing :
      (codec : Codec) (s : Site C) → IsAllOrNothing is_detaching s (detach codec s)
  unfolding detach
  detach-IsAllOrNothing codec s = elim (Bool-cases (is_attached_or_attaching s.ch.state)) [
    | inl active ↦ rw active (send_then-IsAllOrNothing is_detaching s detaching _ refl)
    | inr idle ↦ rw idle (inr (λ e. cc e, refl))
  ]

  -- A frame sent where the ring has room.
  send_then-moved :
      (s : Site C) (new_state : ChannelState) (frame : Option (List ℕ)) (buf : List ℕ)
      (q : SendQueue)
      → frame ≡ some buf
      → Holds s.ring q
      → length q.frames < 255
      → (events : List (Event C)) × (ring : SendRing) × (send_then s new_state frame
          ≡ (moved (record s { ring = ring }) new_state events, success))
        × Holds ring (record q { frames = q.frames ++ (buf ∷ []) })
  send_then-moved s new_state frame buf q encodes h room =
      let (taken, h') = rt_enqueue_frame-Holds s.ring q buf h room in
      let ring = (rt_enqueue_frame s.ring buf).0 in
      let (events, e) = set_state_locked-moved (record s { ring = ring }) new_state success in
      (
        events,
        ring,
        ap (send_then s new_state) encodes
            ∙ ap (enqueued_then s new_state) taken
            ∙ ap (λ (x : Site C). (x, success)) e,
        h',
      )

  -- `ably_channel_set_options` on an attached or attaching channel of a connected client, with frames
  -- that the encoder can make and at most 253 frames in the ring: it answers ABLY_OK, the channel is
  -- ATTACHING with the new options, and the DETACH frame and, with the new rewind, the ATTACH frame
  -- stand in this order behind the frames that wait.
  pub set_options-reattaches :
      (codec : Codec) (s : Site C) (rewind modes : ℕ) (detach_frame attach_frame : List ℕ)
      (q : SendQueue)
      → is_attached_or_attaching s.ch.state ≡ true
      → s.conn_state ≡ connected
      → codec.encode_detach s.ch.name ≡ some detach_frame
      → codec.encode_attach s.ch.name (record (attach_params s.ch) { rewind = rewind })
        ≡ some attach_frame
      → Holds s.ring q
      → length q.frames ≤ 253
      → let (s', e) = set_options codec s rewind modes in
        (e ≡ success)
        × (s'.ch.state ≡ attaching)
        × (s'.ch.rewind ≡ rewind)
        × (s'.ch.channel_modes ≡ modes)
        × Holds s'.ring (record q { frames = q.frames ++ (detach_frame ∷ attach_frame ∷ []) })
  set_options-reattaches codec s rewind modes detach_frame attach_frame q active up encodes_d
        encodes_a h room =
      let s1 : Site C = record s { ch = record s.ch { rewind = rewind; channel_modes = modes } } in
      let (events1, ring1, e1, h1) =
        send_then-moved s1 detaching (codec.encode_detach s.ch.name) detach_frame q encodes_d h
          (omega (arith, room)) in
      let s2 : Site C = moved (record s1 { ring = ring1 }) detaching events1 in
      let q1 : SendQueue = record q { frames = q.frames ++ (detach_frame ∷ []) } in
      let (events2, ring2, e2, h2) =
        send_then-moved s2 attaching (codec.encode_attach s2.ch.name (attach_params s2.ch))
          attach_frame q1 encodes_a h1
          (omega (arith, room, length-append q.frames (detach_frame ∷ []))) in
      let ready : is_connected s.conn_state ≡ true = rw up refl in
      let s3 : Site C = moved (record s2 { ring = ring2 }) attaching events2 in
      let whole : set_options codec s rewind modes ≡ (s3, success) =
        unfold set_options detach attach in rw active (ap (attach_after codec) e1 ∙ rw ready e2) in
      rw whole (
        refl,
        refl,
        refl,
        refl,
        subst (λ f. Holds ring2 (record { frames = f; serial = q.serial }))
            (append_assoc q.frames (detach_frame ∷ []) (attach_frame ∷ [])) h2,
      )
