-- ===== src/Channel/Reconnect.antt =====
-- A channel over a lost connection: ably-c/src/realtime/channel.c, `ably_channel_on_disconnect` and
-- `ably_channel_set_attaching`, and `rt_reattach_pending_channels` of realtime_client.c.
use ably_connectors.Prelude.{
  ℕ, zero, suc, ◌<◌, ◌≡◌, refl, arith, length, ltb, sym, ap, ◌∙◌, append-nil, true, false, some,
  List, [], ◌∷◌, ◌++◌, inl, inr, Bool-cases,
}
use mathlib.Core.Path.{ap₂, subst}
use ably_connectors.Types.{AblyError, success, network, Codec}
use ably_connectors.Realtime.SendRing.{SendRing, rt_enqueue_frame, enqueue, perform}
use ably_connectors.Realtime.SendQueue.{SendQueue, Holds, answer, perform-answer}
use ably_connectors.Channel.ChannelState.{
  ChannelState, initialized, attaching, attached, detaching, detached, failed, same_state,
  is_attached_or_attaching,
}
use ably_connectors.Channel.Delta.{forget}
use ably_connectors.Channel.Site.{
  Event, state_changed, Site, set_state_locked, on_disconnect, set_attaching, attach_params,
  reattach,
}

pub same_state_sound : (a b : ChannelState) → same_state a b ≡ true → a ≡ b
same_state_sound initialized initialized e = refl
same_state_sound attaching attaching e = refl
same_state_sound attached attached e = refl
same_state_sound detaching detaching e = refl
same_state_sound detached detached e = refl
same_state_sound failed failed e = refl
same_state_sound _ _ e = absurd (cc e)

enqueued-Holds :
    (r : SendRing) (q : SendQueue) (buf : List ℕ)
    → Holds r q
    → length q.frames < 255
    → Holds
        (rt_enqueue_frame r buf).0
        (record { frames = q.frames ++ (buf ∷ []); serial = q.serial })
unfolding perform answer
enqueued-Holds r q buf holds room =
    let free : ltb (length q.frames) 255 ≡ true = ground (arith, room) in
    rw free at (perform-answer (enqueue buf) r q holds).1

module _ {ℓ} {C : Type ℓ} where
  -- `s` with another state of the channel, and more told.
  abbrev pub moved : Site C → ChannelState → List (Event C) → Site C
  moved s st events = record s { ch = record s.ch { state = st }; told = s.told ++ events }

  pub set_state_locked-moved :
      (s : Site C) (new_state : ChannelState) (reason : AblyError)
      → (events : List (Event C)) × (set_state_locked s new_state reason ≡ moved s new_state events)
  unfolding set_state_locked
  set_state_locked-moved s new_state reason = elim (Bool-cases (same_state s.ch.state new_state)) [
    | inl same ↦ (
      [],
      rw same (
          ap₂
            (λ (st : ChannelState) (told : List (Event C)). record s {
              ch = record s.ch { state = st };
              told = told;
            })
            (same_state_sound s.ch.state new_state same) (sym (append-nil s.told))),
    )
    | inr moves ↦ elim (Bool-cases s.ch.has_state_cb) [
      | inl set ↦ (state_changed new_state s.ch.state reason ∷ [], rw (moves, set) refl)
      | inr unset ↦ ([], rw (moves, unset, append-nil s.told) refl)
    ]
  ]

  -- `d` is `s` with its connection lost: the channel waits to be attached again as it was.
  record IsDown (s d : Site C) : Type ℓ where
    name : d.ch.name ≡ s.ch.name
    state : d.ch.state ≡ detached
    waits : d.ch.reattach_pending ≡ true
    params : attach_params d.ch ≡ attach_params s.ch
    ring : d.ring ≡ s.ring

  set_detached-IsDown :
      (s d : Site C)
      → d.ch.name ≡ s.ch.name
      → d.ch.reattach_pending ≡ true
      → attach_params d.ch ≡ attach_params s.ch
      → d.ring ≡ s.ring
      → IsDown s (
          let down = set_state_locked d detached network in
          record down { ch = record down.ch { delta = forget down.ch.delta } })
  unfolding forget
  set_detached-IsDown s d name waits params ring =
      let (events, e) = set_state_locked-moved d detached network in
      record {
        name = ap (λ (x : Site C). x.ch.name) e ∙ name;
        state = ap (λ (x : Site C). x.ch.state) e;
        waits = ap (λ (x : Site C). x.ch.reattach_pending) e ∙ waits;
        params = ap (λ (x : Site C). attach_params x.ch) e ∙ params;
        ring = ap (λ (x : Site C). x.ring) e ∙ ring;
      }

  lost-IsDown :
      (s : Site C) → is_attached_or_attaching s.ch.state ≡ true → IsDown s (on_disconnect s)
  unfolding on_disconnect
  lost-IsDown s active = rw active (set_detached-IsDown s _ refl refl refl refl)

  lost_again-IsDown : (s d : Site C) → IsDown s d → IsDown s (on_disconnect d)
  unfolding on_disconnect
  lost_again-IsDown s d h =
      let settled : is_attached_or_attaching d.ch.state ≡ false = rw h.state refl in
      rw settled (set_detached-IsDown s d h.name h.waits h.params h.ring)

  -- The connection is lost `k` times, without being found in between.
  unfoldable pub disconnects : ℕ → Site C → Site C
  disconnects zero s = s
  disconnects (suc k) s = on_disconnect (disconnects k s)

  disconnects-IsDown :
      (k : ℕ) (s : Site C)
      → is_attached_or_attaching s.ch.state ≡ true
      → IsDown s (disconnects (suc k) s)
  unfolding disconnects
  disconnects-IsDown zero s active = lost-IsDown s active
  disconnects-IsDown (suc k) s active = lost_again-IsDown s _ (disconnects-IsDown k s active)

  reattach-moved :
      (codec : Codec) (d : Site C) (buf : List ℕ)
      → d.ch.reattach_pending ≡ true
      → codec.encode_attach d.ch.name (attach_params d.ch) ≡ some buf
      → (events : List (Event C)) × (reattach codec d
          ≡ moved
              (record d {
                ch = record d.ch { reattach_pending = false };
                ring = (rt_enqueue_frame d.ring buf).0;
              })
              attaching
              events)
  unfolding reattach set_attaching
  reattach-moved codec d buf waits encodes =
      rw (waits, encodes) (set_state_locked-moved _ attaching success)

  -- A channel that was attached or attaching when the connection was first lost, whose ATTACH frame the
  -- encoder accepts, and a ring in which fewer than 255 frames wait: after `k + 1` attempts to connect
  -- it is DETACHED; reattaching then puts the frame, with the parameters from before, behind the frames
  -- that wait, moves the channel to ATTACHING, and does not happen twice.
  pub disconnects-reattach :
      (codec : Codec) (k : ℕ) (s : Site C) (buf : List ℕ) (q : SendQueue)
      → is_attached_or_attaching s.ch.state ≡ true
      → codec.encode_attach s.ch.name (attach_params s.ch) ≡ some buf
      → Holds s.ring q
      → length q.frames < 255
      → let down = disconnects (suc k) s in
        let up = reattach codec down in
        (down.ch.state ≡ detached)
        × (up.ch.state ≡ attaching)
        × Holds up.ring (record { frames = q.frames ++ (buf ∷ []); serial = q.serial })
        × (reattach codec up ≡ up)
  disconnects-reattach codec k s buf q active encodes holds room =
      let h = disconnects-IsDown k s active in
      let again : codec.encode_attach (disconnects (suc k) s).ch.name
            (attach_params (disconnects (suc k) s).ch)
          ≡ some buf =
        ap₂ codec.encode_attach h.name h.params ∙ encodes in
      let (events, e) = reattach-moved codec (disconnects (suc k) s) buf h.waits again in
      (
        h.state,
        rw e refl,
        subst (λ ring. Holds ring (record { frames = q.frames ++ (buf ∷ []); serial = q.serial }))
            (sym (rw e (ap (λ ring. (rt_enqueue_frame ring buf).0) h.ring)))
            (enqueued-Holds s.ring q buf holds room),
        rw e (unfold reattach in refl),
      )
