-- ===== src/Channel/TrackedRuns.antt =====
-- Every run of a channel keeps the account of its state callback, ably-c/src/realtime/channel.c.
use ably_connectors.Prelude.{
  ℕ, ◌≡◌, refl, Bool, true, Option, none, some, List, [], ◌∷◌, take, inl, inr, Bool-cases,
}
use ably_connectors.Types.{AblyError, success, Message, Codec, or_empty}
use ably_connectors.Realtime.SendRing.{SendRing, rt_enqueue_frame}
use ably_connectors.Realtime.SendRing
use ably_connectors.Channel.ChannelState.{
  ChannelState, initialized, attaching, attached, detaching, same_state, is_attached_or_attaching,
}
use ably_connectors.Channel.Listeners.{Listeners}
use ably_connectors.Channel.Site.{OwnPresence, Site, reenter_own}
use mathlib.Core.Path.{subst}
use ably_connectors.Channel.Control.{
  is_connected, identity, enqueued_then, send_then, attach, detach, attach_after, set_options,
  enable_delta, with_own, enter_with, enter_as, presence_enter, leave_with, presence_leave,
  update_with, presence_update, publish_on,
}
use ably_connectors.Channel.Steps.{
  Happening, frame_arrives, connection_lost, connection_found, connection_becomes, attaches,
  detaches, sets_options, enables_delta, subscribes, unsubscribes, publishes, enters, leaves,
  updates, sets_rewind, sets_occupancy_listener, step, run,
}
use ably_connectors.Channel.Tracked.{
  replay, IsTracked, set_state_locked-IsTracked, on_disconnect-IsTracked, reattach-IsTracked,
  reenter-IsTracked,
}
use ably_connectors.Channel.TrackedFrames.{IsTrackedIf, on_frame-IsTracked}

module _ {ℓ} {C : Type ℓ} where
  enqueued_then-IsTracked :
      (s : Site C) (new_state : ChannelState) (sent : SendRing × SendRing.EnqueueError)
      → IsTracked s
      → IsTracked (enqueued_then s new_state sent).0
  enqueued_then-IsTracked s new_state (ring, SendRing.success) t =
      set_state_locked-IsTracked (record s { ring = ring }) new_state success t
  enqueued_then-IsTracked s new_state (ring, SendRing.capacity) t = t

  send_then-IsTracked :
      (s : Site C) (new_state : ChannelState) (frame : Option (List ℕ))
      → IsTracked s
      → IsTracked (send_then s new_state frame).0
  send_then-IsTracked s new_state none t = t
  send_then-IsTracked s new_state (some buf) t =
      enqueued_then-IsTracked s new_state (rt_enqueue_frame s.ring buf) t

  module _ (codec : Codec) where
    attach-IsTracked : (s : Site C) → IsTracked s → IsTracked (attach codec s).0
    unfolding attach
    attach-IsTracked s t = elim (Bool-cases (is_attached_or_attaching s.ch.state)) [
      | inl active ↦ rw active t
      | inr idle ↦ elim (Bool-cases (is_connected s.conn_state)) [
        | inl up ↦ rw (idle, up) (send_then-IsTracked s attaching _ t)
        | inr down ↦ rw (idle, down) t
      ]
    ]

    detach-IsTracked : (s : Site C) → IsTracked s → IsTracked (detach codec s).0
    unfolding detach
    detach-IsTracked s t = elim (Bool-cases (is_attached_or_attaching s.ch.state)) [
      | inl active ↦ rw active (send_then-IsTracked s detaching _ t)
      | inr idle ↦ rw idle t
    ]

    attach_after-IsTracked :
        (r : Site C × AblyError) → IsTracked r.0 → IsTracked (attach_after codec r).0
    attach_after-IsTracked (s, success) t = attach-IsTracked s t
    attach_after-IsTracked (s, _) t = t

    set_options-IsTracked :
        (s : Site C) (rewind modes : ℕ)
        → IsTracked s
        → IsTracked (set_options codec s rewind modes).0
    unfolding set_options
    set_options-IsTracked s rewind modes t =
        elim (Bool-cases (is_attached_or_attaching s.ch.state)) [
          | inl active ↦ rw active (
              attach_after-IsTracked _ (
                detach-IsTracked
                  (record s { ch = record s.ch { rewind = rewind; channel_modes = modes } }) t))
          | inr idle ↦ rw idle t
        ]

    enter_with-IsTracked :
        (s : Site C) (client_id : List ℕ) (own_data : Option (List ℕ)) (p : Option OwnPresence)
        → IsTracked s
        → IsTracked (enter_with codec s client_id own_data p).0
    unfolding reenter_own
    enter_with-IsTracked s client_id own_data none t = t
    enter_with-IsTracked s client_id own_data (some p) t =
        let own = record p {
          own_client_id = take 255 client_id;
          own_data = take 32767 (or_empty own_data);
          own_entered = true;
        } in
        reenter-IsTracked codec (with_own s own) (some own) t

    enter_as-IsTracked :
        (allocated : Bool) (s : Site C) (client_id : List ℕ) (own_data : Option (List ℕ))
        → IsTracked s
        → IsTracked (enter_as codec allocated s client_id own_data).0
    enter_as-IsTracked allocated s [] own_data t = t
    enter_as-IsTracked allocated s (c ∷ id) own_data t =
        elim (Bool-cases (same_state s.ch.state attached)) [
          | inl inside ↦ rw inside (enter_with-IsTracked s (c ∷ id) own_data _ t)
          | inr outside ↦ rw outside t
        ]

    leave_with-IsTracked :
        (s : Site C) (own_data : Option (List ℕ)) (p : Option OwnPresence)
        → IsTracked s
        → IsTracked (leave_with codec s own_data p).0
    leave_with-IsTracked s own_data none t = t
    leave_with-IsTracked s own_data (some p) t = elim (Bool-cases p.own_entered) [
      | inl entered ↦ rw entered t
      | inr outside ↦ rw outside t
    ]

    update_with-IsTracked :
        (s : Site C) (own_data : Option (List ℕ)) (p : Option OwnPresence)
        → IsTracked s
        → IsTracked (update_with codec s own_data p).0
    update_with-IsTracked s own_data none t = t
    update_with-IsTracked s own_data (some p) t = elim (Bool-cases p.own_entered) [
      | inl entered ↦ rw entered t
      | inr outside ↦ rw outside t
    ]

    presence_leave-IsTracked :
        (s : Site C) (own_data : Option (List ℕ))
        → IsTracked s
        → IsTracked (presence_leave codec s own_data).0
    unfolding presence_leave
    presence_leave-IsTracked s own_data t = elim (Bool-cases (same_state s.ch.state attached)) [
      | inl inside ↦ rw inside (leave_with-IsTracked s own_data s.ch.pres t)
      | inr outside ↦ rw outside t
    ]

    presence_update-IsTracked :
        (s : Site C) (own_data : Option (List ℕ))
        → IsTracked s
        → IsTracked (presence_update codec s own_data).0
    unfolding presence_update
    presence_update-IsTracked s own_data t = elim (Bool-cases (same_state s.ch.state attached)) [
      | inl inside ↦ rw inside (update_with-IsTracked s own_data s.ch.pres t)
      | inr outside ↦ rw outside t
    ]

  enable_delta-IsTracked :
      (allocated : Bool) (s : Site C) → IsTracked s → IsTracked (enable_delta allocated s).0
  unfolding enable_delta
  enable_delta-IsTracked allocated s t = elim (Bool-cases (is_attached_or_attaching s.ch.state)) [
    | inl active ↦ rw active t
    | inr idle ↦ elim (Bool-cases s.ch.delta.enabled) [
      | inl on ↦ rw (idle, on) t
      | inr off ↦ elim (Bool-cases allocated) [
        | inl enough ↦ rw (idle, off, enough) t
        | inr short ↦ rw (idle, off, short) t
      ]
    ]
  ]

  module _ (codec : Codec) (react : C → Message → Listeners C → Listeners C)
      (fetch : List ℕ → List ℕ → Option (List Message × List ℕ)) where
    step-IsTracked :
        (h : Happening C) (s : Site C)
        → IsTracked s
        → IsTrackedIf react (step codec react fetch s h)
    unfolding step
    step-IsTracked (frame_arrives frame) s t = on_frame-IsTracked react fetch codec s frame t
    step-IsTracked connection_lost s t = on_disconnect-IsTracked s t
    step-IsTracked connection_found s t = reattach-IsTracked codec s t
    step-IsTracked (connection_becomes state) s t = t
    step-IsTracked attaches s t = attach-IsTracked codec s t
    step-IsTracked detaches s t = detach-IsTracked codec s t
    step-IsTracked (sets_options rewind modes) s t = set_options-IsTracked codec s rewind modes t
    step-IsTracked (enables_delta allocated) s t = enable_delta-IsTracked allocated s t
    step-IsTracked (subscribes filter cb) s t = t
    step-IsTracked (unsubscribes token) s t = t
    step-IsTracked (publishes name msg_data id) s t = unfold publish_on in t
    step-IsTracked (enters allocated client_id own_data) s t =
        unfold presence_enter in
        enter_as-IsTracked codec allocated s (identity client_id s.client_id) own_data t
    step-IsTracked (leaves own_data) s t = presence_leave-IsTracked codec s own_data t
    step-IsTracked (updates own_data) s t = presence_update-IsTracked codec s own_data t
    step-IsTracked (sets_rewind count) s t = t
    step-IsTracked (sets_occupancy_listener is_set) s t = t

    then_IsTracked :
        (o : Option (Site C)) (hs : List (Happening C))
        → IsTrackedIf react o
        → ((s : Site C) → IsTracked s → IsTrackedIf react (run codec react fetch s hs))
        → IsTrackedIf react (elim o [ none ↦ none | some s' ↦ run codec react fetch s' hs ])
    then_IsTracked none hs t rest = tt
    then_IsTracked (some s) hs t rest = rest s t

    run_on-IsTracked :
        (hs : List (Happening C)) (s : Site C)
        → IsTracked s
        → IsTrackedIf react (run codec react fetch s hs)
    unfolding run
    run_on-IsTracked [] s t = t
    run_on-IsTracked (h ∷ hs) s t =
        then_IsTracked (step codec react fetch s h) hs (step-IsTracked h s t)
          (λ s' t'. run_on-IsTracked hs s' t')

    -- A new channel whose state callback is set, and nothing told yet; then any sequence of calls of the
    -- user, frames of the server, and connections lost and found, in a run that C gives a meaning: the
    -- calls of the state callback lead from INITIALIZED to the state of the channel, each from the state
    -- that the one before reported and each to another state.
    pub run-replay :
        (hs : List (Happening C)) (s s' : Site C)
        → s.ch.state ≡ initialized
        → s.ch.has_state_cb ≡ true
        → s.told ≡ []
        → run codec react fetch s hs ≡ some s'
        → replay initialized s'.told ≡ some s'.ch.state
    run-replay hs s s' new set silent ends =
        let start : IsTracked s = (set, rw (silent, new) (unfold replay in refl)) in
        (subst (λ o. IsTrackedIf react o) ends (run_on-IsTracked hs s start)).1
