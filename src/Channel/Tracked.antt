-- ===== src/Channel/Tracked.antt =====
-- The calls of the state callback of a channel, ably-c/src/realtime/channel.c, as an account of its
-- state: each call starts where the last one ended, and the last one ends in the state of the channel.
use ably_connectors.Prelude.{
  ◌≡◌, refl, sym, ap, ◌∙◌, Bool, true, not, ◌&&◌, ◌||◌, Option, none, some, List, [], ◌∷◌, ◌++◌,
  map, if◌then◌else◌, inl, inr, Bool-cases, Option-cases,
}
use ably_connectors.Types.{AblyError, success, network, Message, Codec, is_empty}
use ably_connectors.Realtime.Presence.{PresenceMessage}
use ably_connectors.Channel.ChannelState.{
  ChannelState, initialized, attaching, attached, detaching, detached, failed, same_state,
  is_attached_or_attaching,
}
use ably_connectors.Channel.Site.{
  OwnPresence, Event, state_changed, delivered, occupancy, member, Site, set_state_locked,
  on_disconnect, set_attaching, attach_params, reattach, reenter,
}

pub same_state_refl : (st : ChannelState) → same_state st st ≡ true
same_state_refl initialized = refl
same_state_refl attaching = refl
same_state_refl attached = refl
same_state_refl detaching = refl
same_state_refl detached = refl
same_state_refl failed = refl

module _ {ℓ} {C : Type ℓ} where
  -- The state after the calls of the state callback in `events`; `none` where one of them does not
  -- start in the state reached so far, or changes nothing.
  unfoldable pub replay : ChannelState → List (Event C) → Option ChannelState
  replay st [] = some st
  replay st (state_changed new old reason ∷ events) =
      let rest = replay new events in
      if same_state old st && not (same_state st new) then rest else none
  replay st (delivered cb msg ∷ events) = replay st events
  replay st (occupancy ∷ events) = replay st events
  replay st (member msg ∷ events) = replay st events

  abbrev pub IsTracked : Site C → Type 0
  IsTracked s = (s.ch.has_state_cb ≡ true) × (replay initialized s.told ≡ some s.ch.state)

  pub replay-append :
      (events more : List (Event C)) (st mid : ChannelState)
      → replay st events ≡ some mid
      → replay st (events ++ more) ≡ replay mid more
  unfolding replay
  replay-append [] more st mid h = cc h
  replay-append (state_changed new old reason ∷ events) more st mid h =
      elim (Bool-cases (same_state old st && not (same_state st new))) [
        | inl fits ↦ rw fits (
            replay-append events more new mid
              (sym (ap (λ (b : Bool). if b then replay new events else none) fits) ∙ h))
        | inr breaks ↦
            absurd (cc (sym (ap (λ (b : Bool). if b then replay new events else none) breaks) ∙ h))
      ]
  replay-append (delivered cb msg ∷ events) more st mid h = replay-append events more st mid h
  replay-append (occupancy ∷ events) more st mid h = replay-append events more st mid h
  replay-append (member msg ∷ events) more st mid h = replay-append events more st mid h

  -- Events without a call of the state callback.
  abbrev pub IsQuiet : List (Event C) → Type 0
  IsQuiet events = (st : ChannelState) → replay st events ≡ some st

  pub delivered-IsQuiet :
      (msg : Message) (cbs : List C) → IsQuiet (map (λ cb. delivered cb msg) cbs)
  unfolding replay
  delivered-IsQuiet msg [] st = refl
  delivered-IsQuiet msg (cb ∷ cbs) st = delivered-IsQuiet msg cbs st

module _ {ℓ} (C : Type ℓ) where
  pub member-IsQuiet : (msgs : List PresenceMessage) → IsQuiet {C = C} (map member msgs)
  unfolding replay
  member-IsQuiet [] st = refl
  member-IsQuiet (msg ∷ msgs) st = member-IsQuiet msgs st

module _ {ℓ} {C : Type ℓ} where
  pub quiet_end :
      (told events : List (Event C)) (st : ChannelState)
      → replay initialized told ≡ some st
      → IsQuiet events
      → replay initialized (told ++ events) ≡ some st
  quiet_end told events st t quiet = replay-append told events initialized st t ∙ quiet st

  pub set_state_locked-IsTracked :
      (s : Site C) (new_state : ChannelState) (reason : AblyError)
      → IsTracked s
      → IsTracked (set_state_locked s new_state reason)
  unfolding set_state_locked
  set_state_locked-IsTracked s new_state reason (cb, t) =
      elim (Bool-cases (same_state s.ch.state new_state)) [
        | inl same ↦ rw same (cb, t)
        | inr moves ↦
            rw (moves, cb)
              (
                refl,
                replay-append s.told (state_changed new_state s.ch.state reason ∷ []) initialized
                      s.ch.state t
                    ∙ unfold replay in rw (same_state_refl s.ch.state, moves) refl,
              )
      ]

  pub on_disconnect-IsTracked : (s : Site C) → IsTracked s → IsTracked (on_disconnect s)
  unfolding on_disconnect
  on_disconnect-IsTracked s t = elim (Bool-cases (is_attached_or_attaching s.ch.state)) [
    | inl active ↦ rw active (set_state_locked-IsTracked _ detached network t)
    | inr other ↦ rw other (set_state_locked-IsTracked s detached network t)
  ]

  pub reattach-IsTracked : (codec : Codec) (s : Site C) → IsTracked s → IsTracked (reattach codec s)
  unfolding reattach set_attaching
  reattach-IsTracked codec s t = elim (Bool-cases s.ch.reattach_pending) [
    | inr settled ↦ rw settled t
    | inl waits ↦ elim (Option-cases (codec.encode_attach s.ch.name (attach_params s.ch))) [
      | inl fails ↦ rw (waits, fails) t
      | inr (buf, e) ↦ rw (waits, e) (set_state_locked-IsTracked _ attaching success t)
    ]
  ]

  pub reenter-IsTracked :
      (codec : Codec) (s : Site C) (p : Option OwnPresence)
      → IsTracked s
      → IsTracked (reenter codec s p)
  reenter-IsTracked codec s none t = t
  reenter-IsTracked codec s (some p) t =
      elim (Bool-cases (not p.own_entered || is_empty p.own_client_id)) [
        | inl outside ↦ rw outside t
        | inr inside ↦ rw inside t
      ]
