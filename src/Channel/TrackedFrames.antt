-- ===== src/Channel/TrackedFrames.antt =====
-- The frames of a channel keep the account of its state callback: `ably_channel_on_frame` of
-- ably-c/src/realtime/channel.c.
use ably_connectors.Prelude.{
  ℕ, zero, suc, refl, not, ◌&&◌, ◌||◌, Option, none, some, List, [], ◌∷◌, ◌==◌, inl, inr,
  Bool-cases, Option-cases,
}
use ably_connectors.Types.{
  success, protocol, Message, Action, attached_action, detached_action, message_action,
  presence_action, sync_action, error_action, ProtoMessage, ProtoFrame, Codec, has_flag,
  flag_has_presence, flag_resumed, flag_has_backlog,
}
use ably_connectors.Channel.ChannelState.{attached, detached, failed}
use ably_connectors.Channel.Listeners.{Listeners}
use ably_connectors.Channel.Delta.{Resolved, dropped, resolved, undefined_run, resolve}
use ably_connectors.Channel.Site.{OwnPresence, Site, reenter_own}
use ably_connectors.Channel.Receive.{
  with_serial, receive_sync, receive_presence, flush, receive_detached, receive_error, deliver,
  deliver_all, tell_occupancy, deliver_resolved, receive_messages, recover_from, rt_recover_gap,
  confirm, sync_if, recover_if, reenter_if, receive_attached, handle_action, on_frame,
}
use ably_connectors.Channel.Tracked.{
  replay, IsTracked, delivered-IsQuiet, member-IsQuiet, quiet_end, set_state_locked-IsTracked,
  reenter-IsTracked,
}

module _ {ℓ} {C : Type ℓ} where
  receive_sync-IsTracked :
      (s : Site C) (frame : ProtoFrame) (p : Option OwnPresence)
      → IsTracked s
      → IsTracked (receive_sync s frame p)
  receive_sync-IsTracked s frame none t = t
  receive_sync-IsTracked s frame (some p) t =
      (t.0, quiet_end s.told _ s.ch.state t.1 (member-IsQuiet C _))

  receive_presence-IsTracked :
      (s : Site C) (frame : ProtoFrame) (p : Option OwnPresence)
      → IsTracked s
      → IsTracked (receive_presence s frame p)
  receive_presence-IsTracked s frame none t = t
  receive_presence-IsTracked s frame (some p) t =
      (t.0, quiet_end s.told _ s.ch.state t.1 (member-IsQuiet C _))

  receive_detached-IsTracked :
      (s : Site C) (frame : ProtoFrame) → IsTracked s → IsTracked (receive_detached s frame)
  unfolding receive_detached
  receive_detached-IsTracked s frame t = elim (Bool-cases (frame.error_code == 0)) [
    | inl fine ↦ rw fine (set_state_locked-IsTracked _ detached success t)
    | inr broken ↦ rw broken (set_state_locked-IsTracked _ failed protocol t)
  ]

  module _ (react : C → Message → Listeners C → Listeners C) where
    deliver-IsTracked : (s : Site C) (msg : Message) → IsTracked s → IsTracked (deliver react s msg)
    unfolding deliver
    deliver-IsTracked s msg t = (t.0, quiet_end s.told _ s.ch.state t.1 (delivered-IsQuiet msg _))

    deliver_all-IsTracked :
        (msgs : List Message) (s : Site C) → IsTracked s → IsTracked (deliver_all react s msgs)
    unfolding deliver_all
    deliver_all-IsTracked [] s t = t
    deliver_all-IsTracked (msg ∷ msgs) s t =
        deliver_all-IsTracked msgs _ (deliver-IsTracked s msg t)

    tell_occupancy-IsTracked :
        (pm : ProtoMessage) (s : Site C) → IsTracked s → IsTracked (tell_occupancy react pm s)
    tell_occupancy-IsTracked pm s t =
        elim (Bool-cases (pm.has_occupancy && s.ch.has_occupancy_listener)) [
          | inl told ↦
              rw told (t.0, quiet_end s.told _ s.ch.state t.1 (λ st. unfold replay in refl))
          | inr silent ↦ rw silent t
        ]

    abbrev pub IsTrackedIf : Option (Site C) → Type 0
    IsTrackedIf none = Unit
    IsTrackedIf (some s) = IsTracked s

    receive_resolved-IsTracked :
        (r : Resolved) (s : Site C) (pm : ProtoMessage) (pms : List ProtoMessage)
        → IsTracked s
        → ((s' : Site C) → IsTracked s' → IsTrackedIf (receive_messages react s' pms))
        → IsTrackedIf (elim (deliver_resolved react s pm r) [
          | none ↦ none
          | some s' ↦ receive_messages react s' pms
        ])
    receive_resolved-IsTracked (dropped d) s pm pms t rest = rest _ t
    receive_resolved-IsTracked (resolved payload d) s pm pms t rest = rest _ (
        deliver-IsTracked _ _
          (tell_occupancy-IsTracked pm (record s { ch = record s.ch { delta = d } }) t))
    receive_resolved-IsTracked undefined_run s pm pms t rest = tt

    receive_messages-IsTracked :
        (pms : List ProtoMessage) (s : Site C)
        → IsTracked s
        → IsTrackedIf (receive_messages react s pms)
    unfolding receive_messages
    receive_messages-IsTracked [] s t = t
    receive_messages-IsTracked (pm ∷ pms) s t =
        receive_resolved-IsTracked (resolve s.ch.delta pm) s pm pms t
          (λ s' t'. receive_messages-IsTracked pms s' t')

    module _ (fetch : List ℕ → List ℕ → Option (List Message × List ℕ)) where
      recover_from-IsTracked :
          (n : ℕ) (cursor : List ℕ) (s : Site C)
          → IsTracked s
          → IsTracked (recover_from react fetch n cursor s)
      unfolding recover_from
      recover_from-IsTracked zero cursor s t = t
      recover_from-IsTracked (suc n) [] s t = t
      recover_from-IsTracked (suc n) (c ∷ cursor) s t =
          elim (Option-cases (fetch s.ch.name (c ∷ cursor))) [
            | inl fails ↦ rw (fails, recover_from) t
            | inr (page, e) ↦
                rw (e, recover_from)
                  (recover_from-IsTracked n _ _ (deliver_all-IsTracked page.0 s t))
          ]

      confirm-IsTracked :
          (s : Site C) (frame : ProtoFrame) → IsTracked s → IsTracked (confirm react fetch s frame)
      unfolding confirm
      confirm-IsTracked s frame t = set_state_locked-IsTracked _ attached success t

      sync_if-IsTracked :
          (s : Site C) (frame : ProtoFrame) → IsTracked s → IsTracked (sync_if react fetch s frame)
      sync_if-IsTracked s frame t = elim (Bool-cases (has_flag frame.flags flag_has_presence)) [
        | inl syncs ↦ rw syncs (receive_sync-IsTracked s frame s.ch.pres t)
        | inr plain ↦ rw plain t
      ]

      recover_if-IsTracked :
          (s : Site C) (frame : ProtoFrame)
          → IsTracked s
          → IsTracked (recover_if react fetch s frame)
      recover_if-IsTracked s frame t =
          elim (Bool-cases
            (not (has_flag frame.flags flag_resumed) || has_flag frame.flags flag_has_backlog)) [
              | inl gap ↦ rw gap (unfold rt_recover_gap in recover_from-IsTracked 50 _ s t)
              | inr whole ↦ rw whole t
            ]

      reenter_if-IsTracked :
          (codec : Codec) (s : Site C) (frame : ProtoFrame)
          → IsTracked s
          → IsTracked (reenter_if react fetch codec s frame)
      reenter_if-IsTracked codec s frame t = elim (Bool-cases (has_flag frame.flags flag_resumed)) [
        | inl resumed ↦ rw resumed t
        | inr anew ↦ rw anew (unfold reenter_own in reenter-IsTracked codec s s.ch.pres t)
      ]

      receive_attached-IsTracked :
          (codec : Codec) (s : Site C) (frame : ProtoFrame)
          → IsTracked s
          → IsTracked (receive_attached react fetch codec s frame)
      unfolding receive_attached
      receive_attached-IsTracked codec s frame t =
          let up = flush codec (confirm react fetch s frame) in
          let synced = sync_if react fetch up frame in
          let found = recover_if react fetch synced frame in
          reenter_if-IsTracked codec found frame (
            recover_if-IsTracked synced frame
              (sync_if-IsTracked up frame (confirm-IsTracked s frame t)))

      handle_action-IsTracked :
          (action : Action) (codec : Codec) (s : Site C) (frame : ProtoFrame)
          → IsTracked s
          → IsTrackedIf (handle_action react fetch action codec s frame)
      handle_action-IsTracked attached_action codec s frame t =
          receive_attached-IsTracked codec s frame t
      handle_action-IsTracked detached_action codec s frame t = receive_detached-IsTracked s frame t
      handle_action-IsTracked message_action codec s frame t =
          receive_messages-IsTracked frame.messages _ t
      handle_action-IsTracked presence_action codec s frame t =
          receive_presence-IsTracked (with_serial s frame.channel_serial) frame s.ch.pres t
      handle_action-IsTracked sync_action codec s frame t =
          receive_sync-IsTracked s frame s.ch.pres t
      handle_action-IsTracked error_action codec s frame t =
          unfold receive_error in set_state_locked-IsTracked _ failed protocol t
      handle_action-IsTracked _ codec s frame t = t

      pub on_frame-IsTracked :
          (codec : Codec) (s : Site C) (frame : ProtoFrame)
          → IsTracked s
          → IsTrackedIf (on_frame react fetch codec s frame)
      unfolding on_frame
      on_frame-IsTracked codec s frame t = handle_action-IsTracked frame.action codec s frame t
