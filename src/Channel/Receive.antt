-- ===== src/Channel/Receive.antt =====
-- The frames of a channel: `ably_channel_on_frame` and `ably_channel_deliver_history` of
-- ably-c/src/realtime/channel.c, and `rt_recover_gap` of realtime_client.c.
-- `react` is what a callback does to the subscriber array; `fetch` is the page of the channel's history
-- behind a cursor that the REST client returns, with the next cursor, or `none` where it fails.
use ably_connectors.Prelude.{
  ℕ, zero, suc, ◌==◌, false, not, ◌&&◌, ◌||◌, Option, none, some, List, [], ◌∷◌, take, map,
  if◌then◌else◌,
}
use ably_connectors.Types.{
  success, protocol, Action, attached_action, detached_action, message_action, presence_action,
  sync_action, error_action, ErrorInfo, no_error, Message, ProtoMessage, ProtoFrame, has_flag,
  flag_has_presence, flag_has_backlog, flag_resumed, or_empty, Codec,
}
use ably_connectors.Realtime.Presence.{PresenceState, PresenceMessage, handle_message, handle_sync}
use ably_connectors.Channel.ChannelState.{attached, detached, failed}
use ably_connectors.Channel.Pending.{flush_pending_queue}
use ably_connectors.Channel.Listeners.{Listeners, dispatch}
use ably_connectors.Channel.Delta.{Resolved, dropped, resolved, undefined_run, resolve}
use ably_connectors.Channel.Site.{
  OwnPresence, delivered, occupancy, member, Site, tell, set_state_locked, reenter_own,
}

-- `if (frame->channel_serial[0]) memcpy(...)`.
abbrev pub newer_serial : List ℕ → List ℕ → List ℕ
newer_serial [] old = old
newer_serial (c ∷ serial) old = c ∷ serial

abbrev pub error_of : ProtoFrame → ErrorInfo
error_of frame = record {
  ably_code = frame.error_code;
  message = take 255 (or_empty frame.error_message);
}

module _ {ℓ} {C : Type ℓ} where
  abbrev pub with_serial : Site C → List ℕ → Site C
  with_serial s serial = record s {
    ch = record s.ch { channel_serial = newer_serial serial s.ch.channel_serial };
  }

  -- A result of presence.c: the state after it, and the messages that the subscribers are told.
  abbrev pub with_members : Site C → OwnPresence → PresenceState × List PresenceMessage → Site C
  with_members s p (pres, msgs) =
      tell (record s { ch = record s.ch { pres = some (record p { members = pres }) } })
        (map member msgs)

  abbrev pub receive_sync : Site C → ProtoFrame → Option OwnPresence → Site C
  receive_sync s frame none = s
  receive_sync s frame (some p) =
      with_members s p (handle_sync p.members frame.presence_msgs frame.sync_serial)

  abbrev pub receive_presence : Site C → ProtoFrame → Option OwnPresence → Site C
  receive_presence s frame none = s
  receive_presence s frame (some p) =
      with_members s p (handle_message p.members frame.presence_msgs)

  abbrev pub flush : Codec → Site C → Site C
  flush codec s =
      let (pending, ring) = flush_pending_queue codec s.ch.name s.client_id s.ch.pending s.ring in
      record s { ch = record s.ch { pending = pending }; ring = ring }

  -- ABLY_ACTION_DETACHED.
  unfoldable pub receive_detached : Site C → ProtoFrame → Site C
  receive_detached s frame =
      if frame.error_code == 0
      then set_state_locked (record s { ch = record s.ch { last_error = no_error } }) detached
          success
      else set_state_locked (record s { ch = record s.ch { last_error = error_of frame } }) failed
          protocol

  -- ABLY_ACTION_ERROR.
  unfoldable pub receive_error : Site C → ProtoFrame → Site C
  receive_error s frame =
      set_state_locked (record s { ch = record s.ch { last_error = error_of frame } }) failed
        protocol

  module _ (react : C → Message → Listeners C → Listeners C) where
    -- The subscribers are called with `msg`.
    unfoldable pub deliver : Site C → Message → Site C
    deliver s msg =
        let (called, listeners) = dispatch react msg s.ch.listeners in
        tell (record s { ch = record s.ch { listeners = listeners } })
          (map (λ cb. delivered cb msg) called)

    unfoldable pub deliver_all : Site C → List Message → Site C
    deliver_all s [] = s
    deliver_all s (msg ∷ msgs) = deliver_all (deliver s msg) msgs

    abbrev pub message_of : ProtoMessage → Option (List ℕ) → Message
    message_of pm payload = record {
      id = pm.id;
      name = pm.name;
      msg_data = payload;
      client_id = pm.client_id;
      timestamp = pm.timestamp;
    }

    abbrev pub tell_occupancy : ProtoMessage → Site C → Site C
    tell_occupancy pm s =
        if pm.has_occupancy && s.ch.has_occupancy_listener then tell s (occupancy ∷ []) else s

    -- `none` is a run that C gives no meaning.
    abbrev pub deliver_resolved : Site C → ProtoMessage → Resolved → Option (Site C)
    deliver_resolved s pm (dropped d) = some (record s { ch = record s.ch { delta = d } })
    deliver_resolved s pm (resolved payload d) = some (
        deliver (tell_occupancy pm (record s { ch = record s.ch { delta = d } }))
          (message_of pm payload))
    deliver_resolved s pm undefined_run = none

    -- The messages of a MESSAGE frame, in order.
    unfoldable pub receive_messages : Site C → List ProtoMessage → Option (Site C)
    receive_messages s [] = some s
    receive_messages s (pm ∷ pms) = elim (deliver_resolved s pm (resolve s.ch.delta pm)) [
      | none ↦ none
      | some s' ↦ receive_messages s' pms
    ]

    module _ (fetch : List ℕ → List ℕ → Option (List Message × List ℕ)) where
      -- The loop of `rt_recover_gap`, with `n` of its 50 pages left.
      unfoldable pub recover_from : ℕ → List ℕ → Site C → Site C
      recover_from zero cursor s = s
      recover_from (suc n) [] s = s
      recover_from (suc n) (c ∷ cursor) s = elim (fetch s.ch.name (c ∷ cursor)) [
        | none ↦ s
        | some (items, next) ↦ recover_from n (take 255 next) (deliver_all s items)
      ]

      unfoldable pub rt_recover_gap : Site C → Site C
      rt_recover_gap s = recover_from 50 s.ch.channel_serial s

      -- ABLY_ACTION_ATTACHED, before and after the queued messages are sent.
      unfoldable pub confirm : Site C → ProtoFrame → Site C
      confirm s frame =
          let ch = record s.ch {
            reattach_pending = false;
            granted_modes = frame.channel_modes;
            channel_serial = newer_serial frame.channel_serial s.ch.channel_serial;
            last_error = no_error;
          } in
          set_state_locked (record s { ch = ch }) attached success

      abbrev pub sync_if : Site C → ProtoFrame → Site C
      sync_if s frame =
          if has_flag frame.flags flag_has_presence then receive_sync s frame s.ch.pres else s

      abbrev pub recover_if : Site C → ProtoFrame → Site C
      recover_if s frame =
          if not (has_flag frame.flags flag_resumed) || has_flag frame.flags flag_has_backlog
          then rt_recover_gap s
          else s

      abbrev pub reenter_if : Codec → Site C → ProtoFrame → Site C
      reenter_if codec s frame =
          if has_flag frame.flags flag_resumed then s else reenter_own codec s

      unfoldable pub receive_attached : Codec → Site C → ProtoFrame → Site C
      receive_attached codec s frame =
          let synced = sync_if (flush codec (confirm s frame)) frame in
          reenter_if codec (recover_if synced frame) frame

      -- The switch over `frame->action`.
      abbrev pub handle_action : Action → Codec → Site C → ProtoFrame → Option (Site C)
      handle_action attached_action codec s frame = some (receive_attached codec s frame)
      handle_action detached_action codec s frame = some (receive_detached s frame)
      handle_action message_action codec s frame =
          receive_messages (with_serial s frame.channel_serial) frame.messages
      handle_action presence_action codec s frame =
          some (receive_presence (with_serial s frame.channel_serial) frame s.ch.pres)
      handle_action sync_action codec s frame = some (receive_sync s frame s.ch.pres)
      handle_action error_action codec s frame = some (receive_error s frame)
      handle_action _ codec s frame = some s

      unfoldable pub on_frame : Codec → Site C → ProtoFrame → Option (Site C)
      on_frame codec s frame = handle_action frame.action codec s frame
