-- ===== src/Client/Dispatch.antt =====
-- `rt_dispatch_frame` and `on_ws_frame` of ably-c/src/realtime/realtime_client.c. `decode` is the
-- decoder of the client's encoding, `none` where it fails; `now` is the monotonic clock.
use ably_connectors.Prelude.{
  ℕ, zero, suc, Bool, true, false, ◌&&◌, Option, none, some, List, [], ◌∷◌, take, ltb, leb, ◌==◌,
  if◌then◌else◌,
}
use ably_connectors.Types.{
  success, auth, connected, closed, failed, no_error, Message, heartbeat, connected_action,
  disconnected_action, closed_action, error_action, attached_action, detached_action,
  message_action, presence_action, sync_action, ProtoFrame, Codec,
}
use ably_connectors.Channel.Listeners.{Listeners, strcmp_eq}
use ably_connectors.Channel.Site.{Channel, Site}
use ably_connectors.Channel.Receive.{error_of, on_frame}
use ably_connectors.Client.State.{
  ws_send, Client, emit_effects, rt_set_state_locked, site, behind_channel,
  rt_reattach_pending_channels,
}

-- `if (p) snprintf(buffer, n + 1, "%s", p)`.
abbrev pub copied : ℕ → Option (List ℕ) → List ℕ → List ℕ
copied n none old = old
copied n (some s) old = take n s

abbrev pub or_old : ℕ → ℕ → ℕ
or_old zero old = old
or_old (suc n) old = suc n

-- "Server-side clientId override", where the client has none.
abbrev pub assigned_id : List ℕ → List ℕ → List ℕ
assigned_id [] own = own
assigned_id (c ∷ id) [] = take 255 (c ∷ id)
assigned_id (c ∷ id) (d ∷ own) = d ∷ own

-- A token error, 401xx, that an `auth_cb` can renew.
abbrev pub is_token_error : ℕ → Bool
is_token_error code = leb 40100 code && ltb code 40200

abbrev pub is_fatal_error : ℕ → Bool
is_fatal_error code = leb 40000 code && ltb code 50000

module _ {ℓ} {C : Type ℓ} where
  abbrev pub send_if : Client C → Option (List ℕ) → Client C
  send_if c none = c
  send_if c (some buf) = emit_effects c (ws_send buf ∷ [])

  unfoldable pub receive_connected : Codec → ℕ → Client C → ProtoFrame → Client C
  receive_connected codec now c frame =
      let c' = record c {
        connection_id = copied 63 frame.connection_id c.connection_id;
        connection_key = copied 255 frame.connection_key c.connection_key;
        conn_state_ttl = or_old frame.connection_state_ttl c.conn_state_ttl;
        client_id = assigned_id frame.details_client_id c.client_id;
        last_activity_ms = now;
        current_host_idx = 0;
        need_token_refresh = false;
        last_error = no_error;
      } in
      let up = rt_set_state_locked c' connected success in
      rt_reattach_pending_channels codec (record up { reconnect_attempt = 0 })

  unfoldable pub receive_disconnected : Client C → ProtoFrame → Client C
  receive_disconnected c frame =
      let c' = if frame.error_code == 0 then c else record c { last_error = error_of frame } in
      if is_token_error frame.error_code && c.opts.has_auth_cb
      then record c' { need_token_refresh = true }
      else c'

  -- An ERROR frame, also one that names a channel.
  unfoldable pub connection_error : Client C → ProtoFrame → Client C
  connection_error c frame =
      let c' = record c { last_error = error_of frame } in
      let down = rt_set_state_locked c' failed auth in
      if is_fatal_error frame.error_code
      then if is_token_error frame.error_code && c.opts.has_auth_cb
        then record c' { need_token_refresh = true }
        else record down { close_requested = true }
      else c'

  abbrev pub kept : Client C → List (Channel C) → Option (Site C) → Option (Client C)
  kept c chs none = none
  kept c chs (some s) = some (record c { ring = s.ring; channels = s.ch ∷ chs; told = s.told })

  abbrev pub behind_some : Channel C → Option (Client C) → Option (Client C)
  behind_some ch none = none
  behind_some ch (some c) = some (behind_channel ch c)

  -- The first of the channels `chs` with the name handles the frame.
  unfoldable pub on_channel :
      (Site C → Option (Site C)) → List ℕ → Client C → List (Channel C) → Option (Client C)
  on_channel operate name c [] = some (record c { channels = [] })
  on_channel operate name c (ch ∷ chs) =
      let later = behind_some ch (on_channel operate name c chs) in
      if strcmp_eq ch.name name then kept c chs (operate (site c ch)) else later

  module _ (codec : Codec) (react : C → Message → Listeners C → Listeners C)
      (fetch : List ℕ → List ℕ → Option (List Message × List ℕ)) where
    unfoldable pub to_channel : Client C → ProtoFrame → Option (Client C)
    to_channel c frame = elim (frame.channel) [
      | none ↦ some c
      | some name ↦ on_channel (λ s. on_frame react fetch codec s frame) name c c.channels
    ]

    unfoldable pub rt_dispatch_frame : ℕ → Client C → ProtoFrame → Option (Client C)
    rt_dispatch_frame now c frame = elim (frame.action) [
      | heartbeat ↦ some (send_if (record c { last_activity_ms = now }) codec.encode_heartbeat)
      | connected_action ↦ some (receive_connected codec now c frame)
      | disconnected_action ↦ some (receive_disconnected c frame)
      | error_action ↦ some (connection_error c frame)
      | closed_action ↦ some (rt_set_state_locked c closed success)
      | attached_action ↦ to_channel c frame
      | detached_action ↦ to_channel c frame
      | message_action ↦ to_channel c frame
      | presence_action ↦ to_channel c frame
      | sync_action ↦ to_channel c frame
      | _ ↦ some c
    ]

    module _ (decode : List ℕ → Option ProtoFrame) where
      unfoldable pub on_ws_frame : ℕ → Client C → List ℕ → Option (Client C)
      on_ws_frame now c buf = elim (decode buf) [
        | none ↦ some c
        | some frame ↦ rt_dispatch_frame now c frame
      ]
