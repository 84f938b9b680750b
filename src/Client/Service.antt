-- ===== src/Client/Service.antt =====
-- The service thread, `service_thread_fn` of ably-c/src/realtime/realtime_client.c, with the choice of
-- the host, the token renewal and the backoff. A turn is one pass of the outer loop; what the network,
-- the clock, `auth_cb` and the other threads do in it are its inputs.
use ably_connectors.Prelude.{
  ℕ, ◌+◌, Bool, true, false, ◌&&◌, ◌||◌, not, Option, none, some, List, [], ◌∷◌, ◌++◌, get_or, take,
  ltb, leb, ◌==◌, if◌then◌else◌,
}
use ably_connectors.Types.{
  AblyError, success, network, connecting, disconnected, suspended, closed, failed, Message,
  ProtoFrame, Codec,
}
use ably_connectors.Base64.{codes}
use ably_connectors.Realtime.SendRing.{SendRing, reset_msg_serial, drain}
use ably_connectors.Channel.Listeners.{Listeners}
use ably_connectors.Client.Url.{token_path, resume_path}
use ably_connectors.Client.State.{
  Client, Options, same_conn_state, rt_set_state_locked, disconnect_channels,
}
use ably_connectors.Client.Dispatch.{send_if, on_ws_frame}

abbrev pub default_fallback_hosts : List (List ℕ)
default_fallback_hosts =
    codes "a.ably-realtime.com"
    ∷ codes "b.ably-realtime.com"
    ∷ codes "c.ably-realtime.com"
    ∷ codes "d.ably-realtime.com"
    ∷ codes "e.ably-realtime.com"
    ∷ []

abbrev pub fallback_count : ℕ
fallback_count = 5

-- `delay` after the product of doubles, which the argument `scaled` gives with its jitter.
unfoldable pub backoff_delay_ms : (scaled : ℕ → ℕ → ℕ) → Options → ℕ → ℕ
backoff_delay_ms scaled opts attempt =
    let delay = scaled opts.reconnect_initial_delay_ms attempt in
    let delay' = if ltb delay 1 then 1 else delay in
    if ltb opts.reconnect_max_delay_ms delay' then opts.reconnect_max_delay_ms else delay'

-- What happens outside in one pass of the event loop: the frames that arrive with the clock, the clock
-- at the watchdog, and whether the WebSocket is still connected at the next pass.
pub record Round : Type 0 where
  pub received : List (ℕ × List ℕ)
  pub clock : ℕ
  pub stays : Bool

-- What happens outside in one pass of the outer loop: whether the WebSocket connects and the passes of
-- the event loop, the result of `auth_cb`, and whether the close has been requested by the wait's end.
pub record Outside : Type 0 where
  pub connects : Bool
  pub rounds : List Round
  pub auth_result : AblyError × List ℕ
  pub closing : Bool

-- The client after a turn, the host tried, the waits in milliseconds, and whether the thread goes on.
pub record Turn {ℓ} (C : Type ℓ) : Type ℓ where
  pub client : Client C
  pub waits : List ℕ
  pub goes_on : Bool

abbrev pub is_success : AblyError → Bool
is_success success = true
is_success _ = false

module _ {ℓ} {C : Type ℓ} where
  unfoldable pub host_to_use : Client C → List ℕ
  host_to_use c =
      if ltb 0 c.current_host_idx && leb c.current_host_idx fallback_count
      then get_or (c.opts.realtime_host ∷ default_fallback_hosts) c.current_host_idx []
      else c.opts.realtime_host

  -- The client before `ably_ws_connect`, and the path it connects to.
  unfoldable pub begin_attempt : Client C → Client C × List ℕ
  begin_attempt c =
      let c' = rt_set_state_locked c connecting success in
      (
        record c' { last_activity_ms = 0; connection_id = []; ring = reset_msg_serial c'.ring },
        resume_path c'.ws_path c'.connection_key,
      )

  abbrev pub send_drained : Client C → SendRing × Option (List ℕ) → Client C
  send_drained c (ring, frame) = send_if (record c { ring = ring }) frame

  -- The heartbeat watchdog: `elapsed > heartbeat_timeout_ms`.
  abbrev pub is_stale : Client C → ℕ → Bool
  is_stale c clock =
      not (c.last_activity_ms == 0)
      && ltb 0 c.opts.heartbeat_timeout_ms
      && ltb (c.last_activity_ms + c.opts.heartbeat_timeout_ms) clock

  abbrev pub should_stop : Client C → Bool
  should_stop c =
      c.close_requested || same_conn_state c.state failed || same_conn_state c.state closed

  -- "Token renewal": the client after `auth_cb` returned.
  abbrev pub renewed : Client C → AblyError × List ℕ → Client C
  renewed c (e, []) = c
  renewed c (e, ch ∷ new_token) =
      let token = take 511 (ch ∷ new_token) in
      if is_success e
      then record c {
        token = token;
        ws_path = token_path c.opts.encoding token;
        skip_backoff = true;
      }
      else c

  abbrev pub refresh_token : Client C → AblyError × List ℕ → Client C
  refresh_token c auth_result =
      if c.need_token_refresh && c.opts.has_auth_cb
      then renewed (record c { need_token_refresh = false }) auth_result
      else c

  -- The next host; `true` where it is tried at once.
  unfoldable pub next_host : Client C → Client C × Bool
  next_host c =
      if leb c.current_host_idx fallback_count
      then if leb (c.current_host_idx + 1) fallback_count
        then (record c { current_host_idx = c.current_host_idx + 1 }, true)
        else (record c { current_host_idx = 0 }, false)
      else (c, false)

  abbrev pub suspension : Client C → ℕ
  suspension c = if ltb 0 c.conn_state_ttl then c.conn_state_ttl else 120000

  -- "Check max attempts"; a limit of 0 stands for all limits below 1.
  unfoldable pub suspend_if : Client C → Client C × List ℕ
  suspend_if c =
      let down = rt_set_state_locked c suspended network in
      if ltb 0 c.opts.reconnect_max_attempts
        && leb c.opts.reconnect_max_attempts c.reconnect_attempt
      then (record down { reconnect_attempt = 0 }, suspension c ∷ [])
      else (c, [])

  -- "Skip backoff if token was just refreshed", else the delay.
  unfoldable pub back_off : (scaled : ℕ → ℕ → ℕ) → Client C → List ℕ → (closing : Bool) → Turn C
  back_off scaled c waits closing =
      let closes = c.close_requested || closing in
      let c' = record c { close_requested = closes } in
      let delay = backoff_delay_ms scaled c.opts c.reconnect_attempt in
      if c.skip_backoff
      then record {
        client = record c' { skip_backoff = false };
        waits = waits;
        goes_on = not closes;
      }
      else record {
        client = record c' { reconnect_attempt = c.reconnect_attempt + 1 };
        waits = if c.close_requested then waits else waits ++ (delay ∷ []);
        goes_on = true;
      }

  -- After the choice of the host: at once, or after the waits.
  abbrev pub retried : (scaled : ℕ → ℕ → ℕ) → (closing : Bool) → Client C × Bool → Turn C
  retried scaled closing (c, true) = record { client = c; waits = []; goes_on = true }
  retried scaled closing (c, false) =
      let (c', waits) = suspend_if c in back_off scaled c' waits closing

  -- From the label `disconnected` on.
  unfoldable pub lost : (scaled : ℕ → ℕ → ℕ) → Client C → Outside → Turn C
  lost scaled c outside =
      let down = disconnect_channels (rt_set_state_locked c disconnected network) in
      retried scaled outside.closing (next_host (refresh_token down outside.auth_result))

  module _ (codec : Codec) (react : C → Message → Listeners C → Listeners C)
      (fetch : List ℕ → List ℕ → Option (List Message × List ℕ))
      (decode : List ℕ → Option ProtoFrame) where
    unfoldable pub receive_frames : Client C → List (ℕ × List ℕ) → Option (Client C)
    receive_frames c [] = some c
    receive_frames c ((now, buf) ∷ received) =
        elim (on_ws_frame codec react fetch decode now c buf) [
          | none ↦ none
          | some c' ↦ receive_frames c' received
        ]

    -- The event loop.
    unfoldable pub event_loop : Client C → List Round → Option (Client C)
    event_loop c [] = some c
    event_loop c (round ∷ rounds) =
        if c.close_requested
        then some (rt_set_state_locked (send_if c codec.encode_close) closed success)
        else elim (receive_frames (send_drained c (drain c.ring)) round.received) [
          | none ↦ none
          | some c' ↦ elim (is_stale c' round.clock || not round.stays) [
            | true ↦ some c'
            | false ↦ event_loop c' rounds
          ]
        ]

    abbrev pub after_loop : (scaled : ℕ → ℕ → ℕ) → Outside → Option (Client C) → Option (Turn C)
    after_loop scaled outside none = none
    after_loop scaled outside (some c) =
        if should_stop c
        then some (record { client = c; waits = []; goes_on = false })
        else some (lost scaled c outside)

    -- One pass of the outer loop of `service_thread_fn`.
    unfoldable pub service_turn : (scaled : ℕ → ℕ → ℕ) → Client C → Outside → Option (Turn C)
    service_turn scaled c outside =
        let attempt = (begin_attempt c).0 in
        if c.close_requested
        then some
            (record { client = rt_set_state_locked c closed success; waits = []; goes_on = false })
        else if outside.connects
        then after_loop scaled outside (event_loop attempt outside.rounds)
        else some (lost scaled attempt outside)
