-- ===== src/Client/State.antt =====
-- `ably_rt_client_s` of ably-c/src/realtime/realtime_client.h, its channels and its connection states:
-- `rt_set_state_locked`, `ably_rt_channel_get`, `rt_reattach_pending_channels`.
-- The channels are told apart by their names. Locking, logging and freeing are left out.
use ably_connectors.Prelude.{
  ℕ, Bool, true, false, Option, none, some, List, [], ◌∷◌, ◌++◌, length, take, leb, if◌then◌else◌,
}
use ably_connectors.Types.{
  AblyError, ConnectionState, initialized, connecting, connected, disconnected, suspended, closing,
  closed, failed, ErrorInfo, no_error, or_empty, Codec,
}
use ably_connectors.Realtime.SendRing.{SendRing, create_ring}
use ably_connectors.Channel.Listeners.{strcmp_eq}
use ably_connectors.Channel.Site.{Event, Channel, Site, channel_create, on_disconnect, reattach}
use ably_connectors.Client.Url.{Encoding, create_path}

-- `ably_rt_options_t`; of `auth_cb` whether it is set.
pub record Options : Type 0 where
  pub realtime_host : List ℕ
  pub encoding : Encoding
  pub reconnect_initial_delay_ms : ℕ
  pub reconnect_max_delay_ms : ℕ
  pub reconnect_max_attempts : ℕ
  pub heartbeat_timeout_ms : ℕ
  pub client_id : Option (List ℕ)
  pub token : Option (List ℕ)
  pub has_auth_cb : Bool

-- What the client does that is seen outside: a call of `conn_state_cb`, and a frame for the WebSocket.
pub data Effect : Type 0 where
  conn_changed : ConnectionState → ConnectionState → AblyError → Effect
  ws_send : List ℕ → Effect

pub record Client {ℓ} (C : Type ℓ) : Type ℓ where
  pub state : ConnectionState
  pub close_requested : Bool
  pub ring : SendRing
  pub channels : List (Channel C)
  pub reconnect_attempt : ℕ
  pub current_host_idx : ℕ
  pub skip_backoff : Bool
  pub connection_id : List ℕ
  pub connection_key : List ℕ
  pub conn_state_ttl : ℕ
  pub last_error : ErrorInfo
  pub need_token_refresh : Bool
  pub last_activity_ms : ℕ
  pub opts : Options
  pub client_id : List ℕ
  pub token : List ℕ
  pub ws_path : List ℕ
  pub has_conn_state_cb : Bool
  pub told : List (Event C)
  pub effects : List Effect

abbrev pub same_conn_state : ConnectionState → ConnectionState → Bool
same_conn_state initialized initialized = true
same_conn_state connecting connecting = true
same_conn_state connected connected = true
same_conn_state disconnected disconnected = true
same_conn_state suspended suspended = true
same_conn_state closing closing = true
same_conn_state closed closed = true
same_conn_state failed failed = true
same_conn_state _ _ = false

abbrev pub max_channels : ℕ
max_channels = 64

module _ {ℓ} {C : Type ℓ} where
  -- `ably_rt_client_create`, where the API key is not empty and memory is enough.
  unfoldable pub client_create : List ℕ → Options → Client C
  client_create api_key opts =
      let id = take 255 (or_empty opts.client_id) in
      let token = take 511 (or_empty opts.token) in
      record {
        state = initialized;
        close_requested = false;
        ring = create_ring;
        channels = [];
        reconnect_attempt = 0;
        current_host_idx = 0;
        skip_backoff = false;
        connection_id = [];
        connection_key = [];
        conn_state_ttl = 120000;
        last_error = no_error;
        need_token_refresh = false;
        last_activity_ms = 0;
        opts = opts;
        client_id = id;
        token = token;
        ws_path = create_path opts.encoding api_key token id;
        has_conn_state_cb = false;
        told = [];
        effects = [];
      }

  abbrev pub emit_effects : Client C → List Effect → Client C
  emit_effects c effects = record c { effects = c.effects ++ effects }

  unfoldable pub rt_set_state_locked : Client C → ConnectionState → AblyError → Client C
  rt_set_state_locked c new_state reason =
      let moved = record c { state = new_state } in
      if same_conn_state c.state new_state
      then c
      else if c.has_conn_state_cb
      then emit_effects moved (conn_changed new_state c.state reason ∷ [])
      else moved

  unfoldable pub find_channel : List ℕ → List (Channel C) → Option (Channel C)
  find_channel name [] = none
  find_channel name (ch ∷ chs) =
      let later = find_channel name chs in if strcmp_eq ch.name name then some ch else later

  abbrev pub found_or_new : Client C → List ℕ → Option (Channel C) → Client C × Option (Channel C)
  found_or_new c name (some ch) = (c, some ch)
  found_or_new c name none = if leb max_channels (length c.channels) then (c, none) else (
    record c { channels = c.channels ++ (channel_create name ∷ []) },
    some (channel_create name),
  )

  -- `ably_rt_channel_get`, where memory is enough.
  unfoldable pub channel_get : Client C → List ℕ → Client C × Option (Channel C)
  channel_get c name =
      if leb 256 (length name)
      then (c, none)
      else found_or_new c name (find_channel name c.channels)

  -- A channel with what it uses of the client, and the client after an operation on it.
  abbrev pub site : Client C → Channel C → Site C
  site c ch = record {
    ch = ch;
    ring = c.ring;
    conn_state = c.state;
    client_id = c.client_id;
    told = c.told;
  }

  abbrev pub behind_channel : Channel C → Client C → Client C
  behind_channel ch c = record c { channels = ch ∷ c.channels }

  -- An operation on each channel in turn, for the client `c` with the channels `chs`.
  unfoldable pub each_channel : (Site C → Site C) → Client C → List (Channel C) → Client C
  each_channel operate c [] = record c { channels = [] }
  each_channel operate c (ch ∷ chs) =
      let s = operate (site c ch) in
      behind_channel s.ch (each_channel operate (record c { ring = s.ring; told = s.told }) chs)

  unfoldable pub rt_reattach_pending_channels : Codec → Client C → Client C
  rt_reattach_pending_channels codec c = each_channel (reattach codec) c c.channels

  unfoldable pub disconnect_channels : Client C → Client C
  disconnect_channels c = each_channel on_disconnect c c.channels
