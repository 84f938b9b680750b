-- ===== src/Client/Runs.antt =====
-- Runs of the model of ably-c/src/realtime/realtime_client.c: its theorems at concrete clients.
use ably_connectors.Prelude.{
  ℕ, ◌+◌, ◌*◌, ◌≡◌, ◌⊎◌, refl, true, false, Option, none, some, List, [], ◌∷◌,
}
use ably_connectors.Base64.{codes}
use ably_connectors.Types.{closed, failed, Message, error_action, ProtoFrame, Codec}
use ably_connectors.Channel.Listeners.{Listeners}
use ably_connectors.Channel.Receive.{error_of}
use ably_connectors.Channel.Site.{Channel}
use ably_connectors.Client.Url.{json}
use ably_connectors.Client.State.{Client, Options, client_create, channel_get}
use ably_connectors.Client.Dispatch.{connection_error}
use ably_connectors.Client.Service.{Round, event_loop}
use ably_connectors.Client.Fallback.{trail, cycles, trail-cycles}
use ably_connectors.Client.Closing.{connection_error-event_loop}
use ably_connectors.Client.Table.{IsKnown, channel_get-IsKnown}

abbrev test_options : Options
test_options = record {
  realtime_host = codes "realtime.ably.io";
  encoding = json;
  reconnect_initial_delay_ms = 500;
  reconnect_max_delay_ms = 60000;
  reconnect_max_attempts = 0;
  heartbeat_timeout_ms = 35000;
  client_id = some (codes "me");
  token = none;
  has_auth_cb = false;
}

abbrev test_client : Client ℕ
test_client = client_create (codes "key") test_options

abbrev silent : Codec
silent = record {
  encode_publish = λ channel name msg_data client_id id serial. none;
  encode_attach = λ channel params. none;
  encode_detach = λ channel. none;
  encode_presence = λ channel action client_id own_data. none;
  encode_heartbeat = none;
  encode_close = some (codes "CLOSE");
}

abbrev undisturbed : ℕ → Message → Listeners ℕ → Listeners ℕ
undisturbed cb msg t = t

abbrev no_history : List ℕ → List ℕ → Option (List Message × List ℕ)
no_history name cursor = none

abbrev no_frame : List ℕ → Option ProtoFrame
no_frame buf = none

abbrev double_scaled : ℕ → ℕ → ℕ
double_scaled delay attempt = delay * (attempt + 2)

trail-cycles_example :
    trail silent undisturbed no_history no_frame double_scaled 12 test_client
    ≡ some (cycles double_scaled test_options 0 2)
unfolding client_create
trail-cycles_example =
    trail-cycles silent undisturbed no_history no_frame double_scaled 2 0 test_options test_client
      refl refl

-- "No such key".
abbrev fatal_frame : ProtoFrame
fatal_frame = record {
  action = error_action;
  channel = none;
  error_code = 40005;
  error_message = some (codes "invalid key");
  flags = 0;
  connection_id = none;
  connection_key = none;
  messages = [];
  channel_serial = [];
  sync_serial = [];
  presence_msgs = [];
  details_client_id = [];
  connection_state_ttl = 0;
  channel_modes = 0;
}

abbrev quiet_round : Round
quiet_round = record { received = []; clock = 1; stays = true }

connection_error-event_loop_example :
    let down = connection_error test_client fatal_frame in
    (down.state ≡ failed)
    × (down.last_error ≡ error_of fatal_frame)
    × (c' : Client ℕ) × (event_loop silent undisturbed no_history no_frame down (quiet_round ∷ [])
        ≡ some c')
    × (c'.state ≡ closed)
unfolding client_create
connection_error-event_loop_example =
    connection_error-event_loop silent undisturbed no_history no_frame test_client fatal_frame
      quiet_round [] refl refl

channel_get-IsKnown_example :
    (channel_get test_client (codes "room") ≡ (test_client, none))
    ⊎ ((c' : Client ℕ) × (ch : Channel ℕ) × (channel_get test_client (codes "room") ≡ (c', some ch))
        × IsKnown test_client (codes "room") c' ch)
channel_get-IsKnown_example = channel_get-IsKnown test_client (codes "room")
