-- ===== src/Json/Decode.antt =====
-- `ably_proto_decode_json` of ably-c/src/realtime/protocol_json.c, for the fields that the client
-- reads. An `int` and a `uint32_t` are their bit patterns.
use ably_connectors.Prelude.{
  ℕ, zero, suc, ◌-◌, ◌%◌, ◌^◌, Bool, true, false, Option, none, some, List, [], ◌∷◌, map, get_or,
  take,
}
use ably_connectors.Base64.{codes}
use ably_connectors.Types.{
  Action, heartbeat, ack, nack, connected_action, disconnect_action, disconnected_action,
  close_action, closed_action, error_action, attach_action, attached_action, detach_action,
  detached_action, presence_action, message_action, sync_action, auth_action, unlisted_action,
  ProtoMessage, ProtoFrame, or_empty,
}
use ably_connectors.Realtime.Presence.{
  PresenceAction, absent, present, enter, leave, update, unlisted, PresenceMessage,
}
use ably_connectors.Json.Tree.{Json, get_item, as_string, as_number, as_object, as_array}

unfoldable pub action_of : ℕ → Action
action_of zero = heartbeat
action_of (suc zero) = ack
action_of (suc (suc zero)) = nack
action_of (suc (suc (suc n))) =
    get_or
      (unlisted_action ∷ connected_action ∷ disconnect_action ∷ disconnected_action ∷ close_action
        ∷ closed_action ∷ error_action ∷ attach_action ∷ attached_action ∷ detach_action
        ∷ detached_action ∷ presence_action ∷ message_action ∷ sync_action ∷ auth_action ∷ [])
      n unlisted_action

unfoldable pub presence_action_of : ℕ → PresenceAction
presence_action_of n = get_or (absent ∷ present ∷ enter ∷ leave ∷ update ∷ []) n unlisted

unfoldable pub json_str : Json → List ℕ → Option (List ℕ)
json_str obj key = as_string (get_item obj key)

abbrev pub or_number : ℕ → Option ℕ → ℕ
or_number default none = default
or_number default (some n) = n

unfoldable pub json_int64 : Json → List ℕ → ℕ → ℕ
json_int64 obj key default = or_number default (as_number (get_item obj key))

abbrev pub json_int : Json → List ℕ → ℕ
json_int obj key = json_int64 obj key 0 % 2 ^ 32

-- A text copied into an array of `size` bytes, which stays empty where there is none.
abbrev pub copied : ℕ → Option (List ℕ) → List ℕ
copied size text = take (size - 1) (or_empty text)

-- The object under a key of another, where there is one.
abbrev pub inner : List ℕ → Option Json → Option Json
inner key none = none
inner key (some obj) = as_object (get_item obj key)

abbrev pub str_of : List ℕ → Option Json → Option (List ℕ)
str_of key none = none
str_of key (some obj) = json_str obj key

abbrev pub int64_of : List ℕ → Option Json → ℕ
int64_of key none = 0
int64_of key (some obj) = json_int64 obj key 0

abbrev pub is_there : Option Json → Bool
is_there none = false
is_there (some obj) = true

unfoldable pub decode_message : Json → ProtoMessage
decode_message m =
    let extras = inner (codes "extras") (some m) in
    record {
      id = json_str m (codes "id");
      client_id = json_str m (codes "clientId");
      name = json_str m (codes "name");
      msg_data = json_str m (codes "data");
      encoding = json_str m (codes "encoding");
      timestamp = json_int64 m (codes "timestamp") 0;
      delta_format = str_of (codes "format") (inner (codes "delta") extras);
      has_occupancy = is_there (inner (codes "metrics") (inner (codes "occupancy") extras));
    }

unfoldable pub decode_presence : Json → PresenceMessage
decode_presence p = record {
  action = presence_action_of (json_int p (codes "action"));
  client_id = copied 256 (json_str p (codes "clientId"));
  connection_id = copied 64 (json_str p (codes "connectionId"));
  msg_data = copied 32768 (json_str p (codes "data"));
  timestamp = json_int64 p (codes "timestamp") 0;
}

-- The entries of an array, as many as there is room for.
abbrev pub entries {ℓ} : {A : Type ℓ} → (Json → A) → ℕ → Option (List Json) → List A
entries decode room none = []
entries decode room (some js) = map decode (take room js)

abbrev pub max_presence_per_frame : ℕ
max_presence_per_frame = 64

module _ (message_cap : ℕ) where
  unfoldable pub decode_frame : Json → ℕ → ProtoFrame
  decode_frame root action =
      let cd = inner (codes "connectionDetails") (some root) in
      let error = inner (codes "error") (some root) in
      record {
        action = action_of (action % 2 ^ 32);
        channel = json_str root (codes "channel");
        error_code = int64_of (codes "code") error % 2 ^ 32;
        error_message = str_of (codes "message") error;
        flags = json_int root (codes "flags");
        connection_id = json_str root (codes "connectionId");
        connection_key = json_str root (codes "connectionKey");
        messages = entries decode_message message_cap (as_array (get_item root (codes "messages")));
        channel_serial = copied 64 (json_str root (codes "channelSerial"));
        sync_serial = copied 128 (json_str root (codes "syncSerial"));
        presence_msgs =
            entries decode_presence max_presence_per_frame
              (as_array (get_item root (codes "presence")));
        details_client_id = copied 256 (str_of (codes "clientId") cd);
        connection_state_ttl = int64_of (codes "connectionStateTtl") cd;
        channel_modes = json_int root (codes "channelMode");
      }

  -- `none` is ABLY_ERR_PROTOCOL.
  abbrev pub decode_root : Json → Option ℕ → Option ProtoFrame
  decode_root root none = none
  decode_root root (some action) = some (decode_frame root action)

  abbrev pub decode_tree : Option Json → Option ProtoFrame
  decode_tree none = none
  decode_tree (some root) = decode_root root (as_number (get_item root (codes "action")))

  unfoldable pub decode_json : (List ℕ → Option Json) → List ℕ → Option ProtoFrame
  decode_json parse buf = decode_tree (parse buf)
