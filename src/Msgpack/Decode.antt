-- ===== src/Msgpack/Decode.antt =====
-- `ably_proto_decode_msgpack` of ably-c/src/realtime/protocol_msgpack.c, for the fields that the client
-- reads. An `int` and a `uint32_t` are their bit patterns.
use ably_connectors.Prelude.{
  ℕ, ◌%◌, ◌^◌, Bool, true, false, Option, none, some, List, [], ◌∷◌, take, ltb, if◌then◌else◌,
}
use ably_connectors.Base64.{codes}
use ably_connectors.Types.{ProtoMessage, ProtoFrame}
use ably_connectors.Realtime.Presence.{PresenceMessage}
use ably_connectors.Json.Tree.{Json, object, as_number}
use ably_connectors.Json.Decode.{action_of, presence_action_of, max_presence_per_frame}
use ably_connectors.Msgpack.Nodes.{
  Reader, M, ◌>>=◌, pure, lookup, node_int64, pool_str, node_str_copy, node_int, node_map,
  node_array,
}

-- `extras.occupancy.metrics`: whether it is there. Its six counts are read one by one.
abbrev pub read_metrics : Option Json → M Bool
read_metrics none = pure false
read_metrics (some met) = do
  connections ← node_int met (codes "connections")
  publishers ← node_int met (codes "publishers")
  subscribers ← node_int met (codes "subscribers")
  presence_connections ← node_int met (codes "presenceConnections")
  presence_members ← node_int met (codes "presenceMembers")
  presence_subscribers ← node_int met (codes "presenceSubscribers")
  pure true

abbrev pub read_occupancy : Option Json → M Bool
read_occupancy none = pure false
read_occupancy (some occ) = do met ← node_map occ (codes "metrics"); read_metrics met

-- `extras.delta.format`; the id of the base takes room in the pool, too.
abbrev pub read_delta : Option Json → M (Option (List ℕ))
read_delta none = pure none
read_delta (some delta_node) = do
  format ← pool_str delta_node (codes "format")
  from ← pool_str delta_node (codes "from")
  pure format

abbrev pub read_extras : Option Json → M (Option (List ℕ) × Bool)
read_extras none = pure (none, false)
read_extras (some extras) = do
  delta_node ← node_map extras (codes "delta")
  format ← read_delta delta_node
  occ ← node_map extras (codes "occupancy")
  has_occupancy ← read_occupancy occ
  pure (format, has_occupancy)

unfoldable pub read_message : Json → M ProtoMessage
read_message m = do
  id ← pool_str m (codes "id")
  client_id ← pool_str m (codes "clientId")
  connection_id ← pool_str m (codes "connectionId")
  name ← pool_str m (codes "name")
  msg_data ← pool_str m (codes "data")
  encoding ← pool_str m (codes "encoding")
  timestamp ← node_int64 m (codes "timestamp") 0
  extras ← node_map m (codes "extras")
  found ← read_extras extras
  pure (record {
    id = id;
    client_id = client_id;
    name = name;
    msg_data = msg_data;
    encoding = encoding;
    timestamp = timestamp;
    delta_format = found.0;
    has_occupancy = found.1;
  })

unfoldable pub read_presence : Json → M PresenceMessage
read_presence p = do
  action ← node_int64 p (codes "action") 0
  timestamp ← node_int64 p (codes "timestamp") 0
  client_id ← node_str_copy p (codes "clientId") 256
  connection_id ← node_str_copy p (codes "connectionId") 64
  msg_data ← node_str_copy p (codes "data") 32768
  pure (record {
    action = presence_action_of (action % 2 ^ 32);
    client_id = client_id;
    connection_id = connection_id;
    msg_data = msg_data;
    timestamp = timestamp;
  })

unfoldable pub read_all : {A : Type 0} → (Json → M A) → List Json → M (List A)
read_all each [] = pure []
read_all each (j ∷ js) = do a ← each j; more ← read_all each js; pure (a ∷ more)

-- The entries of an array, as many as there is room for.
abbrev pub read_entries : {A : Type 0} → (Json → M A) → ℕ → Option (List Json) → M (List A)
read_entries each room none = pure []
read_entries each room (some js) = read_all each (take room js)

abbrev pub read_details : Option Json → M (List ℕ × ℕ)
read_details none = pure ([], 0)
read_details (some cd) = do
  client_id ← node_str_copy cd (codes "clientId") 256
  server_id ← node_str_copy cd (codes "serverId") 64
  connection_state_ttl ← node_int64 cd (codes "connectionStateTtl") 0
  max_message_size ← node_int64 cd (codes "maxMessageSize") 0
  max_idle_interval ← node_int64 cd (codes "maxIdleInterval") 0
  pure (client_id, connection_state_ttl)

abbrev pub read_error : Option Json → M (ℕ × Option (List ℕ))
read_error none = pure (0, none)
read_error (some err_node) = do
  code ← node_int64 err_node (codes "code") 0
  message ← pool_str err_node (codes "message")
  pure (code % 2 ^ 32, message)

-- The frame, with the number of its action.
unfoldable pub read_frame : ℕ → Json → ℕ → M ProtoFrame
read_frame message_cap root action = do
  channel ← pool_str root (codes "channel")
  msg_serial ← node_int64 root (codes "msgSerial") 0
  count ← node_int64 root (codes "count") 0
  flags ← node_int64 root (codes "flags") 0
  channel_modes ← node_int64 root (codes "channelMode") 0
  connection_id ← pool_str root (codes "connectionId")
  connection_key ← pool_str root (codes "connectionKey")
  channel_serial ← node_str_copy root (codes "channelSerial") 64
  sync_serial ← node_str_copy root (codes "syncSerial") 128
  cd ← node_map root (codes "connectionDetails")
  details ← read_details cd
  err_node ← node_map root (codes "error")
  error ← read_error err_node
  msgs_node ← node_array root (codes "messages")
  messages ← read_entries read_message message_cap msgs_node
  pres_node ← node_array root (codes "presence")
  presence_msgs ← read_entries read_presence max_presence_per_frame pres_node
  pure (record {
    action = action_of (action % 2 ^ 32);
    channel = channel;
    error_code = error.0;
    error_message = error.1;
    flags = flags % 2 ^ 32;
    connection_id = connection_id;
    connection_key = connection_key;
    messages = messages;
    channel_serial = channel_serial;
    sync_serial = sync_serial;
    presence_msgs = presence_msgs;
    details_client_id = details.0;
    connection_state_ttl = details.1;
    channel_modes = channel_modes % 2 ^ 32;
  })

abbrev pub fresh : Reader
fresh = record { used = 0; broken = false }

abbrev pub frame_for : ℕ → Json → Option ℕ → M (Option ProtoFrame)
frame_for message_cap root none = pure none
frame_for message_cap root (some action) =
    let read = (do frame ← read_frame message_cap root action; pure (some frame)) in
    if ltb (action % 2 ^ 32) (2 ^ 31) then read else pure none

-- The root is a map with an action that is not negative as an `int`, or the result is ABLY_ERR_PROTOCOL, which is `none`.
abbrev pub read_root : ℕ → Json → M (Option ProtoFrame)
read_root message_cap (object fields) = do
  action ← lookup (object fields) (codes "action")
  frame_for message_cap (object fields) (as_number action)
read_root message_cap _ = pure none

abbrev pub read_tree : ℕ → Option Json → M (Option ProtoFrame)
read_tree message_cap none = pure none
read_tree message_cap (some root) = read_root message_cap root

-- `mpack_tree_parse` is the parameter `parse`.
unfoldable pub decode_msgpack : ℕ → (List ℕ → Option Json) → List ℕ → Option ProtoFrame × Reader
decode_msgpack message_cap parse buf = read_tree message_cap (parse buf) fresh
