-- ===== src/Rest/Bodies.antt =====
-- The bodies of ably-c/src/rest/rest_client.c as trees: what the calls send, and what they read.
use ably_connectors.Prelude.{ℕ, ◌%◌, ◌^◌, Bool, false, Option, none, some, List, [], ◌∷◌, map}
use ably_connectors.Base64.{codes}
use ably_connectors.Types.{Message}
use ably_connectors.Realtime.Presence.{PresenceMessage, present}
use ably_connectors.Json.Tree.{
  Json, bool, string, array, object, end, field, string_if, from_list, get_item, as_number,
  as_array,
}
use ably_connectors.Json.Decode.{
  json_str, json_int64, or_number, copied, inner, str_of, int64_of, presence_action_of,
}

-- `ably_rest_message_t`.
pub record RestMessage : Type 0 where
  pub name : Option (List ℕ)
  pub msg_data : Option (List ℕ)
  pub id : Option (List ℕ)

-- `build_single_json_body`, and each entry of a batch.
unfoldable pub message_tree : RestMessage → Json
message_tree m = object (
    string_if (codes "id") m.id
      (string_if (codes "name") m.name (string_if (codes "data") m.msg_data end)))

-- `build_batch_json_body`.
unfoldable pub batch_tree : List RestMessage → Json
batch_tree messages = array (from_list (map message_tree messages))

-- `ably_rest_batch_spec_t`.
pub record BatchSpec : Type 0 where
  pub channel : List ℕ
  pub messages : List RestMessage

abbrev pub spec_tree : BatchSpec → Json
spec_tree spec = object (
    field (codes "channel") (string spec.channel)
      (field (codes "messages") (batch_tree spec.messages) end))

-- The body of `ably_rest_batch_publish`.
unfoldable pub specs_tree : List BatchSpec → Json
specs_tree specs = array (from_list (map spec_tree specs))

-- `ably_rest_batch_result_t`.
pub record BatchResult : Type 0 where
  pub channel : List ℕ
  pub http_status : ℕ
  pub error_code : ℕ
  pub error_message : List ℕ

unfoldable pub batch_result : Json → BatchResult
batch_result ritem =
    let error = inner (codes "error") (some ritem) in
    record {
      channel = copied 256 (json_str ritem (codes "channel"));
      http_status = json_int64 ritem (codes "statusCode") 201;
      error_code = int64_of (codes "code") error % 2 ^ 32;
      error_message = copied 256 (str_of (codes "message") error);
    }

-- A message of a page of the history: its texts are copied into the pool of the page.
unfoldable pub history_item : Json → Message
history_item item = record {
  id = json_str item (codes "id");
  name = json_str item (codes "name");
  msg_data = json_str item (codes "data");
  client_id = json_str item (codes "clientId");
  timestamp = json_int64 item (codes "timestamp") 0;
}

-- A member of a page of presence.
unfoldable pub presence_item : Json → PresenceMessage
presence_item item = record {
  action = elim (as_number (get_item item (codes "action"))) [
    | none ↦ present
    | some n ↦ presence_action_of (n % 2 ^ 32)
  ];
  client_id = copied 256 (json_str item (codes "clientId"));
  connection_id = copied 64 (json_str item (codes "connectionId"));
  msg_data = copied 32768 (json_str item (codes "data"));
  timestamp = json_int64 item (codes "timestamp") 0;
}

-- `ably_occupancy_t`.
pub record Occupancy : Type 0 where
  pub connections : ℕ
  pub publishers : ℕ
  pub subscribers : ℕ
  pub presence_connections : ℕ
  pub presence_members : ℕ
  pub presence_subscribers : ℕ

-- `ably_channel_status_t`.
pub record ChannelStatus : Type 0 where
  pub name : List ℕ
  pub is_active : Bool
  pub occupancy : Occupancy

-- Without the metrics every count is 0.
abbrev pub metric : List ℕ → Option Json → ℕ
metric key metrics = int64_of key metrics % 2 ^ 32

abbrev pub occupancy_of : Option Json → Occupancy
occupancy_of metrics = record {
  connections = metric (codes "connections") metrics;
  publishers = metric (codes "publishers") metrics;
  subscribers = metric (codes "subscribers") metrics;
  presence_connections = metric (codes "presenceConnections") metrics;
  presence_members = metric (codes "presenceMembers") metrics;
  presence_subscribers = metric (codes "presenceSubscribers") metrics;
}

abbrev pub is_true : Option Json → Bool
is_true (some (bool b)) = b
is_true _ = false

abbrev pub active_of : Option Json → Bool
active_of none = false
active_of (some status) = is_true (get_item status (codes "isActive"))

unfoldable pub channel_status : Json → ChannelStatus
channel_status root =
    let status = inner (codes "status") (some root) in
    record {
      name = copied 256 (json_str root (codes "id"));
      is_active = active_of status;
      occupancy = occupancy_of (inner (codes "metrics") (inner (codes "occupancy") status));
    }

-- A list of channels stands in a bare array, or under "items".
abbrev pub channel_items : Json → Option (List Json)
channel_items (array items) = as_array (some (array items))
channel_items root = as_array (get_item root (codes "items"))

-- The first entry of [<timestamp_ms>], or 0.
abbrev pub time_of : Option (List Json) → ℕ
time_of none = 0
time_of (some []) = 0
time_of (some (ts ∷ more)) = or_number 0 (as_number (some ts))
