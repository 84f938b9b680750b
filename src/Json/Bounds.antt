-- ===== src/Json/Bounds.antt =====
-- What `ably_proto_decode_json` of ably-c/src/realtime/protocol_json.c leaves in the arrays of a frame.
use ably_connectors.Prelude.{
  ℕ, zero, suc, ◌-◌, ◌≤◌, ◌<◌, ◌≡◌, arith, Option, none, some, List, [], ◌∷◌, map, length,
  length-take, All, take,
}
use mathlib.Core.Path.{subst}
use ably_connectors.Types.{ProtoFrame, or_empty}
use ably_connectors.Hashmap.Probe.{IsKey}
use ably_connectors.Realtime.Presence.{PresenceMessage}
use ably_connectors.Base64.{codes}
use ably_connectors.Json.Tree.{Json, get_item, as_array, as_number}
use ably_connectors.Json.Decode.{
  json_str, str_of, inner, copied, entries, decode_message, decode_presence, decode_frame,
  decode_root, decode_tree, decode_json,
}

-- An entry whose texts fit into their arrays with their NUL.
pub record IsFitting (p : PresenceMessage) : Type 0 where
  pub client_id : IsKey p.client_id
  pub connection_id : length p.connection_id < 64
  pub msg_data : length p.msg_data < 32768

pub record IsBounded (frame : ProtoFrame) : Type 0 where
  pub messages : length frame.messages ≤ 32
  pub presence_msgs : length frame.presence_msgs ≤ 64
  pub fitting : All IsFitting frame.presence_msgs
  pub channel_serial : length frame.channel_serial < 64
  pub sync_serial : length frame.sync_serial < 128
  pub details_client_id : length frame.details_client_id < 256

length-copied : (size : ℕ) (text : Option (List ℕ)) → 0 < size → length (copied size text) < size
length-copied size text h = omega (arith, length-take (size - 1) (or_empty text))

decode_presence-IsFitting : (p : Json) → IsFitting (decode_presence p)
unfolding decode_presence
decode_presence-IsFitting p = record {
  client_id = length-copied 256 (json_str p (codes "clientId")) (omega arith);
  connection_id = length-copied 64 (json_str p (codes "connectionId")) (omega arith);
  msg_data = length-copied 32768 (json_str p (codes "data")) (omega arith);
}

All-map_take {ℓ κ} :
    {A : Type ℓ} (P : A → Type κ) (decode : Json → A)
    → ((j : Json) → P (decode j))
    → (n : ℕ) (js : List Json) → All P (map decode (take n js))
All-map_take P decode each zero js = tt
All-map_take P decode each (suc n) [] = tt
All-map_take P decode each (suc n) (j ∷ js) = (each j, All-map_take P decode each n js)

length-map_take {ℓ} :
    {A : Type ℓ} (decode : Json → A) (n : ℕ) (js : List Json) → length (map decode (take n js)) ≤ n
length-map_take decode zero js = omega arith
length-map_take decode (suc n) [] = omega arith
length-map_take decode (suc n) (j ∷ js) = omega (arith, length-map_take decode n js)

length-entries {ℓ} :
    {A : Type ℓ} (decode : Json → A) (n : ℕ) (js : Option (List Json))
    → length (entries decode n js) ≤ n
length-entries decode n none = omega arith
length-entries decode n (some js) = length-map_take decode n js

entries-IsFitting : (n : ℕ) (js : Option (List Json)) → All IsFitting (entries decode_presence n js)
entries-IsFitting n none = tt
entries-IsFitting n (some js) =
    All-map_take IsFitting decode_presence decode_presence-IsFitting n js

decode_frame-IsBounded : (root : Json) (action : ℕ) → IsBounded (decode_frame 32 root action)
unfolding decode_frame
decode_frame-IsBounded root action =
    let list = λ (key : List ℕ). as_array (get_item root key) in
    let details = inner (codes "connectionDetails") (some root) in
    record {
      messages = length-entries decode_message 32 (list (codes "messages"));
      presence_msgs = length-entries decode_presence 64 (list (codes "presence"));
      fitting = entries-IsFitting 64 (list (codes "presence"));
      channel_serial = length-copied 64 (json_str root (codes "channelSerial")) (omega arith);
      sync_serial = length-copied 128 (json_str root (codes "syncSerial")) (omega arith);
      details_client_id = length-copied 256 (str_of (codes "clientId") details) (omega arith);
    }

decode_root-IsBounded :
    (root : Json) (frame : ProtoFrame) (action : Option ℕ)
    → decode_root 32 root action ≡ some frame
    → IsBounded frame
decode_root-IsBounded root frame none e = absurd (cc e)
decode_root-IsBounded root frame (some action) e =
    let same : decode_frame 32 root action ≡ frame = cc e in
    subst IsBounded same (decode_frame-IsBounded root action)

decode_tree-IsBounded :
    (root : Option Json) (frame : ProtoFrame) → decode_tree 32 root ≡ some frame → IsBounded frame
decode_tree-IsBounded none frame e = absurd (cc e)
decode_tree-IsBounded (some root) frame e =
    decode_root-IsBounded root frame (as_number (get_item root (codes "action"))) e

-- Whatever the text and whatever it parses as: a frame that is decoded from it has at most 32 messages
-- and 64 presence entries, its serials and its client id fit into their arrays, and so do the texts of
-- each presence entry; in particular their client ids are keys that the hash map of the members takes.
pub decode_json-IsBounded :
    (parse : List ℕ → Option Json) (buf : List ℕ) (frame : ProtoFrame)
    → decode_json 32 parse buf ≡ some frame
    → IsBounded frame
unfolding decode_json
decode_json-IsBounded parse buf frame e = decode_tree-IsBounded (parse buf) frame e
