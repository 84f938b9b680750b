-- ===== src/Json/RoundTrip.antt =====
-- The frames that ably-c/src/realtime/protocol_json.c and presence.c encode, decoded again.
use ably_connectors.Prelude.{
  ℕ, ◌%◌, ◌^◌, ◌<◌, ◌≡◌, refl, ap, ◌∙◌, arith, false, Option, none, some, List, [], ◌∷◌, length,
  take,
}
use ably_connectors.Base64.{codes}
use ably_connectors.Channel.Listeners.{strcmp_eq}
use ably_connectors.Types.{
  Action, message_action, presence_action, ProtoMessage, ProtoFrame, or_empty,
}
use ably_connectors.Realtime.Presence.{
  PresenceAction, absent, present, enter, leave, update, unlisted, PresenceMessage,
}
use ably_connectors.Json.Tree.{Json, number, string, find_field, string_if, object, field, end}
use ably_connectors.Json.Encode.{
  fitting, fit_printed, presence_number, publish_tree, presence_tree, encode_publish_json,
  encode_presence_json,
}
use ably_connectors.Json.Decode.{
  action_of, presence_action_of, json_str, json_int64, decode_message, decode_presence,
  decode_frame, decode_tree, decode_json,
}

-- A frame of the client, as its receiver has it.
abbrev pub frame_with : Action → List ℕ → List ProtoMessage → List PresenceMessage → ProtoFrame
frame_with action channel messages presence_msgs = record {
  action = action;
  channel = some channel;
  error_code = 0;
  error_message = none;
  flags = 0;
  connection_id = none;
  connection_key = none;
  messages = messages;
  channel_serial = [];
  sync_serial = [];
  presence_msgs = presence_msgs;
  details_client_id = [];
  connection_state_ttl = 0;
  channel_modes = 0;
}

abbrev pub message_with : (name msg_data client_id id : Option (List ℕ)) → ProtoMessage
message_with name msg_data client_id id = record {
  id = id;
  client_id = client_id;
  name = name;
  msg_data = msg_data;
  encoding = none;
  timestamp = 0;
  delta_format = none;
  has_occupancy = false;
}

decode_message-publish :
    (name msg_data client_id id : Option (List ℕ))
    → decode_message (
        object (
          string_if (codes "id") id (
            string_if
              (codes "name")
              name
              (string_if (codes "data") msg_data (string_if (codes "clientId") client_id end)))))
      ≡ message_with name msg_data client_id id
unfolding decode_message json_str json_int64 find_field strcmp_eq
decode_message-publish name msg_data client_id id = ground arith

decode_frame-publish :
    (channel : List ℕ) (name msg_data client_id id : Option (List ℕ)) (serial : ℕ)
    → decode_tree 32 (some (publish_tree channel name msg_data client_id id serial))
      ≡ some (frame_with message_action channel (message_with name msg_data client_id id ∷ []) [])
unfolding decode_frame publish_tree json_str json_int64 find_field action_of strcmp_eq
decode_frame-publish channel name msg_data client_id id serial =
    ap (λ msg. some (frame_with message_action channel (msg ∷ []) []))
      (decode_message-publish name msg_data client_id id)

fitting_lem : (len : ℕ) (text : List ℕ) → length text < len → fitting len text ≡ some text
fitting_lem len text room = ground arith

-- Whatever the name, the data, the client id and the message id: where the tree of the frame prints as
-- a text that fits, and this text parses as the tree, the client encodes the text, and decoding it
-- gives a MESSAGE frame of the channel with one message, and this message has the four parts.
pub encode_publish_json-decode_json :
    (print : Json → Option (List ℕ)) (parse : List ℕ → Option Json) (len : ℕ) (channel : List ℕ)
    (name msg_data client_id id : Option (List ℕ)) (serial : ℕ) (text : List ℕ)
    → print (publish_tree channel name msg_data client_id id serial) ≡ some text
    → parse text ≡ some (publish_tree channel name msg_data client_id id serial)
    → length text < len
    → (encode_publish_json print len channel name msg_data client_id id serial ≡ some text)
      × (decode_json 32 parse text
          ≡ some
              (frame_with message_action channel (message_with name msg_data client_id id ∷ []) []))
unfolding encode_publish_json decode_json
encode_publish_json-decode_json print parse len channel name msg_data client_id id serial text
      printed parsed room =
    (
      ap (fit_printed len) printed ∙ fitting_lem len text room,
      ap (decode_tree 32) parsed ∙ decode_frame-publish channel name msg_data client_id id serial,
    )

-- The entry of a PRESENCE frame, as its receiver has it.
abbrev pub presence_with : PresenceAction → List ℕ → Option (List ℕ) → PresenceMessage
presence_with action client_id own_data = record {
  action = action;
  client_id = take 255 client_id;
  connection_id = [];
  msg_data = take 32767 (or_empty own_data);
  timestamp = 0;
}

presence_number-of :
    (action : PresenceAction) → presence_action_of (presence_number action % 2 ^ 32) ≡ action
unfolding presence_action_of
presence_number-of absent = refl
presence_number-of present = refl
presence_number-of enter = refl
presence_number-of leave = refl
presence_number-of update = refl
presence_number-of unlisted = refl

decode_presence-entry :
    (action : PresenceAction) (client_id : List ℕ) (own_data : Option (List ℕ))
    → decode_presence (
        object (
          field
            (codes "action")
            (number (presence_number action))
            (field (codes "clientId") (string client_id) (string_if (codes "data") own_data end))))
      ≡ presence_with action client_id own_data
unfolding decode_presence json_str json_int64 find_field strcmp_eq
decode_presence-entry action client_id none =
    ap (λ a. presence_with a client_id none) (presence_number-of action)
decode_presence-entry action client_id (some own_data) =
    ap (λ a. presence_with a client_id (some own_data)) (presence_number-of action)

decode_frame-presence :
    (channel : List ℕ) (action : PresenceAction) (client_id : List ℕ) (own_data : Option (List ℕ))
    → decode_tree 32 (some (presence_tree channel action client_id own_data))
      ≡ some (frame_with presence_action channel [] (presence_with action client_id own_data ∷ []))
unfolding decode_frame presence_tree json_str json_int64 find_field action_of strcmp_eq
decode_frame-presence channel action client_id own_data =
    ap (λ msg. some (frame_with presence_action channel [] (msg ∷ [])))
      (decode_presence-entry action client_id own_data)

-- The same of a PRESENCE frame: decoding the text gives one entry, with the action and with as much of
-- the client id and of the data as the receiver's arrays hold.
pub encode_presence_json-decode_json :
    (print : Json → Option (List ℕ)) (parse : List ℕ → Option Json) (len : ℕ) (channel : List ℕ)
    (action : PresenceAction) (client_id : List ℕ) (own_data : Option (List ℕ)) (text : List ℕ)
    → print (presence_tree channel action client_id own_data) ≡ some text
    → parse text ≡ some (presence_tree channel action client_id own_data)
    → length text < len
    → (encode_presence_json print len channel action client_id own_data ≡ some text)
      × (decode_json 32 parse text
          ≡ some (
              frame_with presence_action channel [] (presence_with action client_id own_data ∷ [])))
unfolding encode_presence_json decode_json
encode_presence_json-decode_json print parse len channel action client_id own_data text printed
      parsed room =
    (
      ap (fit_printed len) printed ∙ fitting_lem len text room,
      ap (decode_tree 32) parsed ∙ decode_frame-presence channel action client_id own_data,
    )
