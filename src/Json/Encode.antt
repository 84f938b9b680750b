-- ===== src/Json/Encode.antt =====
-- The encoders of ably-c/src/realtime/protocol_json.c and `encode_presence_json` of presence.c. The
-- result 0, where nothing is encoded, is `none`.
use ably_connectors.Prelude.{
  ℕ, ◌+◌, Bool, true, false, ◌||◌, Option, none, some, List, [], ◌∷◌, ◌++◌, length, ltb, leb, ◌==◌,
  if◌then◌else◌,
}
use ably_connectors.Base64.{codes}
use ably_connectors.Types.{AttachParams, Codec, non_empty}
use ably_connectors.Realtime.Presence.{
  PresenceAction, absent, present, enter, leave, update, unlisted,
}
use ably_connectors.Rest.Text.{decimal}
use ably_connectors.Json.Tree.{
  Json, number, string, array, object, nil, item, Fields, end, field, string_if,
}

-- A text of `snprintf` that has to fit into `len` bytes with its NUL.
abbrev pub fitting : ℕ → List ℕ → Option (List ℕ)
fitting len text = if ltb (length text) len then some text else none

-- Every text between quotes begins and ends with the byte 34.
unfoldable pub encode_action_only : ℕ → ℕ → Option (List ℕ)
encode_action_only len action = fitting len (codes "{\"action\":" ++ (decimal action ++ codes "}"))

-- What the loop of `encode_action_channel` writes from `pos` on.
abbrev pub then_byte : ℕ → Option (List ℕ) → Option (List ℕ)
then_byte c none = none
then_byte c (some text) = some (c ∷ text)

unfoldable pub close_text : ℕ → ℕ → Option (List ℕ)
close_text len pos = if leb len (pos + 2) then none else some (34 ∷ 125 ∷ [])

abbrev pub is_escaped : ℕ → Bool
is_escaped c = c == 34 || c == 92

unfoldable pub escape_from : (len pos : ℕ) → List ℕ → Option (List ℕ)
escape_from len pos [] = close_text len pos
escape_from len pos (c ∷ channel) =
    let plain =
      if leb len (pos + 1) then none else then_byte c (escape_from len (pos + 1) channel) in
    let escaped =
      if leb len (pos + 2)
      then none
      else if leb len (pos + 1 + 1)
      then none
      else then_byte 92 (then_byte c (escape_from len (pos + 2) channel)) in
    if is_escaped c then escaped else plain

abbrev pub prefixed : List ℕ → Option (List ℕ) → Option (List ℕ)
prefixed text none = none
prefixed text (some more) = some (text ++ more)

abbrev pub channel_head : ℕ → List ℕ
channel_head action = codes "{\"action\":" ++ (decimal action ++ codes ",\"channel\":\"")

unfoldable pub encode_action_channel : ℕ → ℕ → List ℕ → Option (List ℕ)
encode_action_channel len action channel =
    let escaped = escape_from len (length (channel_head action)) channel in
    if ltb (length (channel_head action)) len then prefixed (channel_head action) escaped else none

abbrev pub is_some : Option (List ℕ) → Bool
is_some none = false
is_some (some s) = true

abbrev pub field_if : Bool → List ℕ → Json → Fields → Fields
field_if wanted key value fields = if wanted then field key value fields else fields

-- The tree of an ATTACH frame with parameters.
abbrev pub params_tree : AttachParams → Fields
params_tree params = field_if params.delta (codes "delta") (string (codes "vcdiff")) (
    field_if (ltb 0 params.rewind) (codes "rewind") (string (decimal params.rewind))
      (field_if params.occupancy (codes "occupancy") (string (codes "metrics.all")) end))

abbrev pub wants_params : AttachParams → Bool
wants_params params = params.delta || ltb 0 params.rewind || params.occupancy

abbrev pub filled : Option (List ℕ) → Option (List ℕ)
filled none = none
filled (some s) = non_empty s

unfoldable pub attach_tree : List ℕ → AttachParams → Json
attach_tree channel params = object (
    field (codes "action") (number 10) (
      field (codes "channel") (string channel) (
        string_if (codes "channelSerial") (filled params.channel_serial) (
          field_if (ltb 0 params.channel_modes) (codes "channelMode") (number params.channel_modes)
            (field_if (wants_params params) (codes "params") (object (params_tree params)) end)))))

-- The tree of a MESSAGE frame.
unfoldable pub publish_tree :
    (channel : List ℕ) (name msg_data client_id msg_id : Option (List ℕ)) (msg_serial : ℕ) → Json
publish_tree channel name msg_data client_id msg_id msg_serial = object (
    field (codes "action") (number 15) (
      field (codes "msgSerial") (number msg_serial) (
        field (codes "channel") (string channel) (
          field (codes "messages")
            (array (
              item
                (object (
                  string_if (codes "id") msg_id (
                    string_if (codes "name") name (
                      string_if (codes "data") msg_data
                        (string_if (codes "clientId") client_id end)))))
                nil))
            end))))

-- The number of a presence action; the last one is never sent.
abbrev pub presence_number : PresenceAction → ℕ
presence_number absent = 0
presence_number present = 1
presence_number enter = 2
presence_number leave = 3
presence_number update = 4
presence_number unlisted = 5

-- The tree of a PRESENCE frame.
unfoldable pub presence_tree : List ℕ → PresenceAction → List ℕ → Option (List ℕ) → Json
presence_tree channel action client_id own_data = object (
    field (codes "action") (number 14) (
      field (codes "channel") (string channel) (
        field (codes "presence")
          (array (
            item
              (object (
                field (codes "action") (number (presence_number action)) (
                  field (codes "clientId") (string client_id)
                    (string_if (codes "data") own_data end))))
              nil))
          end)))

abbrev pub fit_printed : ℕ → Option (List ℕ) → Option (List ℕ)
fit_printed len none = none
fit_printed len (some text) = fitting len text

-- The buffers of `ably_channel_publish` and of `ably_channel_publish_with_id`.
abbrev pub publish_room : Option (List ℕ) → ℕ
publish_room none = 33408
publish_room (some id) = 33536

-- `has_params`.
abbrev pub has_params : AttachParams → Bool
has_params params =
    wants_params params || is_some params.channel_serial || ltb 0 params.channel_modes

module _ (print : Json → Option (List ℕ)) where
  -- `cJSON_PrintUnformatted`, and the test that the text fits.
  abbrev pub printed : ℕ → Json → Option (List ℕ)
  printed len tree = fit_printed len (print tree)

  unfoldable pub encode_attach_json : ℕ → List ℕ → AttachParams → Option (List ℕ)
  encode_attach_json len channel params =
      if has_params params
      then printed len (attach_tree channel params)
      else encode_action_channel len 10 channel

  unfoldable pub encode_publish_json :
      (len : ℕ) (channel : List ℕ) (name msg_data client_id msg_id : Option (List ℕ))
      (msg_serial : ℕ)
      → Option (List ℕ)
  encode_publish_json len channel name msg_data client_id msg_id msg_serial =
      printed len (publish_tree channel name msg_data client_id msg_id msg_serial)

  unfoldable pub encode_presence_json :
      ℕ → List ℕ → PresenceAction → List ℕ → Option (List ℕ) → Option (List ℕ)
  encode_presence_json len channel action client_id own_data =
      printed len (presence_tree channel action client_id own_data)

  -- The encoders with the buffers of their callers.
  unfoldable pub json_codec : Codec
  json_codec = record {
    encode_publish = λ channel name msg_data client_id id serial.
        encode_publish_json (publish_room id) channel name msg_data client_id id serial;
    encode_attach = encode_attach_json 512;
    encode_detach = encode_action_channel 288 12;
    encode_presence = encode_presence_json 33408;
    encode_heartbeat = encode_action_only 32 0;
    encode_close = encode_action_only 32 7;
  }
