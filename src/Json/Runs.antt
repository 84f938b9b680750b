-- ===== src/Json/Runs.antt =====
-- Runs of the model of ably-c/src/realtime/protocol_json.c.
use ably_connectors.Prelude.{ℕ, ◌≡◌, refl, arith, Option, none, some, List, [], ◌∷◌, ◌++◌}
use ably_connectors.Base64.{codes}
use ably_connectors.Types.{message_action}
use ably_connectors.Json.Tree.{Json, find_field}
use ably_connectors.Json.Encode.{
  fitting, escape_from, close_text, channel_head, encode_action_channel, publish_tree,
  encode_publish_json,
}
use ably_connectors.Json.Decode.{
  decode_json, decode_frame, decode_message, json_str, json_int64, action_of,
}
use ably_connectors.Channel.Listeners.{strcmp_eq}
use ably_connectors.Rest.Text.{decimal, decimal_from}
use ably_connectors.Json.Escape.{escape, read_string, encode_action_channel-escape}
use ably_connectors.Json.RoundTrip.{frame_with, message_with, encode_publish_json-decode_json}
use ably_connectors.Json.Bounds.{IsBounded, decode_json-IsBounded}

-- A channel with a quote in its name, as it goes into a DETACH frame.
quoted_name :
    encode_action_channel 288 12 (34 ∷ [])
    ≡ some (codes "{\"action\":12,\"channel\":\"" ++ (92 ∷ 34 ∷ codes "\"}"))
unfolding encode_action_channel escape_from close_text decimal decimal_from
quoted_name = refl

encode_action_channel-escape_example :
    (encode_action_channel 288 12 (34 ∷ [])
      ≡ fitting 288 (channel_head 12 ++ (escape (34 ∷ []) ++ codes "\"}")))
    × (read_string (escape (34 ∷ []) ++ codes "\"}") ≡ some (34 ∷ [], codes "}"))
encode_action_channel-escape_example = encode_action_channel-escape 288 12 (34 ∷ [])

-- A printer and a parser that know one tree.
abbrev hello_tree : Json
hello_tree = publish_tree (codes "room") (some (codes "n")) (some (codes "hello")) none none 7

abbrev print_hello : Json → Option (List ℕ)
print_hello tree = some (codes "hello frame")

abbrev parse_hello : List ℕ → Option Json
parse_hello text = some hello_tree

encode_publish_json-decode_json_example :
    (encode_publish_json print_hello 33408
        (codes "room")
        (some (codes "n"))
        (some (codes "hello"))
        none
        none
        7
      ≡ some (codes "hello frame"))
    × (decode_json 32 parse_hello (codes "hello frame")
        ≡ some (
            frame_with message_action
              (codes "room")
              (message_with (some (codes "n")) (some (codes "hello")) none none ∷ [])
              []))
encode_publish_json-decode_json_example =
    encode_publish_json-decode_json print_hello parse_hello 33408 (codes "room") (some (codes "n"))
      (some (codes "hello")) none none 7 (codes "hello frame") refl refl (omega arith)

hello_decoded :
    decode_json 32 parse_hello (codes "hello frame")
    ≡ some (
        frame_with message_action
          (codes "room")
          (message_with (some (codes "n")) (some (codes "hello")) none none ∷ [])
          [])
unfolding decode_json decode_frame publish_tree decode_message json_str json_int64 find_field
    action_of strcmp_eq
hello_decoded = refl

decode_json-IsBounded_example : IsBounded (
    frame_with message_action
      (codes "room")
      (message_with (some (codes "n")) (some (codes "hello")) none none ∷ [])
      [])
decode_json-IsBounded_example =
    decode_json-IsBounded parse_hello (codes "hello frame")
      (frame_with message_action (codes "room")
        (message_with (some (codes "n")) (some (codes "hello")) none none ∷ []) [])
      hello_decoded
