-- ===== src/Msgpack/Encode.antt =====
-- The encoders of ably-c/src/realtime/protocol_msgpack.c and `encode_presence_msgpack` of presence.c.
-- mpack's writer is the parameter `write`: the bytes of a tree, or nothing where they do not fit into
-- a buffer of the given size.
use ably_connectors.Prelude.{ℕ, Option, List, if◌then◌else◌}
use ably_connectors.Base64.{codes}
use ably_connectors.Types.{AttachParams, Codec}
use ably_connectors.Realtime.Presence.{PresenceAction}
use ably_connectors.Json.Tree.{Json, number, string, object, field, end}
use ably_connectors.Json.Encode.{attach_tree, publish_tree, presence_tree, has_params, publish_room}

module _ (write : ℕ → Json → Option (List ℕ)) where
  unfoldable pub encode_simple : ℕ → ℕ → Option (List ℕ)
  encode_simple len action = write len (object (field (codes "action") (number action) end))

  unfoldable pub encode_with_channel : ℕ → ℕ → List ℕ → Option (List ℕ)
  encode_with_channel len action channel = write len (
      object
        (field (codes "action") (number action) (field (codes "channel") (string channel) end)))

  unfoldable pub encode_attach_msgpack : ℕ → List ℕ → AttachParams → Option (List ℕ)
  encode_attach_msgpack len channel params =
      if has_params params
      then write len (attach_tree channel params)
      else encode_with_channel len 10 channel

  unfoldable pub encode_publish_msgpack :
      (len : ℕ) (channel : List ℕ) (name msg_data client_id msg_id : Option (List ℕ))
      (msg_serial : ℕ)
      → Option (List ℕ)
  encode_publish_msgpack len channel name msg_data client_id msg_id msg_serial =
      write len (publish_tree channel name msg_data client_id msg_id msg_serial)

  unfoldable pub encode_presence_msgpack :
      ℕ → List ℕ → PresenceAction → List ℕ → Option (List ℕ) → Option (List ℕ)
  encode_presence_msgpack len channel action client_id own_data =
      write len (presence_tree channel action client_id own_data)

  -- The encoders with the buffers of their callers.
  unfoldable pub msgpack_codec : Codec
  msgpack_codec = record {
    encode_publish = λ channel name msg_data client_id id serial.
        encode_publish_msgpack (publish_room id) channel name msg_data client_id id serial;
    encode_attach = encode_attach_msgpack 512;
    encode_detach = encode_with_channel 288 12;
    encode_presence = encode_presence_msgpack 33408;
    encode_heartbeat = encode_simple 32 0;
    encode_close = encode_simple 32 7;
  }
