-- ===== src/Types.antt =====
-- The types that the parts of ably-c share: ably-c/include/ably/ably_types.h and
-- ably-c/src/realtime/protocol.h. A `const char *` that may be NULL is an option of its bytes, and a
-- character array the bytes before its NUL.
use ably_connectors.Prelude.{
  ℕ, ◌/◌, ◌%◌, ◌==◌, Bool, true, false, Option, none, some, List, [], ◌∷◌, if◌then◌else◌,
}
use ably_connectors.Realtime.Presence.{PresenceMessage, PresenceAction}

-- `ably_error_t`.
pub data AblyError : Type 0 where
  success no_mem invalid_arg auth network http protocol timeout bad_state thread capacity internal :
      AblyError

-- `ably_connection_state_t`.
pub data ConnectionState : Type 0 where
  initialized connecting connected disconnected suspended closing closed failed : ConnectionState

-- `ably_error_info_t`.
pub record ErrorInfo : Type 0 where
  pub ably_code : ℕ
  pub message : List ℕ

abbrev pub no_error : ErrorInfo
no_error = record { ably_code = 0; message = [] }

-- `ably_message_t`.
pub record Message : Type 0 where
  pub id : Option (List ℕ)
  pub name : Option (List ℕ)
  pub msg_data : Option (List ℕ)
  pub client_id : Option (List ℕ)
  pub timestamp : ℕ

-- `ably_action_t`; `unlisted_action` is a number that is none of its names.
pub data Action : Type 0 where
  heartbeat ack nack connected_action disconnect_action disconnected_action close_action
        closed_action error_action attach_action attached_action detach_action detached_action
        presence_action message_action sync_action auth_action unlisted_action :
      Action

-- `ably_proto_message_t`; of the occupancy metrics only whether they are present.
pub record ProtoMessage : Type 0 where
  pub id : Option (List ℕ)
  pub client_id : Option (List ℕ)
  pub name : Option (List ℕ)
  pub msg_data : Option (List ℕ)
  pub encoding : Option (List ℕ)
  pub timestamp : ℕ
  pub delta_format : Option (List ℕ)
  pub has_occupancy : Bool

-- `ably_proto_frame_t`: the fields that the client and its channels read.
pub record ProtoFrame : Type 0 where
  pub action : Action
  pub channel : Option (List ℕ)
  pub error_code : ℕ
  pub error_message : Option (List ℕ)
  pub flags : ℕ
  pub connection_id : Option (List ℕ)
  pub connection_key : Option (List ℕ)
  pub messages : List ProtoMessage
  pub channel_serial : List ℕ
  pub sync_serial : List ℕ
  pub presence_msgs : List PresenceMessage
  pub details_client_id : List ℕ
  pub connection_state_ttl : ℕ
  pub channel_modes : ℕ

abbrev pub flag_has_presence : ℕ
flag_has_presence = 1

abbrev pub flag_has_backlog : ℕ
flag_has_backlog = 2

abbrev pub flag_resumed : ℕ
flag_resumed = 4

-- `flags & flag` for a flag of one bit.
abbrev pub has_flag : ℕ → ℕ → Bool
has_flag flags flag = (flags / flag) % 2 == 1

-- `ably_attach_params_t`.
pub record AttachParams : Type 0 where
  pub delta : Bool
  pub rewind : ℕ
  pub occupancy : Bool
  pub channel_modes : ℕ
  pub channel_serial : Option (List ℕ)

-- `error_message ? error_message : ""`, copied into a buffer of 256 bytes.
abbrev pub or_empty : Option (List ℕ) → List ℕ
or_empty none = []
or_empty (some s) = s

abbrev pub is_empty : List ℕ → Bool
is_empty [] = true
is_empty (c ∷ s) = false

-- `s[0] ? s : NULL`.
-- A text in an array of bytes: what stands before the first NUL.
unfoldable pub c_string : List ℕ → List ℕ
c_string [] = []
c_string (c ∷ s) = let rest = c_string s in if c == 0 then [] else c ∷ rest

abbrev pub non_empty : List ℕ → Option (List ℕ)
non_empty [] = none
non_empty (c ∷ s) = some (c ∷ s)

-- The encoders of protocol.h in the encoding of the client. The result 0 is `none`.
pub record Codec : Type 0 where
  pub encode_publish :
      (channel : List ℕ) (name msg_data client_id id : Option (List ℕ)) (serial : ℕ)
      → Option (List ℕ)
  pub encode_attach : List ℕ → AttachParams → Option (List ℕ)
  pub encode_detach : List ℕ → Option (List ℕ)
  pub encode_presence : List ℕ → PresenceAction → List ℕ → Option (List ℕ) → Option (List ℕ)
  pub encode_heartbeat : Option (List ℕ)
  pub encode_close : Option (List ℕ)
