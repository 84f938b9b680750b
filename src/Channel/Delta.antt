-- ===== src/Channel/Delta.antt =====
-- The payload of a message, `ably_channel_on_frame` of ably-c/src/realtime/channel.c at
-- ABLY_ACTION_MESSAGE: base64, VCDIFF deltas, and the two buffers that hold the last payload.
-- A buffer is the list of its `delta_buf_len` bytes, or `none` where a delta that was dropped has
-- written over them: what it leaves there is not said. The payload is a C string for the subscribers.
use ably_connectors.Prelude.{
  ℕ, ◌-◌, Bool, true, false, Option, none, some, List, [], ◌∷◌, length, take, ltb, ◌==◌,
  if◌then◌else◌,
}
use ably_connectors.Base64.{codes, decode_max_len}
use ably_connectors.Base64
use ably_connectors.Types.{ProtoMessage, or_empty, c_string}
use ably_connectors.Vcdiff.Types.{Result, ok, err, undefined, stuck}
use ably_connectors.Vcdiff.Window
use ably_connectors.Channel.Listeners.{strcmp_eq}

abbrev pub max_message_data_len : ℕ
max_message_data_len = 32768

-- `delta_enabled`, `delta_bufs` with `delta_buf_len`, `delta_buf_idx` and `delta_last_id`.
pub record DeltaState : Type 0 where
  pub enabled : Bool
  pub buf0 : Option (List ℕ)
  pub buf1 : Option (List ℕ)
  pub buf_idx : Bool
  pub last_id : List ℕ

-- The buffer `delta_bufs[delta_buf_idx]`.
abbrev pub base : DeltaState → Option (List ℕ)
base d = if d.buf_idx then d.buf1 else d.buf0

-- The other buffer takes the payload and becomes the active one.
abbrev pub rebase : DeltaState → List ℕ → DeltaState
rebase d out =
    if d.buf_idx
    then record d { buf0 = some out; buf_idx = false }
    else record d { buf1 = some out; buf_idx = true }

-- The base64 scratch and the output of a delta that fails go into the other buffer.
abbrev pub spoil : DeltaState → DeltaState
spoil d = if d.buf_idx then record d { buf0 = none } else record d { buf1 = none }

-- `continue`, or the payload for the subscribers, or a run that C gives no meaning.
pub data Resolved : Type 0 where
  dropped : DeltaState → Resolved
  resolved : Option (List ℕ) → DeltaState → Resolved
  undefined_run : Resolved

-- `strstr(s, word) != NULL`.
unfoldable pub starts_with : List ℕ → List ℕ → Bool
starts_with [] s = true
starts_with (x ∷ word) [] = false
starts_with (x ∷ word) (y ∷ s) = let rest = starts_with word s in if x == y then rest else false

unfoldable pub contains : List ℕ → List ℕ → Bool
contains word [] = starts_with word []
contains word (y ∷ s) =
    let later = contains word s in if starts_with word (y ∷ s) then true else later

abbrev pub or_raw : List ℕ → Option (List ℕ) → List ℕ
or_raw raw none = raw
or_raw raw (some out) = c_string out

abbrev pub is_base64 : Option (List ℕ) → Bool
is_base64 none = false
is_base64 (some encoding) = contains (codes "base64") encoding

-- "If the message encoding is "base64", decode before dispatch."
abbrev pub decoded : Option (List ℕ) → Option (List ℕ) → Option (List ℕ) → Option (List ℕ)
decoded none encoding delta_format = none
decoded (some s) encoding (some format) = some s
decoded (some s) encoding none =
    if is_base64 encoding
    then some (or_raw s (Base64.decode (max_message_data_len - 1) s))
    else some s

abbrev pub is_vcdiff : Option (List ℕ) → Bool
is_vcdiff none = false
is_vcdiff (some format) = strcmp_eq format (codes "vcdiff")

abbrev pub patched : DeltaState → Result (List ℕ) → Resolved
patched d (ok out) = resolved (some (c_string out)) (rebase d out)
patched d (err e) = dropped (spoil d)
patched d undefined = undefined_run
patched d stuck = undefined_run

abbrev pub patch_from : DeltaState → List ℕ → Option (List ℕ) → Resolved
patch_from d raw none = undefined_run
patch_from d raw (some source) =
    patched d (Window.decode (max_message_data_len - 1) (some source) raw)

abbrev pub patch_raw : DeltaState → Option (List ℕ) → Resolved
patch_raw d none = dropped (spoil d)
patch_raw d (some raw) =
    if ltb max_message_data_len (length raw) then dropped (spoil d) else patch_from d raw (base d)

-- "Delta message: base64-decode the data, apply VCDIFF patch."
unfoldable pub patch : DeltaState → List ℕ → Resolved
patch d b64 =
    if ltb max_message_data_len (decode_max_len (length b64))
    then dropped d
    else patch_raw d (Base64.decode max_message_data_len b64)

abbrev pub note_id : DeltaState → Option (List ℕ) → DeltaState
note_id d none = d
note_id d (some id) = record d { last_id = take 127 id }

-- "Full (non-delta) message: store raw bytes as new base."
unfoldable pub replace : DeltaState → Option (List ℕ) → List ℕ → Resolved
replace d id s =
    resolved (some s) (note_id (if ltb (length s) max_message_data_len then rebase d s else d) id)

abbrev pub resolve_full : DeltaState → Option (List ℕ) → Option (List ℕ) → Resolved
resolve_full d id none = resolved none d
resolve_full d id (some s) = replace d id s

unfoldable pub resolve : DeltaState → ProtoMessage → Resolved
resolve d pm =
    if d.enabled
    then if is_vcdiff pm.delta_format
      then patch d (or_empty pm.msg_data)
      else resolve_full d pm.id pm.msg_data
    else resolved (decoded pm.msg_data pm.encoding pm.delta_format) d

-- "Reset delta decode state", of `ably_channel_on_disconnect`.
unfoldable pub forget : DeltaState → DeltaState
forget d = record d { buf0 = some []; buf1 = some []; buf_idx = false; last_id = [] }
