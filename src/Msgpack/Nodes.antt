-- ===== src/Msgpack/Nodes.antt =====
-- Reading a MessagePack tree in ably-c/src/realtime/protocol_msgpack.c. The tree has the shape of a JSON
-- tree; mpack, which is vendored, is what its documentation says: a lookup in a node that is no map,
-- and reading an int from a node that has none, put the tree into an error state, in which every node
-- reads as nil. A map that has a key twice is left out.
use ably_connectors.Prelude.{
  ℕ, ◌+◌, ◌-◌, ◌^◌, Bool, true, Option, none, some, List, length, take, ltb, if◌then◌else◌,
}
use ably_connectors.Types.{or_empty}
use ably_connectors.Json.Tree.{Json, object, find_field, as_string, as_number, as_object, as_array}
use ably_connectors.Json.Decode.{or_number}

-- `string_pool_used` of the frame, and the error state of the tree.
pub record Reader : Type 0 where
  pub used : ℕ
  pub broken : Bool

abbrev pub string_pool_size : ℕ
string_pool_size = 4096

abbrev pub M : Type 0 → Type 0
M A = Reader → A × Reader

infixl 5 ◌>>=◌
unfoldable pub ◌>>=◌ : {A B : Type 0} → M A → (A → M B) → M B
◌>>=◌ m f r = let (a, r') = m r in f a r'

abbrev pub pure : {A : Type 0} → A → M A
pure a r = (a, r)

abbrev pub find_in : List ℕ → Json → M (Option Json)
find_in key (object fields) r = (find_field key fields, r)
find_in key _ r = (none, record r { broken = true })

-- `mpack_node_map_cstr_optional`.
unfoldable pub lookup : Json → List ℕ → M (Option Json)
lookup node key r = if r.broken then (none, r) else find_in key node r

unfoldable pub node_int64 : Json → List ℕ → ℕ → M ℕ
node_int64 node key default = do child ← lookup node key; pure (or_number default (as_number child))

-- A string goes into the pool where there is room for it and its NUL.
abbrev pub store_text : Option (List ℕ) → M (Option (List ℕ))
store_text none r = (none, r)
store_text (some s) r =
    if ltb (string_pool_size - r.used) (length s + 1)
    then (none, r)
    else (some s, record r { used = r.used + (length s + 1) })

unfoldable pub pool_str : Json → List ℕ → M (Option (List ℕ))
pool_str node key = do child ← lookup node key; store_text (as_string child)

-- Into an array of `size` bytes.
unfoldable pub node_str_copy : Json → List ℕ → ℕ → M (List ℕ)
node_str_copy node key size = do
  child ← lookup node key
  pure (take (size - 1) (or_empty (as_string child)))

abbrev pub int_or_break : Option ℕ → M ℕ
int_or_break none r = (0, record r { broken = true })
int_or_break (some n) r = if ltb n (2 ^ 31) then (n, r) else (0, record r { broken = true })

-- `mpack_node_int(mpack_node_map_cstr_optional(...))`; a value that is no `int` is an error, too.
unfoldable pub node_int : Json → List ℕ → M ℕ
node_int node key = do child ← lookup node key; int_or_break (as_number child)

-- A child that is a map, or an array.
unfoldable pub node_map : Json → List ℕ → M (Option Json)
node_map node key = do child ← lookup node key; pure (as_object child)

unfoldable pub node_array : Json → List ℕ → M (Option (List Json))
node_array node key = do child ← lookup node key; pure (as_array child)
