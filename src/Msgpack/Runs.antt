-- ===== src/Msgpack/Runs.antt =====
-- Runs of the model of ably-c/src/realtime/protocol_msgpack.c.
use ably_connectors.Prelude.{◌≡◌, refl, [], ◌∷◌, map}
use ably_connectors.Base64.{codes}
use ably_connectors.Channel.Listeners.{strcmp_eq}
use ably_connectors.Json.Tree.{Json, Fields, object, string, find_field, field, end}
use ably_connectors.Msgpack.Decode.{fresh, read_message, read_all}
use ably_connectors.Msgpack.Lost.{no_message, read_all-lost}

-- An occupancy message whose metrics have no count, and a message behind it.
abbrev bare_occupancy : Fields
bare_occupancy = field (codes "metrics") (object end) end

abbrev bare_extras : Fields
bare_extras = field (codes "occupancy") (object bare_occupancy) end

abbrev bare_metrics : Fields
bare_metrics = field (codes "extras") (object bare_extras) end

abbrev hello_message : Json
hello_message = object (field (codes "data") (string (codes "hello")) end)

read_all-lost_example :
    (read_all read_message (object bare_metrics ∷ hello_message ∷ []) fresh).0
    ≡ (read_message (object bare_metrics) fresh).0 ∷ map (λ j. no_message) (hello_message ∷ [])
unfolding find_field strcmp_eq
read_all-lost_example =
    read_all-lost bare_metrics bare_extras bare_occupancy end refl refl refl refl
      (hello_message ∷ []) fresh
