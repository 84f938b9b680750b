-- ===== src/Channel/JsonRuns.antt =====
-- A run of two messages that are published as JSON while the channel attaches: channel.c and
-- protocol_json.c of ably-c/src/realtime.
use ably_connectors.Prelude.{ℕ, refl, arith, Option, none, some, List, [], ◌∷◌}
use ably_connectors.Base64.{codes}
use ably_connectors.Types.{non_empty, or_empty}
use ably_connectors.Realtime.SendRing.{create_ring}
use ably_connectors.Realtime.SendQueue.{SendQueue, Holds, create_ring-Holds}
use ably_connectors.Channel.Flushing.{Queues}
use ably_connectors.Channel.Flushed.{published, entries, published-sent}
use ably_connectors.Channel.Listeners.{strcmp_eq}
use ably_connectors.Channel.Delivered.{IsPrinted, Delivers, published-Delivers}
use ably_connectors.Json.Tree.{Json, array, item, find_field, get_item}
use ably_connectors.Json.Encode.{publish_tree, encode_publish_json, json_codec}
use ably_connectors.Json.Decode.{json_str, json_int64}

-- A printer and a parser of MESSAGE frames of one channel, without a name: the serial and the data.
abbrev first_of : Option Json → Option Json
first_of (some (array (item j items))) = some j
first_of _ = none

abbrev data_of : Option Json → List ℕ
data_of none = []
data_of (some m) = or_empty (json_str m (codes "data"))

abbrev print_short : Json → Option (List ℕ)
print_short t =
    some (json_int64 t (codes "msgSerial") 0 ∷ data_of (first_of (get_item t (codes "messages"))))

abbrev parse_short : List ℕ → Option Json
parse_short [] = none
parse_short (serial ∷ text) =
    some (publish_tree (codes "room") none (non_empty text) none none serial)

abbrev greetings : List (Option (List ℕ) × Option (List ℕ))
greetings = (none, some (codes "a")) ∷ (none, some (codes "b")) ∷ []

greeting-IsPrinted :
    (c serial : ℕ) → IsPrinted print_short parse_short (codes "room") [] ([], c ∷ []) serial
unfolding publish_tree json_int64 json_str find_field strcmp_eq
greeting-IsPrinted c serial = record {
  text = serial ∷ c ∷ [];
  prints = refl;
  parses = refl;
  fits = omega arith;
}

published-Delivers_example :
    (Queues (published (json_codec print_short) (codes "room") [] create_ring greetings).0 [])
    × ((q' : SendQueue) × Holds
          (published (json_codec print_short) (codes "room") [] create_ring greetings).1
          q'
        × Delivers print_short parse_short
            (codes "room")
            []
            (record { frames = []; serial = 0 })
            (entries (json_codec print_short) (codes "room") [] greetings)
            q')
published-Delivers_example =
    published-Delivers print_short parse_short (codes "room") [] greetings create_ring
      (record { frames = []; serial = 0 }) create_ring-Holds (omega arith)
      (greeting-IsPrinted 97 0, (greeting-IsPrinted 98 1, tt)) (omega arith)

published-sent_example :
    (Queues (published (json_codec print_short) (codes "room") [] create_ring greetings).0 [])
    × Holds
        (published (json_codec print_short) (codes "room") [] create_ring greetings).1
        (record { frames = (0 ∷ codes "a") ∷ (1 ∷ codes "b") ∷ []; serial = 2 })
unfolding json_codec encode_publish_json publish_tree json_int64 json_str find_field strcmp_eq
published-sent_example =
    published-sent (json_codec print_short) (codes "room") [] greetings create_ring
      (record { frames = []; serial = 0 }) create_ring-Holds (omega arith)
      ((0 ∷ codes "a") ∷ (1 ∷ codes "b") ∷ []) (refl, (refl, tt)) (omega arith)
