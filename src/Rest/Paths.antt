-- ===== src/Rest/Paths.antt =====
-- The request paths of ably-c/src/rest/rest_client.c. A path is `none` where the code writes behind
-- the array. A NULL text is taken for an empty one where the code tests both alike.
use ably_connectors.Prelude.{
  ℕ, Bool, false, Option, none, some, List, [], ◌∷◌, ◌++◌, length, take, ltb, ◌==◌, if◌then◌else◌,
}
use ably_connectors.Base64.{codes}
use ably_connectors.Rest.Text.{url_encode_channel, decimal, PathBuf, start_path, append_query}

-- `ably_rest_publish`, `ably_rest_publish_with_id` and `ably_rest_publish_batch`.
unfoldable pub publish_path : List ℕ → List ℕ
publish_path channel =
    take 511 (codes "/channels/" ++ url_encode_channel 256 channel ++ codes "/messages")

-- `ably_rest_channel_status`.
unfoldable pub status_path : List ℕ → List ℕ
status_path channel = take 511 (codes "/channels/" ++ url_encode_channel 768 channel)

-- `/keys/<keyName>/requestToken`.
unfoldable pub request_token_path : List ℕ → List ℕ
request_token_path key_name = take 511 (codes "/keys/" ++ key_name ++ codes "/requestToken")

-- A parameter of the query: whether the code's test asks for it, "key=", and the value.
abbrev pub Query : Type 0
Query = Bool × List ℕ × List ℕ

abbrev pub is_set : List ℕ → Bool
is_set s = ltb 0 (length s)

-- The calls of `snprintf` for the parameters, in order.
unfoldable pub append_all : ℕ → List Query → PathBuf → Option (List ℕ)
append_all size [] path = some path.text
append_all size ((present, key, value) ∷ queries) path =
    let skipped = append_all size queries path in
    if present
    then elim (append_query size (key ++ value) path) [
      | none ↦ none
      | some path' ↦ append_all size queries path'
    ]
    else skipped

-- A serial that is the path of a cursor is used as it is.
abbrev pub is_path : List ℕ → Bool
is_path [] = false
is_path (c ∷ s) = c == 47

-- `ably_rest_channel_history`. The encoded name has 766 bytes at most, so the result
-- ABLY_ERR_INTERNAL for a path that is too long does not occur.
abbrev pub history_base : List ℕ → List ℕ
history_base channel = codes "/channels/" ++ (url_encode_channel 768 channel ++ codes "/messages")

abbrev pub history_queries : ℕ → List ℕ → List ℕ → List Query
history_queries limit direction from_serial =
    (ltb 0 limit, codes "limit=", decimal limit)
    ∷ (is_set direction, codes "direction=", direction)
    ∷ (is_set from_serial, codes "fromSerial=", from_serial)
    ∷ []

unfoldable pub history_path : List ℕ → ℕ → List ℕ → List ℕ → Option (List ℕ)
history_path channel limit direction from_serial =
    if is_path from_serial
    then some (take 1023 from_serial)
    else append_all 1024 (history_queries limit direction from_serial)
        (start_path 1024 (history_base channel))

-- `ably_rest_stats`.
abbrev pub stats_queries : List ℕ → ℕ → ℕ → List ℕ → ℕ → List Query
stats_queries unit start_ms end_ms direction limit =
    (is_set unit, codes "unit=", unit)
    ∷ (ltb 0 start_ms, codes "start=", decimal start_ms)
    ∷ (ltb 0 end_ms, codes "end=", decimal end_ms)
    ∷ (is_set direction, codes "direction=", direction)
    ∷ (ltb 0 limit, codes "limit=", decimal limit)
    ∷ []

unfoldable pub stats_path : List ℕ → ℕ → ℕ → List ℕ → ℕ → Option (List ℕ)
stats_path unit start_ms end_ms direction limit =
    append_all 512 (stats_queries unit start_ms end_ms direction limit)
      (start_path 512 (codes "/stats"))

-- `ably_rest_channel_list`.
abbrev pub channel_list_queries : List ℕ → ℕ → List Query
channel_list_queries prefix limit =
    (is_set prefix, codes "prefix=", url_encode_channel 512 prefix)
    ∷ (ltb 0 limit, codes "limit=", decimal limit)
    ∷ []

unfoldable pub channel_list_path : List ℕ → ℕ → Option (List ℕ)
channel_list_path prefix limit =
    append_all 512 (channel_list_queries prefix limit) (start_path 512 (codes "/channels"))

-- `ably_rest_presence_get`.
abbrev pub presence_queries : ℕ → List ℕ → List Query
presence_queries limit client_id =
    (ltb 0 limit, codes "limit=", decimal limit)
    ∷ (is_set client_id, codes "clientId=", url_encode_channel 512 client_id)
    ∷ []

abbrev pub presence_base : List ℕ → List ℕ
presence_base channel = codes "/channels/" ++ (url_encode_channel 768 channel ++ codes "/presence")

unfoldable pub presence_path : List ℕ → ℕ → List ℕ → Option (List ℕ)
presence_path channel limit client_id =
    append_all 1024 (presence_queries limit client_id) (start_path 1024 (presence_base channel))
