-- ===== src/Rest/Bounds.antt =====
-- The array `path` of ably-c/src/rest/rest_client.c: when a path is whole, and when it overflows.
use ably_connectors.Prelude.{
  ℕ, suc, ◌+◌, ◌-◌, ◌≤◌, ◌<◌, ◌≡◌, ◌↔◌, refl, ap, ◌∙◌, arith, append_assoc, append-nil, true, false,
  none, some, List, [], ◌∷◌, ◌++◌, length, length-append, take-length_le, ltb, if◌then◌else◌,
}
use ably_connectors.Rest.Text.{url_encode_channel_from, url_encode_channel, PathBuf, append_query}
use ably_connectors.Rest.Paths.{
  Query, append_all, is_path, history_base, history_queries, history_path, channel_list_path,
}

-- The query of a URL: the parameters that are present, the first behind '?', the others behind '&'.
unfoldable pub query : ℕ → List Query → List ℕ
query sep [] = []
query sep ((present, key, value) ∷ queries) =
    let later = sep ∷ (key ++ (value ++ query 38 queries)) in
    let skipped = query sep queries in if present then later else skipped

append_query-fits :
    (size : ℕ) (piece : List ℕ) (path : PathBuf)
    → path.n ≡ length path.text
    → path.n + suc (length piece) < size
    → append_query size piece path
      ≡ some (record {
        text = path.text ++ (path.sep ∷ piece);
        n = path.n + suc (length piece);
        sep = 38;
      })
unfolding append_query
append_query-fits size piece path exact room =
    let inside : ltb size path.n ≡ false = ground arith in
    let whole =
      take-length_le (size - 1) (path.text ++ (path.sep ∷ piece))
        (omega (arith, length-append path.text (path.sep ∷ piece))) in
    rw (inside, whole) refl

append_all-query :
    (size : ℕ) (queries : List Query) (path : PathBuf)
    → path.n ≡ length path.text
    → path.n + length (query path.sep queries) < size
    → append_all size queries path ≡ some (path.text ++ query path.sep queries)
unfolding append_all query
append_all-query size [] path exact room = rw append-nil refl
append_all-query size ((false, key, value) ∷ queries) path exact room =
    append_all-query size queries path exact room
append_all-query size ((true, key, value) ∷ queries) path exact room =
    let piece = key ++ value in
    let all = length-append key (value ++ query 38 queries) in
    let rest = length-append value (query 38 queries) in
    let here = length-append key value in
    let path' : PathBuf = record {
      text = path.text ++ (path.sep ∷ piece);
      n = path.n + suc (length piece);
      sep = 38;
    } in
    rw (append_query-fits size piece path exact (omega arith)) (
      append_all-query size queries path'
        (omega (arith, length-append path.text (path.sep ∷ piece))) (omega arith)
      ∙ ap some (
          append_assoc path.text (path.sep ∷ piece) (query 38 queries)
          ∙ ap (λ tail. path.text ++ (path.sep ∷ tail))
              (append_assoc key value (query 38 queries))))

-- A serial that is not the path of a cursor, and a path of less than 1024 bytes: the path of
-- `ably_rest_channel_history` is its start and the queries behind it, with nothing cut off.
pub history_path-query :
    (channel : List ℕ) (limit : ℕ) (direction from_serial : List ℕ)
    → is_path from_serial ≡ false
    → length (history_base channel)
        + length (query 63 (history_queries limit direction from_serial))
      < 1024
    → history_path channel limit direction from_serial
      ≡ some (history_base channel ++ query 63 (history_queries limit direction from_serial))
unfolding history_path
history_path-query channel limit direction from_serial serial room =
    let base = history_base channel in
    let queries = history_queries limit direction from_serial in
    let whole = take-length_le 1023 base (omega (arith, room)) in
    rw (serial, whole)
      (append_all-query 1024 queries (record { text = base; n = length base; sep = 63 }) refl room)

encoded_empty : url_encode_channel 512 [] ≡ []
unfolding url_encode_channel url_encode_channel_from
encoded_empty = refl

-- `ably_rest_channel_list` writes behind its array exactly when there is a limit and the encoded
-- prefix has at least 496 bytes.
pub channel_list_path-none :
    (prefix : List ℕ) (limit : ℕ)
    → (channel_list_path prefix limit ≡ none)
      ↔ ((0 < limit) × (496 ≤ length (url_encode_channel 512 prefix)))
unfolding channel_list_path append_all append_query
channel_list_path-none [] limit =
    (λ e. ground arith, λ h. absurd (omega (arith, ap length (encoded_empty), h)))
channel_list_path-none (c ∷ prefix) limit = (λ e. ground arith, λ h. ground arith)
