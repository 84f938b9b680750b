-- ===== src/Rest/Cursor.antt =====
-- The cursor of the next page in ably-c/src/rest/rest_client.c: the same code stands at the end of
-- `ably_rest_channel_history`, `ably_rest_stats`, `ably_rest_request`, `ably_rest_channel_list` and
-- `ably_rest_presence_get`. A pointer into the Link header is an index.
use ably_connectors.Prelude.{
  ℕ, ◌+◌, ◌-◌, ◌&&◌, Option, none, some, List, [], ◌∷◌, ◌++◌, take, drop, ltb, if◌then◌else◌,
}
use ably_connectors.Base64.{codes}
use ably_connectors.Channel.Delta.{starts_with}
use ably_connectors.Http.Headers.{one_later, memchr}

-- The index of the first place where `word` stands; the words that are looked for are not empty.
unfoldable pub strstr : List ℕ → List ℕ → Option ℕ
strstr word [] = none
strstr word (c ∷ s) =
    let later = one_later (strstr word s) in if starts_with word (c ∷ s) then some 0 else later

abbrev pub quoted_next : List ℕ
quoted_next = codes "rel=" ++ (34 ∷ codes "next") ++ (34 ∷ [])

abbrev pub or_else : Option ℕ → Option ℕ → Option ℕ
or_else none other = other
or_else (some k) other = some k

unfoldable pub find_next : List ℕ → Option ℕ
find_next link = or_else (strstr quoted_next link) (strstr (codes "rel=next") link)

-- "Strip the scheme+host prefix": the search for '/' goes on behind the URL.
unfoldable pub path_start : List ℕ → ℕ → ℕ → ℕ
path_start link lt gt =
    if ltb 8 (gt - lt) && starts_with (codes "https://") (drop lt link)
    then elim (memchr 47 (drop (lt + 8) link)) [ none ↦ lt | some k ↦ lt + 8 + k ]
    else lt

-- The bytes between the two indices. Where the start lies behind the end, their difference wraps and
-- is no length of a cursor.
abbrev pub cut_cursor : List ℕ → ℕ → ℕ → List ℕ
cut_cursor link start gt =
    if ltb gt start
    then []
    else if ltb (gt - start) 255
    then take (gt - start) (drop start link)
    else []

-- The URL inside < ... >, with the index of '<' and the place of '>' behind it.
abbrev pub cursor_within : List ℕ → ℕ → ℕ → ℕ → List ℕ
cursor_within link rel_next lt gt =
    if ltb gt rel_next then cut_cursor link (path_start link (lt + 1) gt) gt else []

abbrev pub close_at : List ℕ → ℕ → ℕ → Option ℕ → List ℕ
close_at link rel_next lt none = []
close_at link rel_next lt (some gt) = cursor_within link rel_next lt (lt + gt)

abbrev pub open_at : List ℕ → ℕ → Option ℕ → List ℕ
open_at link rel_next none = []
open_at link rel_next (some lt) = close_at link rel_next lt (memchr 62 (drop lt link))

abbrev pub next_at : List ℕ → Option ℕ → List ℕ
next_at link none = []
next_at link (some rel_next) = open_at link rel_next (memchr 60 link)

unfoldable pub next_cursor : List ℕ → List ℕ
next_cursor link = next_at link (find_next link)
