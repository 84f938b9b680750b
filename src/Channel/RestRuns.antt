-- ===== src/Channel/RestRuns.antt =====
-- A run of gap recovery over the REST client: ably-c/src/realtime/realtime_client.c with
-- ably-c/src/rest/rest_client.c.
use ably_connectors.Prelude.{
  ℕ, ◌≡◌, refl, arith, Option, some, none, List, [], ◌∷◌, ◌++◌, take, map, if◌then◌else◌,
}
use ably_connectors.Base64.{codes}
use ably_connectors.Channel.Delta.{starts_with}
use ably_connectors.Channel.Site.{channel_create}
use ably_connectors.Channel.Receive.{deliver_all, rt_recover_gap}
use ably_connectors.Channel.Recovery.{all_items}
use ably_connectors.Channel.Runs.{quiet, room_site}
use ably_connectors.Json.Tree.{Json, array, object, string, Items, nil, item, field, end}
use ably_connectors.Http.Headers.{
  memchr, header_end, hdr_name_matches, skip_blanks, walk_lines, parse_response_headers,
}
use ably_connectors.Http.Exchange.{
  Read, bytes, crlf, read_response, request_head, get_headers, http_get,
}
use ably_connectors.Client.Url.{is_unreserved}
use ably_connectors.Rest.Text.{
  url_encode_channel_from, url_encode_channel, decimal_from, decimal, append_query,
}
use ably_connectors.Rest.Paths.{append_all, history_path}
use ably_connectors.Rest.Recovery.{
  ServedPage, next_link, fetch_history, IsAnswered, as_page, rt_recover_gap-rest,
}

abbrev one_item : Items
one_item = item (object (field (codes "data") (string (codes "hello")) end)) nil

abbrev more_link : List ℕ
more_link = next_link (codes "h") (codes "p2")

abbrev first_page : ServedPage
first_page = record { items = one_item; link = more_link }

abbrev last_page : ServedPage
last_page = record { items = one_item; link = [] }

abbrev head_line : List ℕ
head_line = codes "HTTP/1.1 200 OK" ++ crlf

-- The page behind "/p2" is the last one; every other request gets the first page.
abbrev server : List ℕ → Option (List Read)
server request =
    if starts_with (codes "GET /p2 ") request
    then some (bytes (head_line ++ (crlf ++ codes "[]")) ∷ [])
    else some (
        bytes (head_line ++ (codes "Link: " ++ (more_link ++ (crlf ++ (crlf ++ codes "[]"))))) ∷ [])

abbrev always_200 : List ℕ → ℕ
always_200 s = 200

abbrev print_none : Json → Option (List ℕ)
print_none tree = none

abbrev parse_items : List ℕ → Option Json
parse_items text = some (array one_item)

abbrev first_path : List ℕ
first_path = codes "/channels/room/messages?limit=100&direction=forwards&fromSerial=s1"

first_asked : history_path (codes "room") 100 (codes "forwards") (codes "s1") ≡ some first_path
unfolding history_path append_all append_query url_encode_channel url_encode_channel_from
    is_unreserved decimal decimal_from
first_asked = refl

first-IsAnswered :
    IsAnswered always_200 server
      (codes "rest")
      (codes "Auth: k")
      print_none
      parse_items
      first_path
      first_page
unfolding http_get request_head get_headers read_response parse_response_headers walk_lines
    hdr_name_matches header_end memchr skip_blanks starts_with
first-IsAnswered = record {
  status = 200;
  body = codes "[]";
  reply = refl;
  accepted = refl;
  parsed = refl;
}

last-IsAnswered :
    IsAnswered always_200 server
      (codes "rest")
      (codes "Auth: k")
      print_none
      parse_items
      (codes "/p2")
      last_page
unfolding http_get request_head get_headers read_response parse_response_headers walk_lines
    hdr_name_matches header_end memchr skip_blanks starts_with
last-IsAnswered = record {
  status = 200;
  body = codes "[]";
  reply = refl;
  accepted = refl;
  parsed = refl;
}

rt_recover_gap-rest_example :
    rt_recover_gap quiet
      (fetch_history always_200 server (codes "rest") (codes "Auth: k") print_none parse_items)
      room_site
    ≡ deliver_all quiet room_site (all_items (take 50 (map as_page (first_page ∷ last_page ∷ []))))
unfolding channel_create
rt_recover_gap-rest_example =
    rt_recover_gap-rest always_200 server (codes "rest") (codes "Auth: k") print_none parse_items
      quiet room_site first_path first_page (last_page ∷ []) refl first_asked
      (
        first-IsAnswered,
        codes "h",
        codes "p2",
        refl,
        (omega arith, omega arith, omega arith),
        (omega arith, omega arith),
        omega arith,
        (last-IsAnswered, refl),
      )
