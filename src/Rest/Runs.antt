-- ===== src/Rest/Runs.antt =====
-- Runs of the model of ably-c/src/rest/rest_client.c.
use ably_connectors.Prelude.{
  ◌≤◌, ◌<◌, ◌≡◌, ◌↔◌, refl, none, some, [], ◌∷◌, ◌++◌, arith, replicate, length, ltb, if◌then◌else◌,
}
use ably_connectors.Base64.{codes}
use ably_connectors.Channel.Delta.{starts_with}
use ably_connectors.Client.Url.{is_unreserved}
use ably_connectors.Http.Headers.{memchr}
use ably_connectors.Rest.Text.{
  url_encode_channel_from, url_encode_channel, decimal_from, decimal, append_query,
}
use ably_connectors.Rest.Paths.{
  append_all, publish_path, history_path, stats_path, channel_list_path,
}
use ably_connectors.Rest.Cursor.{strstr, quoted_next, next_cursor}
use ably_connectors.Rest.Bounds.{channel_list_path-none}
use ably_connectors.Client.UrlCoding.{url_decode}
use ably_connectors.Rest.Names.{
  encoded_size, publish_path-cut, history_request, history_path-request,
}
use ably_connectors.Rest.Links.{url, next_cursor-first}
use ably_connectors.Rest.Token.{nonce, nonce_from, split_key}

history_query :
    history_path (codes "a b") 10 (codes "forwards") (codes "s:1")
    ≡ some (codes "/channels/a%20b/messages?limit=10&direction=forwards&fromSerial=s:1")
unfolding history_path url_encode_channel url_encode_channel_from decimal decimal_from append_all
    append_query is_unreserved
history_query = refl

stats_query : stats_path (codes "hour") 0 15 [] 3 ≡ some (codes "/stats?unit=hour&end=15&limit=3")
unfolding stats_path decimal decimal_from append_all append_query
stats_query = refl

key_halves : split_key (codes "app.key:secret") ≡ some (codes "app.key", codes "secret")
unfolding split_key memchr
key_halves = refl

nonce_size : length (nonce 1700000000000) ≡ 32
unfolding nonce nonce_from
nonce_size = refl

short_request :
    length
      (history_request (url_encode_channel 768 (codes "room")) 100 (codes "forwards") (codes "s1"))
    < 1024
unfolding decimal decimal_from url_encode_channel url_encode_channel_from is_unreserved
short_request = omega arith

history_path-request_example :
    (history_path (codes "room") 100 (codes "forwards") (codes "s1")
      ≡ some (
          history_request
            (url_encode_channel 768 (codes "room"))
            100
            (codes "forwards")
            (codes "s1")))
    × (url_decode (url_encode_channel 768 (codes "room")) ≡ codes "room")
history_path-request_example =
    history_path-request (codes "room") 100 102 (codes "orwards") 115 (codes "1") (omega arith)
      (omega arith) (omega arith) (omega arith) short_request

channel_list_path-none_example :
    (channel_list_path (replicate 170 32) 5 ≡ none)
    ↔ ((0 < 5) × (496 ≤ length (url_encode_channel 512 (replicate 170 32))))
channel_list_path-none_example = channel_list_path-none (replicate 170 32) 5

full_name : 252 ≤ encoded_size (replicate 84 32)
unfolding encoded_size is_unreserved
full_name = omega arith

publish_path-cut_example :
    publish_path (replicate 84 32 ++ codes "one") ≡ publish_path (replicate 84 32 ++ codes "two")
publish_path-cut_example = publish_path-cut (replicate 84 32) (codes "one") (codes "two") full_name

found_next : strstr quoted_next (codes "; " ++ quoted_next) ≡ some 2
unfolding strstr starts_with
found_next = refl

next_cursor-first_example :
    next_cursor (60 ∷ (url (codes "h") (codes "p?a=1") ++ (62 ∷ (codes "; " ++ quoted_next))))
    ≡ (if ltb 6 255 then 47 ∷ codes "p?a=1" else [])
next_cursor-first_example =
    next_cursor-first (codes "h") (codes "p?a=1") (codes "; " ++ quoted_next) 2
      (omega arith, omega arith, omega arith) (omega arith, omega arith) found_next
