-- ===== src/Http/Runs.antt =====
-- Runs of `parse_response_headers` of ably-c/src/http/http_client.c.
use ably_connectors.Prelude.{
  ℕ, ◌+◌, ◌-◌, ◌*◌, ◌≡◌, ◌≤◌, refl, true, none, some, List, [], ◌∷◌, ◌++◌, take, arith, length, leb,
  ◌&&◌, if◌then◌else◌,
}
use ably_connectors.Base64.{codes}
use ably_connectors.Channel.Delta.{starts_with}
use ably_connectors.Http.Headers.{
  Head, memchr, blank_line, header_end, hdr_name_matches, skip_blanks, walk_lines,
  parse_response_headers,
}
use ably_connectors.Http.Exchange.{want_read, ended, bytes, read_response}
use ably_connectors.Http.Stream.{stream, is_sound, read_response-stream}
use ably_connectors.Http.Boundary.{parse_response_headers-boundary}

-- A number in base 10, as `strtol` reads one where it starts with a digit.
digits_from : ℕ → List ℕ → ℕ
digits_from n [] = n
digits_from n (c ∷ s) =
    let rest = digits_from (n * 10 + (c - 48)) s in if leb 48 c && leb c 57 then rest else n

abbrev crlf : List ℕ
crlf = 13 ∷ 10 ∷ []

abbrev response : List ℕ
response =
    codes "HTTP/1.1 200 OK"
    ++ crlf
    ++ (codes "CONTENT-length:  2" ++ crlf)
    ++ (codes "Link: <a>" ++ blank_line)
    ++ codes "[]"

abbrev head_read : Head
head_read = record { status = 200; content_length = 2; link = codes "<a>" }

response_parsed : parse_response_headers (digits_from 0) 512 response ≡ some (50, head_read)
unfolding parse_response_headers walk_lines hdr_name_matches header_end memchr skip_blanks
    starts_with digits_from
response_parsed = refl

-- The link header is cut to the room of the caller's buffer.
link_cut :
    parse_response_headers (digits_from 0) 3 response
    ≡ some (50, record head_read { link = codes "<a" })
unfolding parse_response_headers walk_lines hdr_name_matches header_end memchr skip_blanks
    starts_with digits_from
link_cut = refl

-- A name that only starts with "link" counts as the header, too.
longer_name : hdr_name_matches (codes "Link-Template") (codes "link") ≡ true
unfolding hdr_name_matches
longer_name = refl

-- Without a blank line there is no response yet.
unfinished : parse_response_headers (digits_from 0) 512 (codes "HTTP/1.1 200 OK") ≡ none
unfolding parse_response_headers walk_lines hdr_name_matches header_end memchr skip_blanks
    starts_with digits_from
unfinished = refl

parse_response_headers-boundary_example :
    (12 ≤ length response)
    × (starts_with (codes "HTTP/") response ≡ true)
    × (lines : List ℕ) × (body : List ℕ) × (response ≡ lines ++ (blank_line ++ body))
    × (50 ≡ length lines + 4)
    × (50 ≤ length response)
parse_response_headers-boundary_example =
    parse_response_headers-boundary (digits_from 0) 512 response 50 head_read response_parsed

sound_reads : is_sound (bytes (codes "HT") ∷ want_read ∷ bytes (codes "TP/") ∷ ended ∷ []) ≡ true
unfolding is_sound
sound_reads = refl

-- The response in three pieces, with a wait between them.
read_response-stream_example :
    read_response 65536 [] (bytes (codes "HT") ∷ want_read ∷ bytes (codes "TP/") ∷ ended ∷ [])
    ≡ some (
        take
          (65536 - 1)
          ([] ++ stream (bytes (codes "HT") ∷ want_read ∷ bytes (codes "TP/") ∷ ended ∷ [])))
read_response-stream_example =
    read_response-stream 65536 []
      (bytes (codes "HT") ∷ want_read ∷ bytes (codes "TP/") ∷ ended ∷ []) (omega arith) sound_reads
