-- ===== src/Http/Headers.antt =====
-- `hdr_name_matches` and `parse_response_headers` of ably-c/src/http/http_client.c on the list of the
-- bytes read so far. `strtol` and `strtoul` in base 10 are the parameter `number`, a function of the
-- bytes from their argument on.
use ably_connectors.Prelude.{
  ℕ, zero, suc, ◌+◌, ◌-◌, Bool, true, false, ◌&&◌, ◌||◌, Option, none, some, List, [], ◌∷◌, length,
  take, drop, ltb, leb, ◌==◌, if◌then◌else◌,
}
use ably_connectors.Base64.{codes}
use ably_connectors.Channel.Delta.{starts_with}

-- What the caller is told of the head of a response.
pub record Head : Type 0 where
  pub status : ℕ
  pub content_length : ℕ
  pub link : List ℕ

abbrev pub lower : ℕ → ℕ
lower c = if leb 65 c && leb c 90 then (c - 65) + 97 else c

-- The comparison over the bytes of `ref`; a name that is longer matches too.
unfoldable pub hdr_name_matches : List ℕ → List ℕ → Bool
hdr_name_matches s [] = true
hdr_name_matches [] (r ∷ ref) = false
hdr_name_matches (c ∷ s) (r ∷ ref) =
    let rest = hdr_name_matches s ref in if lower c == r then rest else false

abbrev pub one_later : Option ℕ → Option ℕ
one_later none = none
one_later (some k) = some (suc k)

-- `memchr`: the index of the first byte `c`.
unfoldable pub memchr : ℕ → List ℕ → Option ℕ
memchr c [] = none
memchr c (x ∷ s) = let later = one_later (memchr c s) in if x == c then some 0 else later

abbrev pub blank_line : List ℕ
blank_line = 13 ∷ 10 ∷ 13 ∷ 10 ∷ []

-- "Find end of headers", from index `i` on.
unfoldable pub header_end : ℕ → List ℕ → Option ℕ
header_end i [] = none
header_end i (c ∷ buf) =
    let later = header_end (i + 1) buf in
    if starts_with blank_line (c ∷ buf) then some (i + 4) else later

-- "Skip leading whitespace in value."
unfoldable pub skip_blanks : List ℕ → List ℕ
skip_blanks [] = []
skip_blanks (c ∷ val) = let rest = skip_blanks val in if c == 32 || c == 9 then rest else c ∷ val

module _ (number : List ℕ → ℕ) (link_out_len : ℕ) where
  -- One header line with its name, its value, and the bytes from the value on.
  abbrev pub read_header : Head → List ℕ → List ℕ → List ℕ → Head
  read_header h name val from_val =
      if hdr_name_matches name (codes "content-length")
      then record h { content_length = number from_val }
      else if ltb 0 link_out_len && hdr_name_matches name (codes "link")
      then record h { link = take (link_out_len - 1) val }
      else h

  module _ (buf : List ℕ) (hdr_end : ℕ) where
    -- The line of `k` bytes at index `p`, whose first colon is given.
    abbrev pub read_line : Head → ℕ → ℕ → Option ℕ → Head
    read_line h p k none = h
    read_line h p k (some colon) =
        let val = skip_blanks (take (k - (colon + 1)) (drop (p + (colon + 1)) buf)) in
        read_header h (take colon (drop p buf)) val (drop (p + (k - length val)) buf)

    -- "Walk header lines" from index `p` on, with `fuel` lines at most.
    unfoldable pub walk_lines : ℕ → ℕ → Head → Head
    walk_lines zero p h = h
    walk_lines (suc fuel) p h = elim (memchr 13 (take (hdr_end - p) (drop p buf))) [
      | none ↦ h
      | some k ↦ walk_lines fuel (p + k + 2) (read_line h p k (memchr 58 (take k (drop p buf))))
    ]

  -- The status line, then the headers: "HTTP/", and a space among the first 20 bytes.
  abbrev pub read_head : List ℕ → Option ℕ → Option ℕ → Option (ℕ × Head)
  read_head buf none offset = none
  read_head buf (some sp) none = none
  read_head buf (some sp) (some offset) = some (
    offset,
    walk_lines buf offset offset 0
        (record { status = number (drop (sp + 1) buf); content_length = 0; link = [] }),
  )

  -- `none` is the result -1; else the offset of the body. Each line takes a byte of the head, so the
  -- length of the head is fuel enough; behind its end no byte is left to search.
  unfoldable pub parse_response_headers : List ℕ → Option (ℕ × Head)
  parse_response_headers buf =
      if ltb (length buf) 12
      then none
      else if starts_with (codes "HTTP/") buf
      then read_head buf (memchr 32 (take 20 buf)) (header_end 0 buf)
      else none
