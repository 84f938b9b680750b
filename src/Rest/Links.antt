-- ===== src/Rest/Links.antt =====
-- Which page the Link header leads to, ably-c/src/rest/rest_client.c.
use ably_connectors.Prelude.{
  ℕ, suc, ◌+◌, ◌-◌, ◌<◌, ◌≡◌, ◌≢◌, refl, sym, ap, ◌∙◌, arith, append_assoc, Bool, true, false, some,
  List, [], ◌∷◌, ◌++◌, length, length-append, All, All-append, take-append_self, drop-append_self,
  ltb, ◌==◌, if◌then◌else◌, inl, inr, Bool-cases,
}
use mathlib.Core.Path.{ap₂}
use ably_connectors.Base64.{codes}
use ably_connectors.Channel.Delta.{starts_with}
use ably_connectors.Http.Headers.{memchr}
use ably_connectors.Rest.Cursor.{
  strstr, quoted_next, find_next, path_start, cut_cursor, cursor_within, close_at, open_at, next_at,
  or_else, next_cursor,
}

memchr-append :
    (c : ℕ) (s t : List ℕ) → All (λ x. x ≢ c) s → memchr c (s ++ (c ∷ t)) ≡ some (length s)
unfolding memchr
memchr-append c [] t other = let same : (c == c) ≡ true = ground arith in rw same refl
memchr-append c (x ∷ s) t (differs, others) = elim (Bool-cases (x == c)) [
  | inl same ↦ absurd (differs (ground (arith, same)))
  | inr unlike ↦ rw (unlike, memchr-append c s t others) refl
]

-- A word that has no '>' and stands in front of a '>' has no quote if the bytes there have none.
starts_with-inside :
    (word s t : List ℕ)
    → All (λ x. x ≢ 62) word
    → All (λ x. x ≢ 34) s
    → starts_with word (s ++ (62 ∷ t)) ≡ true
    → All (λ x. x ≢ 34) word
unfolding starts_with
starts_with-inside [] s t closed quotes e = tt
starts_with-inside (w ∷ word) [] t closed quotes e = absurd (closed.0 (ground arith))
starts_with-inside (w ∷ word) (c ∷ s) t closed quotes e = elim (Bool-cases (w == c)) [
  | inl same ↦
      let here : w ≡ c = ground (arith, same) in
      let rest : starts_with word (s ++ (62 ∷ t)) ≡ true =
        sym (ap (λ (b : Bool). if b then starts_with word (s ++ (62 ∷ t)) else false) same) ∙ e in
      (λ bad. quotes.0 (sym here ∙ bad), starts_with-inside word s t closed.1 quotes.1 rest)
  | inr unlike ↦
      let fails : false ≡ true =
        sym (ap (λ (b : Bool). if b then starts_with word (s ++ (62 ∷ t)) else false) unlike) ∙ e in
      absurd (cc fails)
]

quoted_next-closed : All (λ x. x ≢ 62) quoted_next
quoted_next-closed = omega arith

not_inside : (s t : List ℕ) → All (λ x. x ≢ 34) s → starts_with quoted_next (s ++ (62 ∷ t)) ≡ false
not_inside s t quotes = elim (Bool-cases (starts_with quoted_next (s ++ (62 ∷ t)))) [
  | inr outside ↦ outside
  | inl inside ↦
      absurd ((starts_with-inside quoted_next s t quoted_next-closed quotes inside).1.1.1.1.0 refl)
]

strstr-append :
    (s t : List ℕ) (r : ℕ)
    → All (λ x. x ≢ 34) s
    → strstr quoted_next t ≡ some r
    → strstr quoted_next (s ++ (62 ∷ t)) ≡ some (length s + suc r)
unfolding strstr
strstr-append [] t r quotes found = rw (not_inside [] t tt, found) (ap some (omega arith))
strstr-append (c ∷ s) t r quotes found =
    rw (not_inside (c ∷ s) t quotes, strstr-append s t r quotes.1 found) (ap some (omega arith))

next_cursor-within :
    (link : List ℕ) (rel close : ℕ)
    → strstr quoted_next link ≡ some rel
    → memchr 60 link ≡ some 0
    → memchr 62 link ≡ some close
    → close < rel
    → next_cursor link ≡ cut_cursor link (path_start link 1 close) close
unfolding next_cursor find_next
next_cursor-within link rel close next opened closed before =
    let inside : ltb close rel ≡ true = ground arith in
    let start : 0 + close ≡ close = omega arith in
    ap (λ found. next_at link (or_else found (strstr (codes "rel=next") link))) next
    ∙ ap (open_at link rel) opened
    ∙ ap (close_at link rel 0) closed
    ∙ ap (cursor_within link rel 0) start
    ∙ ap (λ (b : Bool). if b then cut_cursor link (path_start link 1 close) close else []) inside

-- The bytes that a cursor is cut from.
cut_cursor-append :
    (s cursor t : List ℕ)
    → cut_cursor (s ++ (cursor ++ t)) (length s) (length s + length cursor)
      ≡ (if ltb (length cursor) 255 then cursor else [])
cut_cursor-append s cursor t =
    let forward : ltb (length s + length cursor) (length s) ≡ false = ground arith in
    let size : length s + length cursor - length s ≡ length cursor = omega arith in
    rw (forward, size, drop-append_self s (cursor ++ t), take-append_self cursor t) refl

path_start-append :
    (host path rest : List ℕ) (gt : ℕ)
    → All (λ x. x ≢ 47) host
    → 9 < gt
    → path_start (60 ∷ (codes "https://" ++ (host ++ (47 ∷ (path ++ rest))))) 1 gt
      ≡ length (60 ∷ (codes "https://" ++ host))
unfolding path_start starts_with
path_start-append host path rest gt plain far =
    let long : ltb 8 (gt - 1) ≡ true = ground arith in
    rw (long, memchr-append 47 host (path ++ rest) plain) (omega arith)

first_byte : (s : List ℕ) → memchr 60 (60 ∷ s) ≡ some 0
unfolding memchr
first_byte s = refl

-- A host has no '/', '>' or quote, and the rest of a URL no '>' or quote.
abbrev pub IsHost : List ℕ → Type 0
IsHost host = All (λ x. x ≢ 47) host × All (λ x. x ≢ 62) host × All (λ x. x ≢ 34) host

abbrev pub IsUrlPath : List ℕ → Type 0
IsUrlPath path = All (λ x. x ≢ 62) path × All (λ x. x ≢ 34) path

abbrev pub url : List ℕ → List ℕ → List ℕ
url host path = codes "https://" ++ (host ++ (47 ∷ path))

-- A Link header that starts with a URL, and that says of this one or of a later one that it is the
-- next page: the cursor is the path of the first URL, or empty where the path has 255 bytes or more.
pub next_cursor-first :
    (host path rest : List ℕ) (r : ℕ)
    → IsHost host
    → IsUrlPath path
    → strstr quoted_next rest ≡ some r
    → next_cursor (60 ∷ (url host path ++ (62 ∷ rest)))
      ≡ (if ltb (suc (length path)) 255 then 47 ∷ path else [])
unfolding next_cursor find_next
next_cursor-first host path rest r (slashes, ends, quotes) (ends', quotes') found =
    let front = 60 ∷ (codes "https://" ++ host) in
    let cursor = 47 ∷ path in
    let link = front ++ (cursor ++ (62 ∷ rest)) in
    let gt = length front + length cursor in
    let target = 60 ∷ url host path in
    let split : target ++ (62 ∷ rest) ≡ link =
      ap (λ s. 60 ∷ (codes "https://" ++ s)) (append_assoc host cursor (62 ∷ rest)) in
    let size : length target ≡ gt = omega (arith, length-append host cursor) in
    let no_quote : All (λ x. x ≢ 34) target =
      All-append (λ x. x ≢ 34) (60 ∷ codes "https://") (host ++ cursor) (omega arith)
        (All-append (λ x. x ≢ 34) host cursor quotes (omega arith, quotes')) in
    let no_end : All (λ x. x ≢ 62) target =
      All-append (λ x. x ≢ 62) (60 ∷ codes "https://") (host ++ cursor) (omega arith)
        (All-append (λ x. x ≢ 62) host cursor ends (omega arith, ends')) in
    let rel = strstr-append target rest r no_quote found in
    let close = memchr-append 62 target rest no_end in
    next_cursor-within (target ++ (62 ∷ rest)) (length target + suc r) (length target) rel
      (first_byte (url host path ++ (62 ∷ rest))) close (omega arith)
    ∙ ap₂ (λ l g. cut_cursor l (path_start l 1 g) g) split size
    ∙ ap (λ start. cut_cursor link start gt)
        (path_start-append host path (62 ∷ rest) gt slashes (omega arith))
    ∙ cut_cursor-append front cursor (62 ∷ rest)
