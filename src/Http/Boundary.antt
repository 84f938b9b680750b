-- ===== src/Http/Boundary.antt =====
-- Where `parse_response_headers` of ably-c/src/http/http_client.c finds the body of a response.
use ably_connectors.Prelude.{
  ℕ, ◌+◌, ◌≤◌, ◌≡◌, refl, sym, ap, ◌∙◌, arith, Bool, true, false, Option, none, some, List, [], ◌∷◌,
  ◌++◌, length, length-append, take, drop, ltb, ◌==◌, if◌then◌else◌, inl, inr, Bool-cases,
}
use mathlib.Core.Path.{ap₂}
use ably_connectors.Base64.{codes}
use ably_connectors.Channel.Delta.{starts_with}
use ably_connectors.Http.Headers.{
  Head, memchr, blank_line, header_end, read_head, parse_response_headers,
}

-- The bytes stand at the front of `s`.
starts_with_sound : (word s : List ℕ) → starts_with word s ≡ true → s ≡ word ++ drop (length word) s
unfolding starts_with
starts_with_sound [] s h = refl
starts_with_sound (x ∷ word) [] h = absurd (cc h)
starts_with_sound (x ∷ word) (y ∷ s) h = elim (Bool-cases (x == y)) [
  | inl same ↦ ap₂ ◌∷◌ (ground (arith, same)) (
      starts_with_sound word s
        (sym (ap (λ (b : Bool). if b then starts_with word s else false) same) ∙ h))
  | inr differs ↦
      let fails : false ≡ true =
        sym (ap (λ (b : Bool). if b then starts_with word s else false) differs) ∙ h in
      absurd (cc fails)
]

header_end_sound :
    (buf : List ℕ) (i offset : ℕ)
    → header_end i buf ≡ some offset
    → (lines : List ℕ) × (body : List ℕ) × (buf ≡ lines ++ (blank_line ++ body))
      × (offset ≡ i + length lines + 4)
unfolding header_end
header_end_sound [] i offset h = absurd (cc h)
header_end_sound (c ∷ buf) i offset h = elim (Bool-cases (starts_with blank_line (c ∷ buf))) [
  | inl here ↦ (
    [],
    drop 4 (c ∷ buf),
    starts_with_sound blank_line (c ∷ buf) here,
    let found : some (i + 4) ≡ some offset =
          sym (ap (λ (b : Bool). if b then some (i + 4) else header_end (i + 1) buf) here) ∙ h in
        let at_ : i + 4 ≡ offset = cc found in omega (arith, at_),
  )
  | inr later ↦
      let next : header_end (i + 1) buf ≡ some offset =
        sym (ap (λ (b : Bool). if b then some (i + 4) else header_end (i + 1) buf) later) ∙ h in
      let (lines, body, e, off) = header_end_sound buf (i + 1) offset next in
      (c ∷ lines, body, ap (λ rest. c ∷ rest) e, omega (arith, off))
]

abbrev pub offset_of : Option (ℕ × Head) → Option ℕ
offset_of none = none
offset_of (some r) = some r.0

module _ (number : List ℕ → ℕ) (link_out_len : ℕ) (buf : List ℕ) where
  read_head-offset :
      (sp offset : Option ℕ) (body_start : ℕ) (h : Head)
      → read_head number link_out_len buf sp offset ≡ some (body_start, h)
      → offset ≡ some body_start
  read_head-offset none offset body_start h e = absurd (cc e)
  read_head-offset (some sp) none body_start h e = absurd (cc e)
  read_head-offset (some sp) (some offset) body_start h e = ap offset_of e

  -- Whatever the bytes: a response that is accepted has at least 12 bytes and starts with "HTTP/", its
  -- head ends in a blank line, and the body starts behind it and within the bytes read.
  pub parse_response_headers-boundary :
      (body_start : ℕ) (h : Head)
      → parse_response_headers number link_out_len buf ≡ some (body_start, h)
      → (12 ≤ length buf)
        × (starts_with (codes "HTTP/") buf ≡ true)
        × (lines : List ℕ) × (body : List ℕ) × (buf ≡ lines ++ (blank_line ++ body))
        × (body_start ≡ length lines + 4)
        × (body_start ≤ length buf)
  unfolding parse_response_headers
  parse_response_headers-boundary body_start h e =
      let head_ = read_head number link_out_len buf (memchr 32 (take 20 buf)) (header_end 0 buf) in
      let starts = starts_with (codes "HTTP/") buf in
      elim (Bool-cases (ltb (length buf) 12)) [
        | inl short ↦
            let refused : none ≡ some (body_start, h) =
              sym (ap (λ (b : Bool). if b then none else if starts then head_ else none) short)
              ∙ e in
            absurd (cc refused)
        | inr long ↦
            let accepted : (if starts then head_ else none) ≡ some (body_start, h) =
              sym (ap (λ (b : Bool). if b then none else if starts then head_ else none) long)
              ∙ e in
            elim (Bool-cases starts) [
              | inr other ↦
                  let refused : none ≡ some (body_start, h) =
                    sym (ap (λ (b : Bool). if b then head_ else none) other) ∙ accepted in
                  absurd (cc refused)
              | inl http ↦
                  let parsed : head_ ≡ some (body_start, h) =
                    sym (ap (λ (b : Bool). if b then head_ else none) http) ∙ accepted in
                  let (lines, body, split, off) = header_end_sound buf 0 body_start (
                    read_head-offset (memchr 32 (take 20 buf)) (header_end 0 buf) body_start h
                      parsed) in
                  let size : length buf ≡ length lines + length (blank_line ++ body) =
                    ap length split ∙ length-append lines (blank_line ++ body) in
                  (
                    ground (arith, long),
                    http,
                    lines,
                    body,
                    split,
                    omega (arith, off),
                    omega (arith, off, size),
                  )
            ]
      ]
