-- ===== src/Client/UrlCoding.antt =====
-- `url_encode` of ably-c/src/realtime/realtime_client.c against the percent-decoding of RFC 3986.
use ably_connectors.Prelude.{
  ℕ, ◌+◌, ◌-◌, ◌*◌, ◌/◌, ◌%◌, ◌≤◌, ◌<◌, ◌≡◌, refl, sym, ap, ◌∙◌, arith, true, false, List, [], ◌∷◌,
  length, All, get_or, ltb, leb, ◌==◌, if◌then◌else◌, inl, inr, Bool-cases,
}
use mathlib.Core.Path.{ap₂}
use ably_connectors.Prelude.Tables.{holds_below, holds_below_sound}
use ably_connectors.Client.Url.{hex, is_unreserved, url_encode_from, url_encode}

abbrev pub unhex : ℕ → ℕ
unhex c = if leb c 57 then c - 48 else c - 55

unfoldable pub url_decode : List ℕ → List ℕ
url_decode [] = []
url_decode (c ∷ []) = c ∷ []
url_decode (c ∷ h ∷ []) = c ∷ h ∷ []
url_decode (c ∷ h ∷ l ∷ rest) =
    let escaped = (unhex h * 16 + unhex l) ∷ url_decode rest in
    let plain = c ∷ url_decode (h ∷ l ∷ rest) in if c == 37 then escaped else plain

url_decode_plain :
    (c : ℕ) (rest : List ℕ) → (c == 37) ≡ false → url_decode (c ∷ rest) ≡ c ∷ url_decode rest
unfolding url_decode
url_decode_plain c [] e = refl
url_decode_plain c (h ∷ []) e = refl
url_decode_plain c (h ∷ l ∷ rest) e = rw e refl

url_decode_escaped :
    (h l : ℕ) (rest : List ℕ)
    → url_decode (37 ∷ h ∷ l ∷ rest) ≡ (unhex h * 16 + unhex l) ∷ url_decode rest
unfolding url_decode
url_decode_escaped h l rest = refl

unreserved_plain : (c : ℕ) → is_unreserved c ≡ true → (c == 37) ≡ false
unfolding is_unreserved
unreserved_plain c h = elim (Bool-cases (c == 37)) [
  | inr other ↦ other
  | inl percent ↦
      let same : c ≡ 37 = ground (arith, percent) in
      let reserved : true ≡ false = sym h ∙ ap is_unreserved same in absurd (cc reserved)
]

hex_table : holds_below 16 (λ n. unhex (get_or hex n 0) == n) ≡ true
unfolding holds_below
hex_table = refl

unhex-hex : (n : ℕ) → n < 16 → unhex (get_or hex n 0) ≡ n
unhex-hex n h =
    let sound = holds_below_sound 16 (λ i. unhex (get_or hex i 0) == i) n hex_table h in
    ground (arith, sound)

abbrev pub IsByte : ℕ → Type 0
IsByte c = c < 256

-- A buffer with room for three bytes for each: the text comes back.
pub url_encode_from-url_decode :
    (input : List ℕ) (out_len j : ℕ)
    → All IsByte input
    → j + 3 * length input < out_len
    → url_decode (url_encode_from out_len j input) ≡ input
unfolding url_encode_from
url_encode_from-url_decode [] out_len j bytes room = unfold url_decode in refl
url_encode_from-url_decode (c ∷ input) out_len j bytes room =
    let fits : ltb (j + 3) out_len ≡ true = ground (arith, room) in
    elim (Bool-cases (is_unreserved c)) [
      | inl plain ↦
          rw (fits, plain)
            (url_decode_plain c _ (unreserved_plain c plain)
              ∙ ap (λ rest. c ∷ rest)
                  (url_encode_from-url_decode input out_len (j + 1) bytes.1 (omega (arith, room))))
      | inr other ↦
          rw (fits, other)
            (url_decode_escaped _ _ _
              ∙ ap₂ ◌∷◌
                  (ap₂ (λ (h l : ℕ). h * 16 + l) (unhex-hex (c / 16) (omega (arith, bytes)))
                      (unhex-hex (c % 16) (omega arith))
                    ∙ omega arith)
                  (url_encode_from-url_decode input out_len (j + 3) bytes.1 (omega (arith, room))))
    ]

-- A client id of at most 255 bytes, none of them left out: percent-decoding what `url_encode` writes
-- into the buffer of 768 bytes gives the client id back.
pub url_encode-url_decode :
    (input : List ℕ)
    → All IsByte input
    → length input ≤ 255
    → url_decode (url_encode 768 input) ≡ input
unfolding url_encode
url_encode-url_decode input bytes short =
    url_encode_from-url_decode input 768 0 bytes (omega (arith, short))

length-url_encode_from :
    (input : List ℕ) (out_len j : ℕ)
    → j < out_len
    → j + length (url_encode_from out_len j input) < out_len
unfolding url_encode_from
length-url_encode_from [] out_len j h = omega (arith, h)
length-url_encode_from (c ∷ input) out_len j h = elim (Bool-cases (ltb (j + 3) out_len)) [
  | inr full ↦ rw full (omega (arith, h))
  | inl fits ↦
      let room : j + 3 < out_len = ground (arith, fits) in
      elim (Bool-cases (is_unreserved c)) [
        | inl plain ↦
            rw (fits, plain)
              (omega (arith, length-url_encode_from input out_len (j + 1) (omega (arith, room))))
        | inr other ↦
            rw (fits, other) (omega (arith, length-url_encode_from input out_len (j + 3) room))
      ]
]

-- Whatever the text and the buffer of at least one byte: what is written leaves room for the NUL.
pub length-url_encode :
    (input : List ℕ) (out_len : ℕ) → 0 < out_len → length (url_encode out_len input) < out_len
unfolding url_encode
length-url_encode input out_len h = omega (arith, length-url_encode_from input out_len 0 h)
