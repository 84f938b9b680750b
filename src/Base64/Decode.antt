-- ===== src/Base64/Decode.antt =====
-- `ably_base64_decode` on what `ably_base64_encode` wrote, and its bounds on any input.
use ably_connectors.Prelude.{
  ℕ, suc, ◌+◌, ◌-◌, ◌*◌, ◌/◌, ◌%◌, ◌^◌, ◌≤◌, ◌<◌, ◌≡◌, refl, ◌∙◌, arith, bit_or, Option, none, some,
  List, [], ◌∷◌, length, All, leb, Bool-cases, inl, inr,
}
use ably_connectors.Prelude.Bits.{bit_or_shifted}
use ably_connectors.Base64.{
  symbol, triple, encode, Cell, bad, pad, val, b64_dec, trim, trim_before, is_blank, emit,
  finish_third, finish_second, group, decode_from, decode, decode_max_len,
}
use ably_connectors.Base64.Encode.{IsByte, b64_dec-symbol, is_blank-symbol, triple-eq}

-- The fields of a decoded group put together, at four sextets.
first_byte : (i j : ℕ) → j < 64 → bit_or (i * 2 ^ 2) (j / 2 ^ 4) % 256 ≡ (i * 4 + j / 16) % 256
first_byte i j h = rw (bit_or_shifted 2 i (j / 2 ^ 4) (omega arith))

second_byte : (i j : ℕ) → j < 64 → bit_or (i * 2 ^ 4) (j / 2 ^ 2) % 256 ≡ (i * 16 + j / 4) % 256
second_byte i j h = rw (bit_or_shifted 4 i (j / 2 ^ 2) (omega arith))

third_byte : (i j : ℕ) → j < 64 → bit_or (i * 2 ^ 6) j % 256 ≡ (i * 64 + j) % 256
third_byte i j h = rw (bit_or_shifted 6 i j h)

-- A byte that fits is stored.
emit-fits :
    (dst_len o byte : ℕ) (out : List ℕ)
    → o < dst_len
    → emit dst_len o byte (some out) ≡ some (byte ∷ out)
emit-fits dst_len o byte out h = ground arith

-- The three bytes that come back from the sextets of `t`.
module _ (a b c t : ℕ) (ha : IsByte a) (hb : IsByte b) (hc : IsByte c)
    (e : t ≡ a * 65536 + b * 256 + c) where
  back_first : bit_or (t / 2 ^ 18 % 64 * 2 ^ 2) (t / 2 ^ 12 % 64 / 2 ^ 4) % 256 ≡ a
  back_first = first_byte _ _ (omega arith) ∙ omega arith

  back_second : bit_or (t / 2 ^ 12 % 64 * 2 ^ 4) (t / 2 ^ 6 % 64 / 2 ^ 2) % 256 ≡ b
  back_second = second_byte _ _ (omega arith) ∙ omega arith

  back_third : bit_or (t / 2 ^ 6 % 64 * 2 ^ 6) (t % 64) % 256 ≡ c
  back_third = third_byte _ _ (omega arith) ∙ omega arith

  module _ (dst_len o : ℕ) where
    group-three :
        (rest : List ℕ)
        → o + 3 ≤ dst_len
        → group dst_len o
            (val (t / 2 ^ 18 % 64))
            (val (t / 2 ^ 12 % 64))
            (val (t / 2 ^ 6 % 64))
            (val (t % 64))
            (some rest)
          ≡ some (a ∷ b ∷ c ∷ rest)
    group-three rest room = rw (
      back_first,
      back_second,
      back_third,
      emit-fits dst_len (o + 1 + 1) c rest (omega arith),
      emit-fits dst_len (o + 1) b (c ∷ rest) (omega arith),
      emit-fits dst_len o a (b ∷ c ∷ rest) (omega arith),
    )

    group-two :
        (rest : Option (List ℕ))
        → o + 2 ≤ dst_len
        → group dst_len o
            (val (t / 2 ^ 18 % 64))
            (val (t / 2 ^ 12 % 64))
            (val (t / 2 ^ 6 % 64))
            pad
            rest
          ≡ some (a ∷ b ∷ [])
    group-two rest room = rw (
      back_first,
      back_second,
      emit-fits dst_len (o + 1) b [] (omega arith),
      emit-fits dst_len o a (b ∷ []) (omega arith),
    )

    group-one :
        (rest : Option (List ℕ))
        → o + 1 ≤ dst_len
        → group dst_len o (val (t / 2 ^ 18 % 64)) (val (t / 2 ^ 12 % 64)) pad pad rest
          ≡ some (a ∷ [])
    group-one rest room = rw (back_first, emit-fits dst_len o a [] (omega arith))

b64_dec-pad : b64_dec b'=' ≡ pad
unfolding b64_dec
b64_dec-pad = refl

pub decode_from-encode :
    (src : List ℕ) (dst_len o : ℕ)
    → All IsByte src
    → o + length src ≤ dst_len
    → decode_from dst_len o (encode src) ≡ some src
unfolding decode_from encode
decode_from-encode [] dst_len o hs room = refl
decode_from-encode (a ∷ []) dst_len o hs room =
    simp (b64_dec-symbol, b64_dec-pad)
      (group-one a 0 0 (a * 2 ^ 16) hs.0 (omega arith) (omega arith) (omega arith) dst_len o
        (some []) (omega arith))
decode_from-encode (a ∷ b ∷ []) dst_len o hs room =
    simp (b64_dec-symbol, b64_dec-pad)
      (group-two a b 0 (bit_or (a * 2 ^ 16) (b * 2 ^ 8)) hs.0 hs.1.0 (omega arith) pair dst_len o
        (some []) (omega arith))
  where
    pair : bit_or (a * 2 ^ 16) (b * 2 ^ 8) ≡ a * 65536 + b * 256 + 0
    pair = bit_or_shifted 16 a (b * 2 ^ 8) (omega (arith, hs.1.0)) ∙ omega arith
decode_from-encode (a ∷ b ∷ c ∷ src) dst_len o hs room =
    simp (b64_dec-symbol, decode_from-encode src dst_len (o + 3) hs.1.1.1 (omega arith))
      (group-three a b c (triple a b c) hs.0 hs.1.0 hs.1.1.0 (triple-eq a b c hs.1.0 hs.1.1.0)
        dst_len o src (omega arith))

trim_before-symbol : (i : ℕ) (src : List ℕ) → trim_before (symbol i) src ≡ symbol i ∷ src
unfolding trim_before
trim_before-symbol i [] = rw is_blank-symbol
trim_before-symbol i (c ∷ src) = refl

trim_before-equals : (src : List ℕ) → trim_before b'=' src ≡ b'=' ∷ src
unfolding trim_before is_blank
trim_before-equals [] = refl
trim_before-equals (c ∷ src) = refl

-- The encoder writes nothing that the decoder takes for a trailing blank.
trim-encode : (src : List ℕ) → trim (encode src) ≡ encode src
unfolding trim encode
trim-encode [] = refl
trim-encode (a ∷ []) = simp (trim_before-equals, trim_before-symbol)
trim-encode (a ∷ b ∷ []) = simp (trim_before-equals, trim_before-symbol)
trim-encode (a ∷ b ∷ c ∷ src) = simp (trim-encode src, trim_before-symbol)

-- Decoding gives back the bytes that were encoded, if the buffer has room for them.
pub decode-encode :
    (src : List ℕ) (dst_len : ℕ)
    → All IsByte src
    → length src ≤ dst_len
    → decode dst_len (encode src) ≡ some src
unfolding decode
decode-encode src dst_len hs room =
    rw trim-encode (decode_from-encode src dst_len 0 hs (omega arith))

-- What a successful run from index `o` stored: bytes, at most `k`, and none past `dst_len`.
abbrev Within : ℕ → ℕ → ℕ → Option (List ℕ) → Type 0
Within dst_len o k none = Unit
Within dst_len o k (some out) = (length out ≤ dst_len - o) × (length out ≤ k) × All IsByte out

module _ (dst_len : ℕ) where
  emit-Within :
      (o k byte : ℕ) (r : Option (List ℕ))
      → IsByte byte
      → Within dst_len (o + 1) k r
      → Within dst_len o (k + 1) (emit dst_len o byte r)
  emit-Within o k byte none h w = tt
  emit-Within o k byte (some out) h w = elim (Bool-cases (leb (o + 1) dst_len)) [
    | inl fits ↦ rw fits (ground arith, omega (arith, w.1), (h, w.2))
    | inr over ↦ rw over tt
  ]

  third-Within :
      (o k c : ℕ) (d : Cell) (r : Option (List ℕ))
      → Within dst_len (o + 1) k r
      → Within dst_len o (k + 1) (finish_third dst_len o c d r)
  third-Within o k c pad r w = (omega arith, omega arith, tt)
  third-Within o k c bad r w = tt
  third-Within o k c (val d) r w = emit-Within o k _ r (omega arith) w

  second-Within :
      (o k b : ℕ) (c d : Cell) (r : Option (List ℕ))
      → Within dst_len (o + 1 + 1) k r
      → Within dst_len o (k + 1 + 1) (finish_second dst_len o b c d r)
  second-Within o k b pad d r w = (omega arith, omega arith, tt)
  second-Within o k b bad d r w = tt
  second-Within o k b (val c) d r w =
      emit-Within o (k + 1) _ _ (omega arith) (third-Within (o + 1) k c d r w)

  group-Within :
      (o k : ℕ) (a b c d : Cell) (r : Option (List ℕ))
      → Within dst_len (o + 1 + 1 + 1) k r
      → Within dst_len o (k + 1 + 1 + 1) (group dst_len o a b c d r)
  group-Within o k (val a) (val b) c d r w =
      emit-Within o (k + 1 + 1) _ _ (omega arith) (second-Within (o + 1) k b c d r w)
  group-Within o k _ _ c d r w = tt

  decode_from-Within :
      (src : List ℕ) (o : ℕ) → Within dst_len o (length src / 4 * 3) (decode_from dst_len o src)
  unfolding decode_from
  decode_from-Within (w ∷ x ∷ y ∷ z ∷ src) o =
      rw four
        (group-Within o (length src / 4 * 3) _ _ _ _ _ (rw three (decode_from-Within src (o + 3))))
    where
      four : suc (suc (suc (suc (length src)))) / 4 * 3 ≡ length src / 4 * 3 + 1 + 1 + 1
      four = omega arith

      three : o + 1 + 1 + 1 ≡ o + 3
      three = omega arith
  decode_from-Within _ o = (omega arith, omega arith, tt)

length-trim_before : (c : ℕ) (src : List ℕ) → length (trim_before c src) ≤ suc (length src)
unfolding trim_before
length-trim_before c [] = ground arith
length-trim_before c (d ∷ src) = omega arith

length-trim : (src : List ℕ) → length (trim src) ≤ length src
unfolding trim
length-trim [] = omega arith
length-trim (c ∷ src) = omega (arith, length-trim_before c (trim src), length-trim src)

from_Within :
    (dst_len k : ℕ) (r : Option (List ℕ)) {out : List ℕ}
    → Within dst_len 0 k r
    → r ≡ some out
    → (length out ≤ dst_len) × (length out ≤ k) × All IsByte out
from_Within dst_len k none w e = cc
from_Within dst_len k (some got) {out} w e = rw (← same) (omega arith, w.1, w.2)
  where
    same : got ≡ out
    same = cc

-- Whatever the input, a successful decode stores only bytes, no more than the buffer holds and no
-- more than `ably_base64_decode_max_len` says.
pub decode_bounds :
    (dst_len : ℕ) (src : List ℕ) {out : List ℕ}
    → decode dst_len src ≡ some out
    → (length out ≤ dst_len) × (length out ≤ decode_max_len (length src)) × All IsByte out
unfolding decode decode_max_len
decode_bounds dst_len src e =
    let (room, few, bytes) =
      from_Within dst_len _ (decode_from dst_len 0 (trim src))
        (decode_from-Within dst_len (trim src) 0) e in
    (room, omega (arith, few, length-trim src), bytes)
