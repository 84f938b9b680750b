-- ===== src/Base64/Encode.antt =====
-- What `ably_base64_encode` writes, in plain arithmetic, and how much of it.
use ably_connectors.Prelude.{
  ℕ, ◌+◌, ◌*◌, ◌%◌, ◌^◌, ◌<◌, ◌≡◌, refl, ap, ◌∙◌, arith, bit_or, Bool, true, false, List, [], ◌∷◌,
  get_or, length, ◌==◌, not,
}
use ably_connectors.Prelude.Bits.{bit_and_mask, bit_or_shifted}
use ably_connectors.Prelude.Tables.{holds_below, holds_below_sound}
use ably_connectors.Base64.{
  b64_table, symbol, triple, encode, encode_len, Cell, bad, pad, val, b64_dec, is_blank,
}

abbrev pub IsByte : ℕ → Type 0
IsByte b = b < 256

symbol-eq : (i : ℕ) → symbol i ≡ get_or b64_table (i % 64) 0
unfolding symbol
symbol-eq i = rw (bit_and_mask 6)

abbrev cell_is : Cell → ℕ → Bool
cell_is bad i = false
cell_is pad i = false
cell_is (val k) i = k == i

cell_is_sound : (c : Cell) (i : ℕ) → cell_is c i ≡ true → c ≡ val i
cell_is_sound bad i h = cc
cell_is_sound pad i h = cc
cell_is_sound (val k) i h = ground arith

symbols_decode : holds_below 64 (λ i. cell_is (b64_dec (get_or b64_table i 0)) i) ≡ true
unfolding holds_below b64_dec
symbols_decode = refl

-- The decode table inverts the alphabet.
pub b64_dec-symbol : (i : ℕ) → b64_dec (symbol i) ≡ val (i % 64)
b64_dec-symbol i = rw symbol-eq (
    cell_is_sound _ (i % 64) (
      holds_below_sound 64 (λ j. cell_is (b64_dec (get_or b64_table j 0)) j) (i % 64) symbols_decode
        (omega arith)))

symbols_visible : holds_below 64 (λ i. not (is_blank (get_or b64_table i 0))) ≡ true
unfolding holds_below is_blank
symbols_visible = refl

pub is_blank-symbol : (i : ℕ) → is_blank (symbol i) ≡ false
is_blank-symbol i = rw symbol-eq (
    flip (
      holds_below_sound 64 (λ j. not (is_blank (get_or b64_table j 0))) (i % 64) symbols_visible
        (omega arith)))
  where
    flip :
        not (is_blank (get_or b64_table (i % 64) 0)) ≡ true
        → is_blank (get_or b64_table (i % 64) 0) ≡ false
    flip h = ground arith

pub triple-eq : (a b c : ℕ) → IsByte b → IsByte c → triple a b c ≡ a * 65536 + b * 256 + c
unfolding triple
triple-eq a b c hb hc =
    ap (λ (t : ℕ). bit_or t c) (bit_or_shifted 16 a (b * 2 ^ 8) (omega arith) ∙ regroup)
    ∙ bit_or_shifted 8 (a * 256 + b) c hc
    ∙ omega arith
  where
    regroup : a * 2 ^ 16 + b * 2 ^ 8 ≡ (a * 256 + b) * 2 ^ 8
    regroup = omega arith

-- The characters and the NUL fill exactly the `ably_base64_encode_len` bytes that the assertion
-- asks for.
pub length-encode : (src : List ℕ) → length (encode src) + 1 ≡ encode_len (length src)
unfolding encode encode_len
length-encode [] = refl
length-encode (a ∷ []) = refl
length-encode (a ∷ b ∷ []) = refl
length-encode (a ∷ b ∷ c ∷ src) = omega (arith, length-encode src)
