-- ===== src/Vcdiff/Varint.antt =====
-- `read_varint` of ably-c/src/delta/vcdiff.c: big-endian groups of seven bits, of which all but the
-- last have the top bit set.
use ably_connectors.Prelude.{
  ℕ, zero, suc, ◌+◌, ◌*◌, ◌/◌, ◌%◌, ◌^◌, ◌≤◌, ◌<◌, ◌≡◌, refl, ap, ◌∙◌, arith, bit_and, bit_or, true,
  Option, none, some, List, [], ◌∷◌, ◌++◌, length, leb, ◌==◌, if◌then◌else◌,
}
use ably_connectors.Prelude.Bits.{bit_and_mask, bit_or_shifted}
use ably_connectors.Prelude.Tables.{holds_below, holds_below_sound}
use ably_connectors.Vcdiff.Types.{Result, truncated, some_or}
use native.Mathlib.Numerals.{towards_suc}
use native.Mathlib.Nat.{
  pow-suc, one-le-pow, pow-le-pow_right, mod-eq_of_lt, div-lt_iff_lt-mul, div-add-mod',
}

-- The bytes from `pos` to `end` are the list; `n` bytes are read, and `v` is a `uint64_t`.
unfoldable pub read_from : ℕ → ℕ → List ℕ → Option (ℕ × List ℕ)
read_from n v [] = none
read_from n v (b ∷ src) =
    let v' = bit_or (v * 2 ^ 7 % 2 ^ 64) (bit_and b 0x7F) in
    let more = read_from (n + 1) v' src in
    if bit_and b 0x80 == 0 then some (v', src) else if leb 9 (n + 1) then none else more

unfoldable pub read_varint : List ℕ → Option (ℕ × List ℕ)
read_varint src = read_from 0 0 src

-- A caller's `if (!n) return ABLY_VCDIFF_ERR_TRUNCATED`.
abbrev pub varint : List ℕ → Result (ℕ × List ℕ)
varint src = some_or truncated (read_varint src)

-- `v` in `k` groups with the top bit set and a last one.
unfoldable pub groups : ℕ → ℕ → List ℕ
groups zero v = v ∷ []
groups (suc k) v = (128 + v / 128 ^ suc k) ∷ groups k (v % 128 ^ suc k)

top_bits : holds_below 128 (λ b. bit_and b 0x80 == 0) ≡ true
unfolding holds_below
top_bits = refl

top_bits_set : holds_below 128 (λ b. bit_and (128 + b) 0x80 == 128) ≡ true
unfolding holds_below
top_bits_set = refl

-- One round on the byte `b`: seven more bits, with no overflow below 2 ^ 64.
shift_in :
    (v b : ℕ) → v * 128 < 2 ^ 64 → bit_or (v * 2 ^ 7 % 2 ^ 64) (bit_and b 0x7F) ≡ v * 128 + b % 128
shift_in v b hv =
    rw (mod-eq_of_lt hv, bit_and_mask 7 b) (bit_or_shifted 7 v (b % 2 ^ 7) (omega arith))

read_last :
    (n v b : ℕ) (rest : List ℕ)
    → b < 128
    → v * 128 < 2 ^ 64
    → read_from n v (b ∷ rest) ≡ some (v * 128 + b, rest)
unfolding read_from
read_last n v b rest hb hv =
    ground (arith, shift_in v b hv, holds_below_sound 128 (λ c. bit_and c 0x80 == 0) b top_bits hb)

read_more :
    (n v b : ℕ) (rest : List ℕ)
    → b < 128
    → n < 8
    → v * 128 < 2 ^ 64
    → read_from n v ((128 + b) ∷ rest) ≡ read_from (n + 1) (v * 128 + b) rest
unfolding read_from
read_more n v b rest hb hn hv = ground (
  arith,
  shift_in v (128 + b) hv,
  holds_below_sound 128 (λ c. bit_and (128 + c) 0x80 == 128) b top_bits_set hb,
)

read_from-groups :
    (k n v w : ℕ) (rest : List ℕ)
    → w < 128 ^ suc k
    → n + k ≤ 8
    → v * 128 ^ suc k + w < 2 ^ 63
    → read_from n v (groups k w ++ rest) ≡ some (v * 128 ^ suc k + w, rest)
unfolding groups
read_from-groups zero n v w rest hw hn small = read_last n v w rest hw (omega arith)
read_from-groups (suc k) n v w rest hw hn small =
    read_more n v (w / p) (groups k (w % p) ++ rest) high (omega arith) (omega (arith, expand, big))
    ∙ read_from-groups k (n + 1) (v * 128 + w / p) (w % p) rest (omega (arith, pos)) (omega arith)
        (omega (arith, whole))
    ∙ ap (λ (t : ℕ). some (t, rest)) whole
  where
    p : ℕ
    p = 128 ^ suc k

    pos : 0 < p
    pos = one-le-pow (suc k) 128 (omega arith)

    expand : v * 128 ^ suc (suc k) ≡ v * 128 * p
    expand = omega (arith, ap (λ (t : ℕ). v * t) (pow-suc 128 (suc k)))

    big : v * 128 ≤ v * 128 * p
    big = grind (arith, pos)

    high : w / p < 128
    high = (div-lt_iff_lt-mul pos).1 (omega (arith, pow-suc 128 (suc k)))

    whole : (v * 128 + w / p) * p + w % p ≡ v * 128 ^ suc (suc k) + w
    whole = omega (arith, expand, div-add-mod' w p)

-- `read_varint` reads back a number below 2 ^ 63 written in at most nine groups, and leaves what
-- follows it.
pub read_varint-groups :
    (k v : ℕ) (rest : List ℕ)
    → k ≤ 8
    → v < 128 ^ suc k
    → v < 2 ^ 63
    → read_varint (groups k v ++ rest) ≡ some (v, rest)
unfolding read_varint
read_varint-groups k v rest hk hv small =
    read_from-groups k 0 0 v rest hv (omega arith) (omega arith)
    ∙ ap (λ (t : ℕ). some (t, rest)) (omega arith)

-- What a successful read returns and takes: a number below 2 ^ 63, from 1 to 9 bytes.
read_from_bounds :
    (src : List ℕ) (n v w : ℕ) (rest : List ℕ)
    → n ≤ 8
    → v < 128 ^ n
    → read_from n v src ≡ some (w, rest)
    → (w < 2 ^ 63) × (length rest < length src)
unfolding read_from
read_from_bounds [] n v w rest hn hv e = cc
read_from_bounds (b ∷ src) n v w rest hn hv e = ground (
  arith,
  shift_in v b (omega (arith, wider, total)),
  read_from_bounds src (n + 1) (bit_or (v * 2 ^ 7 % 2 ^ 64) (bit_and b 0x7F)) w rest,
  wider,
  total,
)
  where
    wider : 128 ^ (n + 1) ≡ 128 ^ n * 128
    wider = simp towards_suc (pow-suc 128 n)

    total : 128 ^ (n + 1) ≤ 128 ^ 9
    total = pow-le-pow_right (omega arith) {i = n + 1} {j = 9} (omega arith)

-- A successful read returns a number below 2 ^ 63 and takes at least one byte.
pub read_varint_bounds :
    (src : List ℕ) {w : ℕ} {rest : List ℕ}
    → read_varint src ≡ some (w, rest)
    → (w < 2 ^ 63) × (length rest < length src)
unfolding read_varint
read_varint_bounds src e = read_from_bounds src 0 0 _ _ (omega arith) (omega arith) e
