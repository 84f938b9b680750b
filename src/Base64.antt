-- ===== src/Base64.antt =====
-- ably-c/src/base64.c: Base64 with padding, to and from byte arrays.
-- A byte array is the list of its bytes. `ably_base64_encode` writes its result and a NUL into
-- `dst`; the result is the list of the characters before the NUL.
pub mod Encode
pub mod Decode
mod Runs
use ably_connectors.Prelude.{
  ℕ, zero, suc, ◌+◌, ◌-◌, ◌*◌, ◌/◌, ◌%◌, ◌^◌, bit_and, bit_or, Bool, true, false, ◌||◌, Option,
  none, some, List, [], ◌∷◌, ◌++◌, get_or, replicate, leb, ◌==◌, if◌then◌else◌,
}
use Prim.Native.Char.{code}
use Prim.Native.String.{String}

-- The bytes of an ASCII text.
abbrev pub codes : String → List ℕ
codes String.[] = []
codes (String.◌∷◌ c s) = code c ∷ codes s

abbrev pub b64_table : List ℕ
b64_table = codes "ABCDEFGHIJKLMNOPQRSTUVWXYZabcdefghijklmnopqrstuvwxyz0123456789+/"

-- `b64_table[i & 0x3F]`.
unfoldable pub symbol : ℕ → ℕ
symbol i = get_or b64_table (bit_and i 0x3F) 0

unfoldable pub encode_len : ℕ → ℕ
encode_len src_len = (src_len + 2) / 3 * 4 + 1

-- The bytes `a`, `b`, `c` in a `uint32_t`.
unfoldable pub triple : ℕ → ℕ → ℕ → ℕ
triple a b c = bit_or (bit_or (a * 2 ^ 16) (b * 2 ^ 8)) c

-- Each round of the loop takes three bytes; the `if` after it takes the one or two left.
unfoldable pub encode : List ℕ → List ℕ
encode [] = []
encode (a ∷ []) = let t = a * 2 ^ 16 in symbol (t / 2 ^ 18) ∷ symbol (t / 2 ^ 12) ∷ b'=' ∷ b'=' ∷ []
encode (a ∷ b ∷ []) =
    let t = bit_or (a * 2 ^ 16) (b * 2 ^ 8) in
    symbol (t / 2 ^ 18) ∷ symbol (t / 2 ^ 12) ∷ symbol (t / 2 ^ 6) ∷ b'=' ∷ []
encode (a ∷ b ∷ c ∷ src) =
    let t = triple a b c in
    symbol (t / 2 ^ 18) ∷ symbol (t / 2 ^ 12) ∷ symbol (t / 2 ^ 6) ∷ symbol t ∷ encode src

unfoldable pub decode_max_len : ℕ → ℕ
decode_max_len encoded_len = encoded_len / 4 * 3 + 3

-- An entry of the decode table: -1, -2, or a value from 0 to 63.
pub data Cell : Type 0 where
  bad pad : Cell
  val : ℕ → Cell

abbrev pub b64_dec_low : List Cell
b64_dec_low =
    bad
    ∷ bad
    ∷ bad
    ∷ bad
    ∷ bad
    ∷ bad
    ∷ bad
    ∷ bad
    ∷ bad
    ∷ bad
    ∷ bad
    ∷ bad
    ∷ bad
    ∷ bad
    ∷ bad
    ∷ bad
    ∷ bad
    ∷ bad
    ∷ bad
    ∷ bad
    ∷ bad
    ∷ bad
    ∷ bad
    ∷ bad
    ∷ bad
    ∷ bad
    ∷ bad
    ∷ bad
    ∷ bad
    ∷ bad
    ∷ bad
    ∷ bad
    ∷ bad
    ∷ bad
    ∷ bad
    ∷ bad
    ∷ bad
    ∷ bad
    ∷ bad
    ∷ bad
    ∷ bad
    ∷ bad
    ∷ bad
    ∷ val 62
    ∷ bad
    ∷ bad
    ∷ bad
    ∷ val 63
    ∷ val 52
    ∷ val 53
    ∷ val 54
    ∷ val 55
    ∷ val 56
    ∷ val 57
    ∷ val 58
    ∷ val 59
    ∷ val 60
    ∷ val 61
    ∷ bad
    ∷ bad
    ∷ bad
    ∷ pad
    ∷ bad
    ∷ bad
    ∷ bad
    ∷ val 0
    ∷ val 1
    ∷ val 2
    ∷ val 3
    ∷ val 4
    ∷ val 5
    ∷ val 6
    ∷ val 7
    ∷ val 8
    ∷ val 9
    ∷ val 10
    ∷ val 11
    ∷ val 12
    ∷ val 13
    ∷ val 14
    ∷ val 15
    ∷ val 16
    ∷ val 17
    ∷ val 18
    ∷ val 19
    ∷ val 20
    ∷ val 21
    ∷ val 22
    ∷ val 23
    ∷ val 24
    ∷ val 25
    ∷ bad
    ∷ bad
    ∷ bad
    ∷ bad
    ∷ bad
    ∷ bad
    ∷ val 26
    ∷ val 27
    ∷ val 28
    ∷ val 29
    ∷ val 30
    ∷ val 31
    ∷ val 32
    ∷ val 33
    ∷ val 34
    ∷ val 35
    ∷ val 36
    ∷ val 37
    ∷ val 38
    ∷ val 39
    ∷ val 40
    ∷ val 41
    ∷ val 42
    ∷ val 43
    ∷ val 44
    ∷ val 45
    ∷ val 46
    ∷ val 47
    ∷ val 48
    ∷ val 49
    ∷ val 50
    ∷ val 51
    ∷ bad
    ∷ bad
    ∷ bad
    ∷ bad
    ∷ bad
    ∷ []

-- `b64_dec[(uint8_t)c]`; the upper half of the table is -1.
unfoldable pub b64_dec : ℕ → Cell
b64_dec c = get_or (b64_dec_low ++ replicate 128 bad) c bad

unfoldable pub is_blank : ℕ → Bool
is_blank c = c == 0 || c == b'\n' || c == b'\r' || c == b' '

-- One character of the array before what is left of the rest.
unfoldable pub trim_before : ℕ → List ℕ → List ℕ
trim_before c [] = if is_blank c then [] else c ∷ []
trim_before c (d ∷ src) = c ∷ d ∷ src

-- Drops the trailing blanks.
unfoldable pub trim : List ℕ → List ℕ
trim [] = []
trim (c ∷ src) = trim_before c (trim src)

-- A byte stored by `dst[o++] = …` behind the test `o + 1 > dst_len`, and what the rest stores.
abbrev pub emit : ℕ → ℕ → ℕ → Option (List ℕ) → Option (List ℕ)
emit dst_len o byte none = none
emit dst_len o byte (some out) = if leb (o + 1) dst_len then some (byte ∷ out) else none

-- The third byte of a group, and the groups after it.
abbrev pub finish_third : ℕ → ℕ → ℕ → Cell → Option (List ℕ) → Option (List ℕ)
finish_third dst_len o c pad rest = some []
finish_third dst_len o c bad rest = none
finish_third dst_len o c (val d) rest = emit dst_len o (bit_or (c * 2 ^ 6) d % 256) rest

abbrev pub finish_second : ℕ → ℕ → ℕ → Cell → Cell → Option (List ℕ) → Option (List ℕ)
finish_second dst_len o b pad d rest = some []
finish_second dst_len o b bad d rest = none
finish_second dst_len o b (val c) d rest =
    emit dst_len o (bit_or (b * 2 ^ 4) (c / 2 ^ 2) % 256) (finish_third dst_len (o + 1) c d rest)

-- One round of the loop on four cells, where `rest` is what the later rounds store.
abbrev pub group : ℕ → ℕ → Cell → Cell → Cell → Cell → Option (List ℕ) → Option (List ℕ)
group dst_len o (val a) (val b) c d rest =
    emit dst_len o (bit_or (a * 2 ^ 2) (b / 2 ^ 4) % 256) (finish_second dst_len (o + 1) b c d rest)
group dst_len o _ _ c d rest = none

-- The loop from output index `o` on; fewer than four characters end it.
unfoldable pub decode_from : ℕ → ℕ → List ℕ → Option (List ℕ)
decode_from dst_len o (w ∷ x ∷ y ∷ z ∷ src) =
    group dst_len o (b64_dec w) (b64_dec x) (b64_dec y) (b64_dec z)
      (decode_from dst_len (o + 3) src)
decode_from dst_len o _ = some []

-- The bytes stored in `dst`, or `none` for the result -1.
unfoldable pub decode : ℕ → List ℕ → Option (List ℕ)
decode dst_len src = decode_from dst_len 0 (trim src)
