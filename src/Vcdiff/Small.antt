-- ===== src/Vcdiff/Small.antt =====
-- Deltas in which no number reaches 2^62: three of them do not wrap in the sum of the section lengths of
-- `ably_vcdiff_decode`.
use ably_connectors.Prelude.{
  ℕ, ◌^◌, ◌≡◌, Bool, true, false, Option, none, some, List, [], ◌∷◌, All, ltb, if◌then◌else◌,
}
use ably_connectors.Vcdiff.Varint.{read_varint}
use ably_connectors.Vcdiff.Defined.{IsByte}

abbrev pub small_here : Option (ℕ × List ℕ) → Bool
small_here none = true
small_here (some (v, rest)) = ltb v (2 ^ 62)

-- At no place of the bytes `read_varint` reads a number of 2^62 or more.
unfoldable pub is_small : List ℕ → Bool
is_small [] = true
is_small (b ∷ src) =
    let later = is_small src in if small_here (read_varint (b ∷ src)) then later else false

abbrev pub IsSmall : List ℕ → Type 0
IsSmall src = All IsByte src × (is_small src ≡ true)

abbrev found : ℕ → List ℕ → Option (ℕ × List ℕ)
found v rest = some (v, rest)
