-- ===== src/Json/Escape.antt =====
-- `encode_action_channel` of ably-c/src/realtime/protocol_json.c: what it writes, and that a reader of
-- JSON strings gets the name of the channel back.
use ably_connectors.Prelude.{
  ℕ, ◌+◌, ◌<◌, ◌≡◌, refl, ap, ◌∙◌, arith, false, Option, none, some, List, [], ◌∷◌, ◌++◌, length,
  length-append, ltb, ◌==◌, if◌then◌else◌, inl, inr, Bool-cases,
}
use ably_connectors.Base64.{codes}
use ably_connectors.Json.Encode.{
  fitting, close_text, is_escaped, escape_from, channel_head, encode_action_channel,
}

-- The name between the quotes.
unfoldable pub escape : List ℕ → List ℕ
escape [] = []
escape (c ∷ name) = let rest = escape name in if is_escaped c then 92 ∷ c ∷ rest else c ∷ rest

-- What follows a backslash stands for itself, as it does for a quote and a backslash in JSON.
abbrev pub with_byte : ℕ → Option (List ℕ × List ℕ) → Option (List ℕ × List ℕ)
with_byte c none = none
with_byte c (some (s, rest)) = some (c ∷ s, rest)

-- The string up to its closing quote, and what is left.
unfoldable pub read_string : List ℕ → Option (List ℕ × List ℕ)
read_string [] = none
read_string (c ∷ []) = if c == 34 then some ([], []) else none
read_string (c ∷ d ∷ s) =
    let escaped = with_byte d (read_string s) in
    let plain = with_byte c (read_string (d ∷ s)) in
    if c == 34 then some ([], d ∷ s) else if c == 92 then escaped else plain

read_string-plain :
    (c : ℕ) (s : List ℕ)
    → is_escaped c ≡ false
    → 0 < length s
    → read_string (c ∷ s) ≡ with_byte c (read_string s)
unfolding read_string
read_string-plain c [] plain more = absurd (omega arith)
read_string-plain c (d ∷ s) plain more =
    let quote : (c == 34) ≡ false = ground (arith, plain) in
    let slash : (c == 92) ≡ false = ground (arith, plain) in rw (quote, slash) refl

read_string-escape :
    (name rest : List ℕ) → read_string (escape name ++ (34 ∷ rest)) ≡ some (name, rest)
unfolding read_string escape
read_string-escape [] [] = refl
read_string-escape [] (d ∷ rest) = refl
read_string-escape (c ∷ name) rest =
    let later = read_string-escape name rest in
    elim (Bool-cases (is_escaped c)) [
      | inl special ↦ rw (special, later) refl
      | inr plain ↦
          let size : 0 < length (escape name ++ (34 ∷ rest)) =
            omega (arith, length-append (escape name) (34 ∷ rest)) in
          rw plain
            (read_string-plain c (escape name ++ (34 ∷ rest)) plain size ∙ ap (with_byte c) later)
    ]

escape_from-escape :
    (name : List ℕ) (len pos : ℕ)
    → escape_from len pos name ≡ (
        if ltb (pos + length (escape name) + 2) len
        then some (escape name ++ codes "\"}")
        else none)
unfolding escape_from escape close_text
escape_from-escape [] len pos = ground arith
escape_from-escape (c ∷ name) len pos = elim (Bool-cases (is_escaped c)) [
  | inl special ↦ rw (special, escape_from-escape name len (pos + 2)) (ground arith)
  | inr plain ↦ rw (plain, escape_from-escape name len (pos + 1)) (ground arith)
]

-- For every buffer, action and channel: `encode_action_channel` writes the whole frame, with the name
-- escaped, exactly where the frame fits into the buffer with its NUL, and nothing elsewhere; a reader
-- of JSON strings reads the name of the channel out of the frame.
pub encode_action_channel-escape :
    (len action : ℕ) (name : List ℕ)
    → (encode_action_channel len action name
        ≡ fitting len (channel_head action ++ (escape name ++ codes "\"}")))
      × (read_string (escape name ++ codes "\"}") ≡ some (name, codes "}"))
unfolding encode_action_channel
encode_action_channel-escape len action name =
    let head_ = channel_head action in
    let size = length-append head_ (escape name ++ codes "\"}") in
    let size' = length-append (escape name) (codes "\"}") in
    (
      rw (escape_from-escape name len (length head_), size, size') (ground arith),
      read_string-escape name (codes "}"),
    )
