-- ===== src/Rest/Text.antt =====
-- The text routines of ably-c/src/rest/rest_client.c: `url_encode_channel`, and the array `path` that
-- `snprintf` fills piece by piece. A text is the list of its bytes before the NUL.
use ably_connectors.Prelude.{
  ℕ, zero, suc, ◌+◌, ◌-◌, ◌/◌, ◌%◌, Option, none, some, List, [], ◌∷◌, ◌++◌, length, get_or, take,
  ltb, if◌then◌else◌,
}
use ably_connectors.Client.Url.{hex, is_unreserved}

-- The loop of `url_encode_channel`, with `out` bytes written into an array of `dst_len` bytes.
unfoldable pub url_encode_channel_from : (dst_len out : ℕ) → List ℕ → List ℕ
url_encode_channel_from dst_len out [] = []
url_encode_channel_from dst_len out (c ∷ channel) =
    let plain = url_encode_channel_from dst_len (out + 1) channel in
    let escaped = url_encode_channel_from dst_len (out + 3) channel in
    if ltb (out + 4) dst_len
    then if is_unreserved c
      then c ∷ plain
      else 37 ∷ get_or hex (c / 16) 0 ∷ get_or hex (c % 16) 0 ∷ escaped
    else []

unfoldable pub url_encode_channel : (dst_len : ℕ) → List ℕ → List ℕ
url_encode_channel dst_len channel = url_encode_channel_from dst_len 0 channel

-- What "%d", "%zu" and PRId64 print for a number that is not negative, in front of `digits`; a number
-- of 64 bits has 20 digits at most.
unfoldable pub decimal_from : ℕ → ℕ → List ℕ → List ℕ
decimal_from zero n digits = digits
decimal_from (suc fuel) n digits =
    let more = decimal_from fuel (n / 10) ((48 + n % 10) ∷ digits) in
    if ltb n 10 then (48 + n) ∷ digits else more

unfoldable pub decimal : ℕ → List ℕ
decimal n = decimal_from 20 n []

-- The array `path`, the count `n` of what `snprintf` answered so far, and `sep`.
pub record PathBuf : Type 0 where
  pub text : List ℕ
  pub n : ℕ
  pub sep : ℕ

-- The first `snprintf` into an array of `size` bytes.
abbrev pub start_path : ℕ → List ℕ → PathBuf
start_path size text = record { text = take (size - 1) text; n = length text; sep = 63 }

-- `snprintf(path + n, sizeof(path) - (size_t)n, "%c...", sep, ...)` and what follows it. Where `n` is
-- above the size, the difference wraps and the write lies behind the array: `none`.
unfoldable pub append_query : ℕ → List ℕ → PathBuf → Option PathBuf
append_query size piece path =
    if ltb size path.n
    then none
    else some (record {
      text = take (size - 1) (path.text ++ (path.sep ∷ piece));
      n = path.n + suc (length piece);
      sep = 38;
    })
