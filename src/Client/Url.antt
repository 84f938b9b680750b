-- ===== src/Client/Url.antt =====
-- The URL of the WebSocket, ably-c/src/realtime/realtime_client.c: `url_encode`, the path that
-- `ably_rt_client_create` builds, and the path of a connection attempt.
-- A text is the list of its bytes before the NUL; `snprintf` into a buffer of `n` bytes keeps `n - 1`.
use ably_connectors.Prelude.{
  ℕ, ◌+◌, ◌/◌, ◌%◌, Bool, ◌&&◌, ◌||◌, List, [], ◌∷◌, ◌++◌, get_or, take, ltb, leb, ◌==◌,
  if◌then◌else◌,
}
use ably_connectors.Base64.{codes}

abbrev pub hex : List ℕ
hex = codes "0123456789ABCDEF"

abbrev pub between : ℕ → ℕ → ℕ → Bool
between low c high = leb low c && leb c high

-- The bytes that stand for themselves: letters, digits, and '-', '_', '.', '~'.
unfoldable pub is_unreserved : ℕ → Bool
is_unreserved c =
    between 65 c 90
    || between 97 c 122
    || between 48 c 57
    || c == 45
    || c == 95
    || c == 46
    || c == 126

-- The loop of `url_encode`, with `j` bytes written into a buffer of `out_len` bytes.
unfoldable pub url_encode_from : (out_len j : ℕ) → List ℕ → List ℕ
url_encode_from out_len j [] = []
url_encode_from out_len j (c ∷ input) =
    let plain = url_encode_from out_len (j + 1) input in
    let escaped = url_encode_from out_len (j + 3) input in
    if ltb (j + 3) out_len
    then if is_unreserved c
      then c ∷ plain
      else 37 ∷ get_or hex (c / 16) 0 ∷ get_or hex (c % 16) 0 ∷ escaped
    else []

unfoldable pub url_encode : (out_len : ℕ) → List ℕ → List ℕ
url_encode out_len input = url_encode_from out_len 0 input

pub data Encoding : Type 0 where
  json msgpack : Encoding

abbrev pub format_name : Encoding → List ℕ
format_name json = codes "json"
format_name msgpack = codes "msgpack"

-- The path with a token, also after its renewal.
unfoldable pub token_path : Encoding → List ℕ → List ℕ
token_path encoding token =
    take 1023 (codes "/?v=3&access_token=" ++ token ++ codes "&format=" ++ format_name encoding)

abbrev pub key_path : Encoding → List ℕ → List ℕ → List ℕ
key_path encoding api_key [] =
    take 1023 (codes "/?v=3&key=" ++ api_key ++ codes "&format=" ++ format_name encoding)
key_path encoding api_key (c ∷ id) = take 1023 (
    codes "/?v=3&key="
    ++ api_key
    ++ codes "&clientId="
    ++ url_encode 768 (c ∷ id)
    ++ codes "&format="
    ++ format_name encoding)

unfoldable pub create_path : Encoding → List ℕ → List ℕ → List ℕ → List ℕ
create_path encoding api_key [] client_id = key_path encoding api_key client_id
create_path encoding api_key (c ∷ token) client_id = token_path encoding (c ∷ token)

-- "base path + optional ?resume=<key>".
unfoldable pub resume_path : List ℕ → List ℕ → List ℕ
resume_path ws_path [] = take 1023 ws_path
resume_path ws_path (c ∷ key) = take 1023 (ws_path ++ codes "&resume=" ++ (c ∷ key))
