-- ===== src/Rest/Token.antt =====
-- `ably_rest_client_create` and `ably_rest_request_token` of ably-c/src/rest/rest_client.c. HMAC-SHA256
-- of mbedTLS is the parameter `hmac`, and the second of `time` is given.
use ably_connectors.Prelude.{
  ℕ, zero, suc, ◌+◌, ◌*◌, ◌/◌, ◌%◌, ◌^◌, bit_xor, ◌||◌, Option, none, some, List, [], ◌∷◌, ◌++◌,
  length, get_or, take, drop, ltb, leb, ◌==◌, if◌then◌else◌,
}
use ably_connectors.Base64.{codes}
use ably_connectors.Base64
use ably_connectors.Types.{no_mem, invalid_arg, internal, capacity, protocol}
use ably_connectors.Json.Tree.{Json, number, string, object, field, end}
use ably_connectors.Json.Decode.{json_str, json_int64, copied}
use ably_connectors.Json.Encode.{field_if}
use ably_connectors.Http.Headers.{memchr}
use ably_connectors.Http.Exchange.{Read, request_buf_size, http_do}
use ably_connectors.Rest.Text.{decimal}
use ably_connectors.Rest.Paths.{is_set, request_token_path}
use ably_connectors.Rest.Calls.{Outcome, ok, failed, Answer, checked}

-- The Authorization header, or no client where it is too long for its array.
abbrev pub auth_text : List ℕ → Option (List ℕ) → List ℕ
auth_text api_key none = codes "Authorization: Basic " ++ Base64.encode api_key
auth_text api_key (some token) = codes "Authorization: Bearer " ++ token

unfoldable pub auth_header : List ℕ → Option (List ℕ) → Option (List ℕ)
auth_header api_key token =
    let text = auth_text api_key token in if ltb (length text) 512 then some text else none

-- "keyId:keySecret", split at the first colon.
abbrev pub split_at : List ℕ → Option ℕ → Option (List ℕ × List ℕ)
split_at api_key none = none
split_at api_key (some colon) =
    if colon == 0 || (length api_key == colon + 1 || leb 256 colon)
    then none
    else some (take colon api_key, drop (colon + 1) api_key)

unfoldable pub split_key : List ℕ → Option (List ℕ × List ℕ)
split_key api_key = split_at api_key (memchr 58 api_key)

abbrev pub lower_hex : List ℕ
lower_hex = codes "0123456789abcdef"

-- The generator of the nonce, `n` rounds from a seed of 32 bits.
unfoldable pub nonce_from : ℕ → ℕ → List ℕ
nonce_from zero seed = []
nonce_from (suc n) seed =
    let seed' = (seed * 1664525 + 1013904223) % 2 ^ 32 in
    let byte = seed' / 2 ^ 24 in
    get_or lower_hex (byte / 16) 0 ∷ get_or lower_hex (byte % 16) 0 ∷ nonce_from n seed'

unfoldable pub nonce : ℕ → List ℕ
nonce timestamp_ms = nonce_from 16 (bit_xor timestamp_ms (timestamp_ms / 2 ^ 32) % 2 ^ 32)

-- `ably_token_params_t`, with the defaults for what is NULL.
pub record TokenParams : Type 0 where
  pub capability : List ℕ
  pub client_id : List ℕ
  pub ttl_ms : ℕ

abbrev pub default_params : TokenParams
default_params = record { capability = codes "{\"*\":[\"*\"]}"; client_id = []; ttl_ms = 0 }

abbrev pub line : List ℕ → List ℕ → List ℕ
line text rest = text ++ (10 ∷ rest)

-- Each field with a newline behind it.
unfoldable pub canonical : List ℕ → TokenParams → ℕ → List ℕ
canonical key_name params timestamp_ms = line key_name (
    line (decimal params.ttl_ms) (
      line params.capability
        (line params.client_id (line (decimal timestamp_ms) (line (nonce timestamp_ms) [])))))

unfoldable pub token_tree : List ℕ → TokenParams → ℕ → List ℕ → Json
token_tree key_name params timestamp_ms mac = object (
    field (codes "keyName") (string key_name) (
      field (codes "ttl") (number params.ttl_ms) (
        field (codes "capability") (string params.capability) (
          field_if (is_set params.client_id) (codes "clientId") (string params.client_id) (
            field (codes "timestamp") (number timestamp_ms) (
              field (codes "nonce") (string (nonce timestamp_ms))
                (field (codes "mac") (string mac) end)))))))

-- `ably_token_details_t`.
pub record TokenDetails : Type 0 where
  pub token : List ℕ
  pub key_name : List ℕ
  pub issued : ℕ
  pub expires : ℕ
  pub capability : List ℕ
  pub client_id : List ℕ

unfoldable pub token_details : Json → TokenDetails
token_details resp = record {
  token = copied 512 (json_str resp (codes "token"));
  key_name = copied 256 (json_str resp (codes "keyName"));
  issued = json_int64 resp (codes "issued") 0;
  expires = json_int64 resp (codes "expires") 0;
  capability = copied 1024 (json_str resp (codes "capability"));
  client_id = copied 256 (json_str resp (codes "clientId"));
}

abbrev pub details_of : Option Json → Outcome TokenDetails
details_of none = failed protocol
details_of (some resp) = ok (token_details resp)

module _ (number_of : List ℕ → ℕ) (wire : List ℕ → Option (List Read)) (host auth : List ℕ)
    (print : Json → Option (List ℕ)) (parse : List ℕ → Option Json)
    (hmac : List ℕ → List ℕ → List ℕ) where
  abbrev pub send_token : List ℕ → ℕ → Option (List ℕ) → Answer TokenDetails
  send_token key_name last none = (failed no_mem, last)
  send_token key_name last (some text) =
      let reply =
        http_do number_of wire host auth (codes "POST") (request_token_path key_name) text in
      if leb request_buf_size (length text)
      then (failed capacity, last)
      else (checked reply (details_of (parse reply.body)) reply.err, reply.status)

  -- The request, with the two halves of the key.
  abbrev pub sign_token : TokenParams → ℕ → ℕ → Option (List ℕ × List ℕ) → Answer TokenDetails
  sign_token params timestamp_ms last none = (failed invalid_arg, last)
  sign_token params timestamp_ms last (some (key_name, key_secret)) =
      let text = canonical key_name params timestamp_ms in
      let mac = Base64.encode (hmac key_secret text) in
      if leb 2048 (length text)
      then (failed internal, last)
      else send_token key_name last (print (token_tree key_name params timestamp_ms mac))

  -- `ably_rest_request_token` in the second `now` of the clock; the client keeps 255 bytes of its key.
  unfoldable pub request_token : List ℕ → TokenParams → ℕ → ℕ → Answer TokenDetails
  request_token api_key params now last =
      sign_token params (now * 1000) last (split_key (take 255 api_key))
