-- ===== src/Http/Exchange.antt =====
-- `ably_http_get`, `ably_http_do` and `ably_http_post` of ably-c/src/http/http_client.c. The network
-- and mbedTLS are the parameter `wire`: for the bytes of a request either nothing, where connecting,
-- the handshake or `send_all` fails, or the results of `mbedtls_ssl_read`, one by one.
use ably_connectors.Prelude.{
  ℕ, ◌+◌, ◌-◌, ◌%◌, ◌^◌, Bool, false, ◌&&◌, ◌||◌, Option, none, some, List, [], ◌∷◌, ◌++◌, length,
  take, drop, ltb, leb, ◌==◌, if◌then◌else◌,
}
use ably_connectors.Base64.{codes}
use ably_connectors.Types.{AblyError, success, network, protocol}
use ably_connectors.Rest.Text.{decimal}
use ably_connectors.Http.Headers.{Head, parse_response_headers}

-- A result of `mbedtls_ssl_read`; `ended` is a close by the peer or 0.
pub data Read : Type 0 where
  want_read : Read
  ended : Read
  broken : Read
  bytes : List ℕ → Read

abbrev pub request_buf_size : ℕ
request_buf_size = 65536

abbrev pub response_buf_size : ℕ
response_buf_size = 65536

-- The loop that fills a response buffer of `size` bytes; a list that runs out is a close by the peer.
unfoldable pub read_response : ℕ → List ℕ → List Read → Option (List ℕ)
read_response size received [] = some received
read_response size received (want_read ∷ reads) =
    let more = read_response size received reads in
    if leb (size - 1) (length received) then some received else more
read_response size received (ended ∷ reads) = some received
read_response size received (broken ∷ reads) =
    if leb (size - 1) (length received) then some received else none
read_response size received (bytes s ∷ reads) =
    let more = read_response size (received ++ take (size - 1 - length received) s) reads in
    if leb (size - 1) (length received) then some received else more

-- What the caller of a request gets. The status of a response that is refused is left out.
pub record Reply : Type 0 where
  pub err : AblyError
  pub status : ℕ
  pub body : List ℕ
  pub link : List ℕ

abbrev pub no_reply : AblyError → Reply
no_reply err = record { err = err; status = 0; body = []; link = [] }

-- The body, cut to the content length where this is shorter.
abbrev pub body_of : ℕ → List ℕ → List ℕ
body_of content_length available =
    if ltb 0 content_length && ltb content_length (length available)
    then take content_length available
    else available

abbrev pub replied : List ℕ → Option (ℕ × Head) → Reply
replied response none = no_reply protocol
replied response (some (body_offset, head_)) = record {
  err = success;
  status = head_.status;
  body = body_of head_.content_length (drop body_offset response);
  link = head_.link;
}

abbrev pub crlf : List ℕ
crlf = 13 ∷ 10 ∷ []

-- The request line and the headers that every request has.
unfoldable pub request_head : List ℕ → List ℕ → List ℕ → List ℕ → List ℕ
request_head method path host auth_header =
    method
    ++ (codes " "
        ++ (path
            ++ (codes " HTTP/1.1"
                ++ (crlf ++ (codes "Host: " ++ (host ++ (crlf ++ (auth_header ++ crlf))))))))

unfoldable pub get_headers : List ℕ
get_headers =
    codes "Accept: application/json" ++ (crlf ++ (codes "Connection: close" ++ (crlf ++ crlf)))

unfoldable pub post_headers : ℕ → List ℕ
post_headers body_len =
    codes "Content-Type: application/json"
    ++ (crlf
        ++ (codes "Content-Length: "
            ++ (decimal body_len ++ (crlf ++ (codes "Connection: close" ++ (crlf ++ crlf))))))

-- `method[0] == 'P' || method[0] == 'p'`.
abbrev pub is_post : List ℕ → Bool
is_post [] = false
is_post (c ∷ method) = c == 80 || c == 112

module _ (number : List ℕ → ℕ) (wire : List ℕ → Option (List Read))
    (host auth_header : List ℕ) where
  abbrev pub answered : ℕ → Option (List ℕ) → Reply
  answered link_out_len none = no_reply network
  answered link_out_len (some response) =
      replied response (parse_response_headers number link_out_len response)

  abbrev pub received : ℕ → Option (List Read) → Reply
  received link_out_len none = no_reply network
  received link_out_len (some reads) =
      answered link_out_len (read_response response_buf_size [] reads)

  abbrev pub exchange : ℕ → List ℕ → Reply
  exchange link_out_len request = received link_out_len (wire request)

  unfoldable pub http_get : List ℕ → Reply
  http_get path =
      let request = request_head (codes "GET") path host auth_header ++ get_headers in
      if leb request_buf_size (length request) then no_reply network else exchange 512 request

  unfoldable pub http_do : List ℕ → List ℕ → List ℕ → Reply
  http_do method path body =
      let post = request_head method path host auth_header ++ post_headers (length body) in
      let get = request_head method path host auth_header ++ get_headers in
      if is_post method
      then if leb request_buf_size (length post + length body)
        then no_reply network
        else exchange 512 (post ++ body)
      else if leb request_buf_size (length get)
      then no_reply network
      else exchange 512 get

  -- The first test subtracts the length of the body from the size, as a `size_t`.
  unfoldable pub http_post : List ℕ → List ℕ → Reply
  http_post path body =
      let head_ = request_head (codes "POST") path host auth_header ++ post_headers (length body) in
      let left = (request_buf_size + 2 ^ 64 - length body) % 2 ^ 64 in
      if leb left (length head_)
      then no_reply network
      else if ltb 0 (length body) && leb request_buf_size (length head_ + length body)
      then no_reply network
      else exchange 0 (head_ ++ body)
