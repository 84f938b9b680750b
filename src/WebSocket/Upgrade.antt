-- ===== src/WebSocket/Upgrade.antt =====
-- The opening handshake and `ably_ws_connect`, ably-c/src/ws/ws_client.c.
use ably_connectors.Prelude.{
  ℕ, ◌-◌, Bool, true, false, ◌&&◌, List, [], ◌∷◌, ◌++◌, length, take, leb, if◌then◌else◌,
}
use ably_connectors.Base64.{codes}
use ably_connectors.Base64
use ably_connectors.Types.{AblyError, success, network, timeout, c_string}
use ably_connectors.Channel.Delta.{starts_with, contains}
use ably_connectors.Http.Exchange.{crlf}
use ably_connectors.Http.Headers.{blank_line}
use ably_connectors.WebSocket.Transport.{Transport, Poll, ready, timed_out, poll_failed}

abbrev pub handshake_buf : ℕ
handshake_buf = 8192

-- `generate_websocket_key` on the 16 random bytes.
unfoldable pub websocket_key : List ℕ → List ℕ
websocket_key random = Base64.encode random

unfoldable pub upgrade_request : List ℕ → List ℕ → List ℕ → List ℕ
upgrade_request path host key =
    codes "GET "
    ++ (path
        ++ (codes " HTTP/1.1"
            ++ (crlf
                ++ (codes "Host: "
                    ++ (host
                        ++ (crlf
                            ++ (codes "Upgrade: websocket"
                                ++ (crlf
                                    ++ (codes "Connection: Upgrade"
                                        ++ (crlf
                                            ++ (codes "Sec-WebSocket-Key: "
                                                ++ (key
                                                    ++ (crlf
                                                        ++ (codes "Sec-WebSocket-Version: 13"
                                                            ++ (crlf ++ crlf)))))))))))))))

-- A result of `mbedtls_ssl_write` or `mbedtls_ssl_read`; `wait` is WANT_WRITE or WANT_READ with what
-- `poll` answers, and `ticket` a session ticket of TLS 1.3.
pub data Write : Type 0 where
  write_wait : Poll → Write
  write_ticket : Write
  write_failed : Write
  wrote : ℕ → Write

pub data HandshakeRead : Type 0 where
  read_wait : Poll → HandshakeRead
  read_ticket : HandshakeRead
  read_failed : HandshakeRead
  read : List ℕ → HandshakeRead

abbrev pub on_poll : {A : Type 0} → Poll → A → (AblyError → A) → A
on_poll ready go stop = go
on_poll timed_out go stop = stop timeout
on_poll poll_failed go stop = stop network

-- The bytes of the request that are left. Results that run out are a connection that breaks.
unfoldable pub send_request : ℕ → List Write → AblyError
send_request left [] = if leb left 0 then success else network
send_request left (w ∷ writes) = if leb left 0 then success else (elim w [
  | write_wait p ↦ on_poll p (send_request left writes) (λ err. err)
  | write_ticket ↦ send_request left writes
  | write_failed ↦ network
  | wrote n ↦ send_request (left - n) writes
])

-- What the loop leaves: the bytes in the buffer, or an error.
pub data ReadHead : Type 0 where
  head_read : List ℕ → ReadHead
  head_error : AblyError → ReadHead

-- The loop over `mbedtls_ssl_read` until the buffer has a blank line or is full.
unfoldable pub read_head : List ℕ → List HandshakeRead → ReadHead
read_head received [] =
    if leb (handshake_buf - 1) (length received) then head_read received else head_error network
read_head received (r ∷ reads) =
    if leb (handshake_buf - 1) (length received) then head_read received else (elim r [
      | read_wait p ↦ on_poll p (read_head received reads) head_error
      | read_ticket ↦ read_head received reads
      | read_failed ↦ head_error network
      | read s ↦
          let filled = received ++ take (handshake_buf - 1 - length received) s in
          let more = read_head filled reads in
          if contains blank_line (c_string filled) then head_read filled else more
    ])

abbrev pub check_head : ReadHead → AblyError
check_head (head_read buf) = if starts_with (codes "HTTP/1.1 101") buf then success else network
check_head (head_error err) = err

abbrev pub after_request : AblyError → List HandshakeRead → AblyError
after_request success reads = check_head (read_head [] reads)
after_request err reads = err

-- `perform_websocket_upgrade_handshake`.
unfoldable pub upgrade : Transport → List ℕ → List Write → List HandshakeRead → AblyError
upgrade t random writes reads =
    let request = upgrade_request t.path t.host (websocket_key random) in
    if leb handshake_buf (length request)
    then network
    else after_request (send_request (length request) writes) reads

-- A result of `mbedtls_ssl_handshake` that is not 0.
pub data TlsStep : Type 0 where
  tls_wait : Poll → TlsStep
  tls_ticket : TlsStep
  tls_failed : TlsStep

abbrev pub is_ready : Poll → Bool
is_ready ready = true
is_ready _ = false

-- The results before the 0; the loop ends well when all of them let it go on.
unfoldable pub tls_handshake : List TlsStep → Bool
tls_handshake [] = true
tls_handshake (tls_wait p ∷ steps) = is_ready p && tls_handshake steps
tls_handshake (tls_ticket ∷ steps) = tls_handshake steps
tls_handshake (tls_failed ∷ steps) = false

-- What the network, mbedTLS and wslay answer to one `ably_ws_connect`.
pub record Attempt : Type 0 where
  pub tcp_connected : Bool
  pub ssl_set_up : Bool
  pub tls_steps : List TlsStep
  pub random : List ℕ
  pub writes : List Write
  pub reads : List HandshakeRead
  pub wslay_ready : Bool

abbrev pub reset : Transport → Transport
reset t = record t { connected = false; close_sent = false; close_received = false }

abbrev pub finish_connect : Transport → Bool → AblyError → Transport × AblyError
finish_connect t wslay_ready success =
    if wslay_ready then (record t { connected = true }, success) else (t, network)
finish_connect t wslay_ready err = (t, err)

unfoldable pub connect : Transport → Attempt → Transport × AblyError
connect t a =
    if a.tcp_connected && (a.ssl_set_up && tls_handshake a.tls_steps)
    then finish_connect (reset t) a.wslay_ready (upgrade (reset t) a.random a.writes a.reads)
    else (reset t, network)
