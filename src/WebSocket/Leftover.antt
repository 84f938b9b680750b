-- ===== src/WebSocket/Leftover.antt =====
-- What the opening handshake of ably-c/src/ws/ws_client.c reads too much.
use ably_connectors.Prelude.{
  ℕ, ◌≤◌, ◌≡◌, refl, ap, ◌∙◌, arith, true, ◌&&◌, List, [], ◌∷◌, ◌++◌, length, length-append,
  take-length_le, leb, ◌==◌, inl, inr, Bool-cases, if◌then◌else◌,
}
use ably_connectors.Base64.{codes}
use ably_connectors.Types.{AblyError, success, network, c_string}
use ably_connectors.Channel.Delta.{starts_with, contains}
use ably_connectors.Http.Headers.{blank_line}
use ably_connectors.WebSocket.Transport.{Transport}
use ably_connectors.WebSocket.Upgrade.{
  HandshakeRead, read, head_read, read_head, check_head, after_request, upgrade, Attempt, connect,
  upgrade_request, websocket_key, send_request, finish_connect, reset, tls_handshake, handshake_buf,
}

starts_with-append :
    (word s t : List ℕ) → starts_with word s ≡ true → starts_with word (s ++ t) ≡ true
unfolding starts_with
starts_with-append [] s t h = refl
starts_with-append (x ∷ word) [] t h = absurd (cc h)
starts_with-append (x ∷ word) (y ∷ s) t h = ground (arith, starts_with-append word s t)

contains-append : (word s t : List ℕ) → contains word s ≡ true → contains word (s ++ t) ≡ true
unfolding contains
contains-append word [] [] h = h
contains-append word [] (y ∷ t) h = rw (starts_with-append word [] (y ∷ t) h) refl
contains-append word (y ∷ s) t h =
    ground (arith, starts_with-append word (y ∷ s) t, contains-append word s t)

-- What stands before the first NUL only gets longer.
c_string-append : (s t : List ℕ) → (more : List ℕ) × (c_string (s ++ t) ≡ c_string s ++ more)
unfolding c_string
c_string-append [] t = (c_string t, refl)
c_string-append (c ∷ s) t = elim (Bool-cases (c == 0)) [
  | inl nul ↦ ([], rw nul refl)
  | inr other ↦ let (more, e) = c_string-append s t in (more, rw (other, e) refl)
]

-- A first read with the whole head ends the loop.
read_head-one :
    (s : List ℕ) (later : List HandshakeRead)
    → length s ≤ 8191
    → contains blank_line (c_string s) ≡ true
    → read_head [] (read s ∷ later) ≡ head_read s
unfolding read_head
read_head-one s later fits whole = let all = take-length_le 8191 s fits in rw (all, whole) refl

after_request-same :
    (sent : AblyError) (reads others : List HandshakeRead)
    → check_head (read_head [] reads) ≡ check_head (read_head [] others)
    → after_request sent reads ≡ after_request sent others
after_request-same success reads others e = e
after_request-same _ reads others e = refl

-- A response that accepts the upgrade, with no NUL before its blank line, and bytes behind it that the
-- same read brings, such as a first frame, at most 8191 bytes in all: the connection comes out as it
-- does without them, so they are lost.
pub connect-leftover :
    (t : Transport) (a : Attempt) (head_ extra : List ℕ) (later others : List HandshakeRead)
    → starts_with (codes "HTTP/1.1 101") head_ ≡ true
    → contains blank_line (c_string head_) ≡ true
    → length (head_ ++ extra) ≤ 8191
    → connect t (record a { reads = read (head_ ++ extra) ∷ later })
      ≡ connect t (record a { reads = read head_ ∷ others })
unfolding connect upgrade
connect-leftover t a head_ extra later others accepted whole fits =
    let fits' : length head_ ≤ 8191 = omega (arith, length-append head_ extra) in
    let (more, e) = c_string-append head_ extra in
    let with_extra =
      read_head-one (head_ ++ extra) later fits
        (ap (contains blank_line) e ∙ contains-append blank_line (c_string head_) more whole) in
    let without = read_head-one head_ others fits' whole in
    let same : check_head (read_head [] (read (head_ ++ extra) ∷ later))
        ≡ check_head (read_head [] (read head_ ∷ others)) =
      rw
        (
          with_extra,
          without,
          accepted,
          starts_with-append (codes "HTTP/1.1 101") head_ extra accepted,
        )
        refl in
    let request = upgrade_request t.path t.host (websocket_key a.random) in
    let sent = send_request (length request) a.writes in
    ap
      (λ (err : AblyError).
        if a.tcp_connected && (a.ssl_set_up && tls_handshake a.tls_steps)
        then finish_connect (reset t) a.wslay_ready
            (if leb handshake_buf (length request) then network else err)
        else (reset t, network))
      (after_request-same sent (read (head_ ++ extra) ∷ later) (read head_ ∷ others) same)
