-- ===== src/WebSocket/Transport.antt =====
-- The state of `ably_ws_client_s` and its operations after the connection, ably-c/src/ws/ws_client.c.
-- mbedTLS, wslay, `poll` and the clock are inputs: what they answer is given call by call.
use ably_connectors.Prelude.{
  ℕ, zero, suc, ◌+◌, ◌-◌, ◌/◌, Bool, true, false, not, ◌&&◌, ◌||◌, Option, none, some, List, [],
  ◌∷◌, ◌++◌, take, ltb, if◌then◌else◌,
}
use ably_connectors.Types.{AblyError, success, bad_state, network, timeout}

-- The flags and the names of the connection.
pub record Transport : Type 0 where
  pub connected : Bool
  pub close_sent : Bool
  pub close_received : Bool
  pub host : List ℕ
  pub path : List ℕ

-- What `poll` answers.
pub data Poll : Type 0 where
  ready timed_out poll_failed : Poll

-- The opcode of a message that wslay hands over.
pub data Opcode : Type 0 where
  close_frame text_frame binary_frame other_frame : Opcode

abbrev pub recv_buf_size : ℕ
recv_buf_size = 131072

-- The flag, and the bytes that `on_frame` is called with.
abbrev pub handed : List ℕ → Option (List ℕ)
handed [] = none
handed (c ∷ msg) = some (take (recv_buf_size - 1) (c ∷ msg))

unfoldable pub message_received : Transport → Opcode → List ℕ → Transport × Option (List ℕ)
message_received t close_frame msg = (record t { close_received = true }, none)
message_received t text_frame msg = (t, handed msg)
message_received t binary_frame msg = (t, handed msg)
message_received t other_frame msg = (t, none)

-- The messages that one call of `wslay_event_recv` hands over, and the frames for the client.
unfoldable pub messages_received : Transport → List (Opcode × List ℕ) → Transport × List (List ℕ)
messages_received t [] = (t, [])
messages_received t ((opcode, msg) ∷ more) =
    let (t', frame) = message_received t opcode msg in
    let (last, frames) = messages_received t' more in
    (last, elim frame [ none ↦ frames | some f ↦ f ∷ frames ])

unfoldable pub is_connected : Transport → Bool
is_connected t = t.connected && not t.close_received

-- One call of `ably_ws_recv_once`: whether TLS has bytes already, what `poll` answers, the messages
-- that wslay hands over, and whether its result is 0 or WOULDBLOCK.
pub record Receiving : Type 0 where
  pub avail : Bool
  pub polled : Poll
  pub messages : List (Opcode × List ℕ)
  pub went_well : Bool

abbrev pub Received : Type 0
Received = Transport × AblyError × List (List ℕ)

abbrev pub receive_events : Transport → Receiving → Received
receive_events t r =
    let (t', frames) = messages_received t r.messages in
    if r.went_well
    then (t', success, frames)
    else (record t' { connected = false }, network, frames)

abbrev pub poll_then : Transport → Receiving → Poll → Received
poll_then t r ready = receive_events t r
poll_then t r timed_out = (t, success, [])
poll_then t r poll_failed = (record t { connected = false }, network, [])

unfoldable pub recv_once : Transport → Receiving → Received
recv_once t r =
    if not t.connected
    then (t, network, [])
    else if t.close_received
    then (t, network, [])
    else if r.avail
    then receive_events t r
    else poll_then t r r.polled

-- The results of `wslay_event_send`, one for each round in which wslay wants to write.
unfoldable pub flush : Transport → List Bool → Transport × AblyError
flush t [] = (t, success)
flush t (true ∷ sends) = flush t sends
flush t (false ∷ sends) = (record t { connected = false }, network)

-- `ably_ws_send_text`, with the result of queueing and those of sending.
unfoldable pub send_text : Transport → Bool → List Bool → Transport × AblyError
send_text t queued sends =
    if not t.connected || t.close_sent
    then (t, bad_state)
    else if queued
    then flush t sends
    else (t, network)

-- The loop of `ably_ws_close` that waits for the close frame of the peer: `deadline_ms` in steps of
-- 200 ms. Inputs that run out are further timeouts.
unfoldable pub await_close : ℕ → Transport → List Receiving → Transport × List (List ℕ)
await_close zero t inputs = (t, [])
await_close (suc rounds) t [] = (t, [])
await_close (suc rounds) t (r ∷ inputs) =
    let (t', err, frames) = recv_once t r in
    let (last, more) = await_close rounds t' inputs in
    if t.close_received then (t, []) else (last, frames ++ more)

abbrev pub rounds_of : ℕ → ℕ
rounds_of timeout_ms = ((if ltb 0 timeout_ms then timeout_ms else 5000) + 199) / 200

-- `ably_ws_close`.
unfoldable pub close : Transport → ℕ → List Receiving → Received
close t timeout_ms inputs =
    let (t', frames) = await_close (rounds_of timeout_ms) (record t { close_sent = true }) inputs in
    if t.connected
    then (record t' { connected = false }, if t'.close_received then success else timeout, frames)
    else (t, success, [])

-- `ably_ws_client_set_path` and `ably_ws_client_set_host`, with arrays of 1024 and of 256 bytes.
unfoldable pub set_path : Transport → List ℕ → Transport
set_path t path = record t { path = take 1023 path }

unfoldable pub set_host : Transport → List ℕ → Transport
set_host t host = record t { host = take 255 host }
