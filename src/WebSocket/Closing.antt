-- ===== src/WebSocket/Closing.antt =====
-- The end of a connection, ably-c/src/ws/ws_client.c.
use ably_connectors.Prelude.{
  ℕ, ◌≡◌, ◌⊎◌, refl, Bool, true, false, List, [], if◌then◌else◌, inl, inr, Bool-cases,
}
use ably_connectors.Types.{success, bad_state, network, timeout}
use ably_connectors.WebSocket.Transport.{
  Transport, Receiving, is_connected, recv_once, send_text, close, await_close, rounds_of,
}

close_answer :
    (closed : Bool)
    → ((if closed then success else timeout) ≡ success)
      ⊎ (((if closed then success else timeout) ≡ timeout) × (closed ≡ false))
close_answer true = inl refl
close_answer false = inr (refl, refl)

-- However the peer behaves: `ably_ws_close` leaves a transport that is not connected, it answers ABLY_OK
-- or, without a close frame from the peer, a timeout, and until the next connect sending text answers
-- ABLY_ERR_STATE and receiving ABLY_ERR_NETWORK, with nothing changed.
pub close-is_connected :
    (t : Transport) (timeout_ms : ℕ) (inputs : List Receiving) (queued : Bool) (sends : List Bool)
    (input : Receiving)
    → (is_connected (close t timeout_ms inputs).0 ≡ false)
      × (((close t timeout_ms inputs).1 ≡ success)
          ⊎ (((close t timeout_ms inputs).1 ≡ timeout)
              × ((close t timeout_ms inputs).0.close_received ≡ false)))
      × (send_text (close t timeout_ms inputs).0 queued sends
          ≡ ((close t timeout_ms inputs).0, bad_state))
      × (recv_once (close t timeout_ms inputs).0 input
          ≡ ((close t timeout_ms inputs).0, network, []))
unfolding close is_connected send_text recv_once
close-is_connected t timeout_ms inputs queued sends input = elim (Bool-cases t.connected) [
  | inl on ↦
      let rounds =
        await_close (rounds_of timeout_ms) (record t { connected = true; close_sent = true })
          inputs in
      rw on (refl, close_answer rounds.0.close_received, refl, refl)
  | inr off ↦ rw off (refl, inl refl, refl, refl)
]
