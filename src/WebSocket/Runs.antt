-- ===== src/WebSocket/Runs.antt =====
-- Runs of the model of ably-c/src/ws/ws_client.c.
use ably_connectors.Prelude.{ℕ, ◌≡◌, ◌⊎◌, refl, arith, true, false, List, [], ◌∷◌, ◌++◌, replicate}
use ably_connectors.Base64.{codes}
use ably_connectors.Base64
use ably_connectors.Types.{success, bad_state, network, timeout, c_string}
use ably_connectors.Channel.Delta.{starts_with, contains}
use ably_connectors.Http.Headers.{blank_line}
use ably_connectors.WebSocket.Transport.{
  Transport, Receiving, ready, close_frame, is_connected, recv_once, send_text, close,
}
use ably_connectors.WebSocket.Upgrade.{
  Attempt, wrote, read, upgrade_request, websocket_key, send_request, read_head, upgrade,
  tls_handshake, connect,
}
use ably_connectors.WebSocket.Leftover.{connect-leftover}
use ably_connectors.WebSocket.Closing.{close-is_connected}

abbrev idle : Transport
idle = record {
  connected = false;
  close_sent = false;
  close_received = false;
  host = codes "realtime.ably.io";
  path = codes "/";
}

abbrev switching : List ℕ
switching = codes "HTTP/1.1 101 Switching Protocols" ++ blank_line

abbrev attempt : Attempt
attempt = record {
  tcp_connected = true;
  ssl_set_up = true;
  tls_steps = [];
  random = replicate 16 7;
  writes = wrote 4096 ∷ [];
  reads = read switching ∷ [];
  wslay_ready = true;
}

accepted : starts_with (codes "HTTP/1.1 101") switching ≡ true
unfolding starts_with
accepted = refl

whole_head : contains blank_line (c_string switching) ≡ true
unfolding contains starts_with c_string
whole_head = refl

connected_run : (connect idle attempt).1 ≡ success
unfolding connect upgrade upgrade_request websocket_key send_request read_head tls_handshake
    contains starts_with c_string Base64.encode
connected_run = refl

connect-leftover_example :
    connect idle (record attempt { reads = read (switching ++ codes "frame") ∷ [] })
    ≡ connect idle (record attempt { reads = read switching ∷ [] })
connect-leftover_example =
    connect-leftover idle attempt switching (codes "frame") [] [] accepted whole_head (omega arith)

abbrev joined : Transport
joined = record idle { connected = true }

abbrev goodbye : Receiving
goodbye = record {
  avail = false;
  polled = ready;
  messages = (close_frame, []) ∷ [];
  went_well = true;
}

close-is_connected_example :
    (is_connected (close joined 400 (goodbye ∷ [])).0 ≡ false)
    × (((close joined 400 (goodbye ∷ [])).1 ≡ success)
        ⊎ (((close joined 400 (goodbye ∷ [])).1 ≡ timeout)
            × ((close joined 400 (goodbye ∷ [])).0.close_received ≡ false)))
    × (send_text (close joined 400 (goodbye ∷ [])).0 true []
        ≡ ((close joined 400 (goodbye ∷ [])).0, bad_state))
    × (recv_once (close joined 400 (goodbye ∷ [])).0 goodbye
        ≡ ((close joined 400 (goodbye ∷ [])).0, network, []))
close-is_connected_example = close-is_connected joined 400 (goodbye ∷ []) true [] goodbye
