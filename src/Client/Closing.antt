-- ===== src/Client/Closing.antt =====
-- How the connection of ably-c/src/realtime/realtime_client.c ends: `rt_dispatch_frame` at a fatal
-- ERROR frame, and the event loop of the service thread after it; and the delay of the backoff.
use ably_connectors.Prelude.{
  ℕ, ◌≤◌, ◌≡◌, refl, ap, arith, true, false, ◌&&◌, Option, some, List, ◌∷◌, ◌++◌,
}
use ably_connectors.Types.{success, auth, closed, failed, Message, ProtoFrame, Codec}
use ably_connectors.Channel.Listeners.{Listeners}
use ably_connectors.Channel.Receive.{error_of}
use ably_connectors.Client.State.{Client, Options, rt_set_state_locked}
use ably_connectors.Client.Dispatch.{is_token_error, is_fatal_error, send_if, connection_error}
use ably_connectors.Client.Service.{Round, backoff_delay_ms, event_loop}
use ably_connectors.Client.Retries.{rt_set_state_locked-moved}

-- A delay of at least one millisecond and at most the limit, which is not 0.
pub backoff_delay_ms-bounds :
    (scaled : ℕ → ℕ → ℕ) (opts : Options) (attempt : ℕ)
    → 1 ≤ opts.reconnect_max_delay_ms
    → (1 ≤ backoff_delay_ms scaled opts attempt)
      × (backoff_delay_ms scaled opts attempt ≤ opts.reconnect_max_delay_ms)
unfolding backoff_delay_ms
backoff_delay_ms-bounds scaled opts attempt h = ground (arith, h)

module _ {ℓ} {C : Type ℓ} where
  event_loop-closes :
      (codec : Codec) (react : C → Message → Listeners C → Listeners C)
      (fetch : List ℕ → List ℕ → Option (List Message × List ℕ))
      (decode : List ℕ → Option ProtoFrame) (c : Client C) (round : Round) (rounds : List Round)
      → c.close_requested ≡ true
      → event_loop codec react fetch decode c (round ∷ rounds)
        ≡ some (rt_set_state_locked (send_if c codec.encode_close) closed success)
  unfolding event_loop
  event_loop-closes codec react fetch decode c round rounds e = rw e refl

  -- A fatal ERROR frame that no token renewal can mend: the client is FAILED, with the error of the
  -- frame and a close requested; the next pass of the event loop leaves it CLOSED.
  pub connection_error-event_loop :
      (codec : Codec) (react : C → Message → Listeners C → Listeners C)
      (fetch : List ℕ → List ℕ → Option (List Message × List ℕ))
      (decode : List ℕ → Option ProtoFrame) (c : Client C) (frame : ProtoFrame) (round : Round)
      (rounds : List Round)
      → is_fatal_error frame.error_code ≡ true
      → (is_token_error frame.error_code && c.opts.has_auth_cb) ≡ false
      → let down = connection_error c frame in
        (down.state ≡ failed)
        × (down.last_error ≡ error_of frame)
        × (c' : Client C) × (event_loop codec react fetch decode down (round ∷ rounds) ≡ some c')
        × (c'.state ≡ closed)
  connection_error-event_loop codec react fetch decode c frame round rounds fatal lasting =
      let (effects, e) =
        rt_set_state_locked-moved (record c { last_error = error_of frame }) failed auth in
      let whole : connection_error c frame ≡ record c {
        last_error = error_of frame;
        state = failed;
        effects = c.effects ++ effects;
        close_requested = true;
      } =
        unfold connection_error in
        rw (fatal, lasting) (ap (λ (x : Client C). record x { close_requested = true }) e) in
      rw whole (
        refl,
        refl,
        _,
        event_loop-closes codec react fetch decode _ round rounds refl,
        ap (λ (x : Client C). x.state) (rt_set_state_locked-moved _ closed success).1,
      )
