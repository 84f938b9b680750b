-- ===== src/Client/Retries.antt =====
-- What a turn of the service thread of ably-c/src/realtime/realtime_client.c does where the connection
-- fails: the part of the client that decides on the next attempt.
use ably_connectors.Prelude.{
  ℕ, ◌+◌, ◌<◌, ◌≡◌, refl, sym, ap, ◌∙◌, arith, append-nil, Bool, true, false, List, [], ◌∷◌, ◌++◌,
  leb, inl, inr, Bool-cases,
}
use mathlib.Core.Path.{ap₂, subst}
use ably_connectors.Types.{
  AblyError, success, network, ConnectionState, initialized, connecting, connected, disconnected,
  suspended, closing, closed, failed,
}
use ably_connectors.Channel.Site.{Channel, Site, on_disconnect}
use ably_connectors.Client.State.{
  Client, Options, Effect, conn_changed, same_conn_state, rt_set_state_locked, each_channel,
  disconnect_channels,
}
use ably_connectors.Client.Service.{
  Outside, Turn, backoff_delay_ms, begin_attempt, refresh_token, next_host, suspend_if, back_off,
  retried, lost,
}

same_conn_state_sound : (a b : ConnectionState) → same_conn_state a b ≡ true → a ≡ b
same_conn_state_sound initialized initialized e = refl
same_conn_state_sound connecting connecting e = refl
same_conn_state_sound connected connected e = refl
same_conn_state_sound disconnected disconnected e = refl
same_conn_state_sound suspended suspended e = refl
same_conn_state_sound closing closing e = refl
same_conn_state_sound closed closed e = refl
same_conn_state_sound failed failed e = refl
same_conn_state_sound _ _ e = absurd (cc e)

-- The fields that decide on the next attempt.
pub record Retry : Type 0 where
  pub close_requested : Bool
  pub need_token_refresh : Bool
  pub skip_backoff : Bool
  pub current_host_idx : ℕ
  pub reconnect_attempt : ℕ
  pub opts : Options

-- No close, no token renewal and no token just renewed.
abbrev pub retry_at : ℕ → ℕ → Options → Retry
retry_at i attempt opts = record {
  close_requested = false;
  need_token_refresh = false;
  skip_backoff = false;
  current_host_idx = i;
  reconnect_attempt = attempt;
  opts = opts;
}

module _ {ℓ} {C : Type ℓ} where
  abbrev pub retry_of : Client C → Retry
  retry_of c = record {
    close_requested = c.close_requested;
    need_token_refresh = c.need_token_refresh;
    skip_backoff = c.skip_backoff;
    current_host_idx = c.current_host_idx;
    reconnect_attempt = c.reconnect_attempt;
    opts = c.opts;
  }

  pub rt_set_state_locked-moved :
      (c : Client C) (new_state : ConnectionState) (reason : AblyError)
      → (effects : List Effect) × (rt_set_state_locked c new_state reason
          ≡ record c { state = new_state; effects = c.effects ++ effects })
  unfolding rt_set_state_locked
  rt_set_state_locked-moved c new_state reason =
      elim (Bool-cases (same_conn_state c.state new_state)) [
        | inl same ↦ (
          [],
          rw same (
              ap₂
                (λ (st : ConnectionState) (effects : List Effect). record c {
                  state = st;
                  effects = effects;
                })
                (same_conn_state_sound c.state new_state same) (sym (append-nil c.effects))),
        )
        | inr moves ↦ elim (Bool-cases c.has_conn_state_cb) [
          | inl set ↦ (conn_changed new_state c.state reason ∷ [], rw (moves, set) refl)
          | inr unset ↦ ([], rw (moves, unset, append-nil c.effects) refl)
        ]
      ]

  retry_of-set_state :
      (c : Client C) (new_state : ConnectionState) (reason : AblyError)
      → retry_of (rt_set_state_locked c new_state reason) ≡ retry_of c
  retry_of-set_state c new_state reason =
      ap retry_of (rt_set_state_locked-moved c new_state reason).1

  retry_of-each_channel :
      (operate : Site C → Site C) (chs : List (Channel C)) (c : Client C)
      → retry_of (each_channel operate c chs) ≡ retry_of c
  unfolding each_channel
  retry_of-each_channel operate [] c = refl
  retry_of-each_channel operate (ch ∷ chs) c = retry_of-each_channel operate chs _

  pub retry_of-begin_attempt : (c : Client C) → retry_of (begin_attempt c).0 ≡ retry_of c
  unfolding begin_attempt
  retry_of-begin_attempt c = retry_of-set_state c connecting success

  -- The client that has lost its connection, before the next host is chosen.
  abbrev pub torn_down : Client C → Client C
  torn_down c = disconnect_channels (rt_set_state_locked c disconnected network)

  retry_of-torn_down : (c : Client C) → retry_of (torn_down c) ≡ retry_of c
  unfolding disconnect_channels
  retry_of-torn_down c =
      retry_of-each_channel on_disconnect _ _ ∙ retry_of-set_state c disconnected network

  next_host-again :
      (d : Client C) (i : ℕ)
      → d.current_host_idx ≡ i
      → i < 5
      → next_host d ≡ (record d { current_host_idx = i + 1 }, true)
  unfolding next_host
  next_host-again d i e h =
      let near : leb i 5 ≡ true = ground (arith, h) in
      let left : leb (i + 1) 5 ≡ true = ground (arith, h) in rw (e, near, left) refl

  next_host-wraps :
      (d : Client C)
      → d.current_host_idx ≡ 5
      → next_host d ≡ (record d { current_host_idx = 0 }, false)
  unfolding next_host
  next_host-wraps d e = rw e refl

  refresh_token-idle :
      (d : Client C) (auth_result : AblyError × List ℕ)
      → d.need_token_refresh ≡ false
      → refresh_token d auth_result ≡ d
  refresh_token-idle d auth_result e = rw e refl

  suspend_if-unlimited : (d : Client C) → d.opts.reconnect_max_attempts ≡ 0 → suspend_if d ≡ (d, [])
  unfolding suspend_if
  suspend_if-unlimited d e = rw e refl

  unfoldable pub IsAwaited : (scaled : ℕ → ℕ → ℕ) → ℕ → Options → Turn C → Type 0
  IsAwaited scaled attempt opts t =
      (t.waits ≡ backoff_delay_ms scaled opts attempt ∷ [])
      × (t.goes_on ≡ true)
      × (retry_of t.client ≡ retry_at 0 (attempt + 1) opts)

  back_off-IsAwaited :
      (scaled : ℕ → ℕ → ℕ) (d : Client C) (attempt : ℕ) (opts : Options)
      → retry_of d ≡ retry_at 0 attempt opts
      → IsAwaited scaled attempt opts (back_off scaled d [] false)
  unfolding back_off IsAwaited
  back_off-IsAwaited scaled d attempt opts e =
      let fresh : d.skip_backoff ≡ false = ap (λ (r : Retry). r.skip_backoff) e in
      let on : d.close_requested ≡ false = ap (λ (r : Retry). r.close_requested) e in
      let same_opts : d.opts ≡ opts = ap (λ (r : Retry). r.opts) e in
      let count : d.reconnect_attempt ≡ attempt = ap (λ (r : Retry). r.reconnect_attempt) e in
      let none_due : d.need_token_refresh ≡ false = ap (λ (r : Retry). r.need_token_refresh) e in
      let primary : d.current_host_idx ≡ 0 = ap (λ (r : Retry). r.current_host_idx) e in
      rw (fresh, on, same_opts, count, none_due, primary) (refl, refl, refl)

  retried-IsAwaited :
      (scaled : ℕ → ℕ → ℕ) (d : Client C) (attempt : ℕ) (opts : Options)
      → retry_of d ≡ retry_at 0 attempt opts
      → opts.reconnect_max_attempts ≡ 0
      → IsAwaited scaled attempt opts (retried scaled false (d, false))
  retried-IsAwaited scaled d attempt opts e unlimited =
      let same_opts : d.opts ≡ opts = ap (λ (r : Retry). r.opts) e in
      subst
        (λ (x : Client C × List ℕ). IsAwaited scaled attempt opts (back_off scaled x.0 x.1 false))
        (sym (
          suspend_if-unlimited d
            (ap (λ (o : Options). o.reconnect_max_attempts) same_opts ∙ unlimited)))
        (back_off-IsAwaited scaled d attempt opts e)

  module _ (scaled : ℕ → ℕ → ℕ) (outside : Outside) (i attempt : ℕ) (opts : Options) (c : Client C)
      (e : retry_of c ≡ retry_at i attempt opts) where
    chosen : next_host (refresh_token (torn_down c) outside.auth_result) ≡ next_host (torn_down c)
    chosen = ap next_host (
        refresh_token-idle (torn_down c) outside.auth_result
          (ap (λ (r : Retry). r.need_token_refresh) (retry_of-torn_down c ∙ e)))

    index_down : (torn_down c).current_host_idx ≡ i
    index_down = ap (λ (r : Retry). r.current_host_idx) (retry_of-torn_down c ∙ e)

    -- While a fallback host is left, it is tried at once.
    pub lost-again :
        i < 5
        → ((lost scaled c outside).waits ≡ [])
          × ((lost scaled c outside).goes_on ≡ true)
          × (retry_of (lost scaled c outside).client ≡ retry_at (i + 1) attempt opts)
    unfolding lost
    lost-again h = rw (chosen ∙ next_host-again (torn_down c) i index_down h) (
      refl,
      refl,
      ap (λ (r : Retry). record r { current_host_idx = i + 1 }) (retry_of-torn_down c ∙ e),
    )

    -- After the last one the primary host is next, behind one wait.
    pub lost-IsAwaited :
        i ≡ 5
        → opts.reconnect_max_attempts ≡ 0
        → outside.closing ≡ false
        → IsAwaited scaled attempt opts (lost scaled c outside)
    unfolding lost
    lost-IsAwaited last unlimited stays =
        rw (chosen ∙ next_host-wraps (torn_down c) (index_down ∙ last), stays)
          (retried-IsAwaited scaled (record (torn_down c) { current_host_idx = 0 }) attempt opts
            (ap (λ (r : Retry). record r { current_host_idx = 0 }) (retry_of-torn_down c ∙ e))
            unlimited)
