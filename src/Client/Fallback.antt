-- ===== src/Client/Fallback.antt =====
-- The hosts that the service thread of ably-c/src/realtime/realtime_client.c tries, and its waits.
use ably_connectors.Prelude.{
  ℕ, zero, suc, ◌+◌, ◌*◌, ◌≤◌, ◌<◌, ◌≡◌, refl, sym, ap, ◌∙◌, arith, true, false, ◌&&◌, Option, none,
  some, List, [], ◌∷◌, get_or, ltb, leb, if◌then◌else◌,
}
use ably_connectors.Types.{network, Message, ProtoFrame, Codec}
use ably_connectors.Channel.Listeners.{Listeners}
use ably_connectors.Client.State.{Client, Options}
use ably_connectors.Client.Service.{
  Outside, Turn, default_fallback_hosts, backoff_delay_ms, host_to_use, begin_attempt, lost,
  service_turn,
}
use ably_connectors.Client.Retries.{
  Retry, retry_at, retry_of, retry_of-begin_attempt, lost-again, IsAwaited, lost-IsAwaited,
}

-- A turn in which the host cannot be reached, and nobody closes the client.
abbrev pub unreachable : Outside
unreachable = record { connects = false; rounds = []; auth_result = (network, []); closing = false }

-- A host tried, and the waits after it.
abbrev pub Attempt : Type 0
Attempt = List ℕ × List ℕ

-- The primary host and the five fallbacks at once after each other, then one wait; `n` times.
unfoldable pub cycles : (scaled : ℕ → ℕ → ℕ) → Options → ℕ → ℕ → List Attempt
cycles scaled opts attempt zero = []
cycles scaled opts attempt (suc n) =
    (opts.realtime_host, [])
    ∷ (get_or default_fallback_hosts 0 [], [])
    ∷ (get_or default_fallback_hosts 1 [], [])
    ∷ (get_or default_fallback_hosts 2 [], [])
    ∷ (get_or default_fallback_hosts 3 [], [])
    ∷ (get_or default_fallback_hosts 4 [], backoff_delay_ms scaled opts attempt ∷ [])
    ∷ cycles scaled opts (attempt + 1) n

host_index :
    (opts : Options) (i : ℕ)
    → i ≤ 5
    → (if ltb 0 i && leb i 5
        then get_or (opts.realtime_host ∷ default_fallback_hosts) i []
        else opts.realtime_host)
      ≡ get_or (opts.realtime_host ∷ default_fallback_hosts) i []
host_index opts zero near = refl
host_index opts (suc i) near =
    let positive : ltb 0 (suc i) ≡ true = ground arith in
    let inside : leb (suc i) 5 ≡ true = ground (arith, near) in rw (positive, inside) refl

module _ {ℓ} {C : Type ℓ} (codec : Codec) (react : C → Message → Listeners C → Listeners C)
    (fetch : List ℕ → List ℕ → Option (List Message × List ℕ)) (decode : List ℕ → Option ProtoFrame)
    (scaled : ℕ → ℕ → ℕ) where
  abbrev pub turn : Client C → Option (Turn C)
  turn c = service_turn codec react fetch decode scaled c unreachable

  abbrev pub noted : Attempt → Option (List Attempt) → Option (List Attempt)
  noted a none = none
  noted a (some rest) = some (a ∷ rest)

  -- `n` turns in which no host can be reached; `none` where the thread ends before.
  unfoldable pub trail : ℕ → Client C → Option (List Attempt)
  trail zero c = some []
  trail (suc n) c = elim (turn c) [
    | none ↦ none
    | some t ↦ if t.goes_on then noted (host_to_use c, t.waits) (trail n t.client) else none
  ]

  turn-lost :
      (c : Client C)
      → c.close_requested ≡ false
      → turn c ≡ some (lost scaled (begin_attempt c).0 unreachable)
  unfolding service_turn
  turn-lost c live = rw live refl

  trail_step :
      (n : ℕ) (c : Client C) (t : Turn C) (host : List ℕ) (waits : List ℕ) (rest : List Attempt)
      → turn c ≡ some t
      → host_to_use c ≡ host
      → t.waits ≡ waits
      → t.goes_on ≡ true
      → trail n t.client ≡ some rest
      → trail (suc n) c ≡ some ((host, waits) ∷ rest)
  unfolding trail
  trail_step n c t host waits rest e eh ew on later = rw (e, trail, on, eh, ew, later) refl

  host_at :
      (c : Client C) (i attempt : ℕ) (opts : Options)
      → retry_of c ≡ retry_at i attempt opts
      → i ≤ 5
      → host_to_use c ≡ get_or (opts.realtime_host ∷ default_fallback_hosts) i []
  unfolding host_to_use
  host_at c i attempt opts e near =
      let index : c.current_host_idx ≡ i = ap (λ (r : Retry). r.current_host_idx) e in
      let same_opts : c.opts ≡ opts = ap (λ (r : Retry). r.opts) e in
      rw (index, same_opts) (host_index opts i near)

  trail_again :
      (n i attempt : ℕ) (opts : Options) (c : Client C) (rest : List Attempt)
      → retry_of c ≡ retry_at i attempt opts
      → i < 5
      → ((c' : Client C) → retry_of c' ≡ retry_at (i + 1) attempt opts → trail n c' ≡ some rest)
      → trail (suc n) c
        ≡ some ((get_or (opts.realtime_host ∷ default_fallback_hosts) i [], []) ∷ rest)
  trail_again n i attempt opts c rest e near later =
      let live : c.close_requested ≡ false = ap (λ (r : Retry). r.close_requested) e in
      let (waits, on, next) =
        lost-again scaled unreachable i attempt opts (begin_attempt c).0
          (retry_of-begin_attempt c ∙ e) near in
      trail_step n c _ _ _ rest (turn-lost c live)
        (host_at c i attempt opts e (omega (arith, near))) waits on (later _ next)

  trail_wraps :
      (n attempt : ℕ) (opts : Options) (c : Client C) (rest : List Attempt)
      → retry_of c ≡ retry_at 5 attempt opts
      → opts.reconnect_max_attempts ≡ 0
      → ((c' : Client C) → retry_of c' ≡ retry_at 0 (attempt + 1) opts → trail n c' ≡ some rest)
      → trail (suc n) c
        ≡ some
            ((get_or default_fallback_hosts 4 [], backoff_delay_ms scaled opts attempt ∷ []) ∷ rest)
  unfolding IsAwaited
  trail_wraps n attempt opts c rest e unlimited later =
      let live : c.close_requested ≡ false = ap (λ (r : Retry). r.close_requested) e in
      let (waits, on, next) =
        lost-IsAwaited scaled unreachable 5 attempt opts (begin_attempt c).0
          (retry_of-begin_attempt c ∙ e) refl unlimited refl in
      trail_step n c _ _ _ rest (turn-lost c live) (host_at c 5 attempt opts e (omega arith)) waits
        on (later _ next)

  six_fold : ℕ → ℕ
  six_fold zero = zero
  six_fold (suc n) = suc (suc (suc (suc (suc (suc (six_fold n))))))

  trail-six_fold :
      (n attempt : ℕ) (opts : Options) (c : Client C)
      → retry_of c ≡ retry_at 0 attempt opts
      → opts.reconnect_max_attempts ≡ 0
      → trail (six_fold n) c ≡ some (cycles scaled opts attempt n)
  unfolding cycles six_fold
  trail-six_fold zero attempt opts c e unlimited = unfold trail in refl
  trail-six_fold (suc n) attempt opts c e unlimited =
      trail_again _ 0 attempt opts c _ e (omega arith) (λ c1 e1.
        trail_again _ 1 attempt opts c1 _ e1 (omega arith) (λ c2 e2.
          trail_again _ 2 attempt opts c2 _ e2 (omega arith) (λ c3 e3.
            trail_again _ 3 attempt opts c3 _ e3 (omega arith) (λ c4 e4.
              trail_again _ 4 attempt opts c4 _ e4 (omega arith) (λ c5 e5.
                trail_wraps _ attempt opts c5 _ e5 unlimited
                  (λ c6 e6. trail-six_fold n (attempt + 1) opts c6 e6 unlimited))))))

  six_fold-mul : (n : ℕ) → six_fold n ≡ n * 6
  unfolding six_fold
  six_fold-mul zero = refl
  six_fold-mul (suc n) = omega (arith, six_fold-mul n)

  -- A client that starts with the primary host, has no limit of attempts, no token to renew and is not
  -- closed, and hosts that all stay out of reach: in `n * 6` turns the thread tries, `n` times, the
  -- primary host and the five fallbacks once each and in their order, with one wait behind the last,
  -- whose length is the delay for the number of rounds so far.
  pub trail-cycles :
      (n attempt : ℕ) (opts : Options) (c : Client C)
      → retry_of c ≡ retry_at 0 attempt opts
      → opts.reconnect_max_attempts ≡ 0
      → trail (n * 6) c ≡ some (cycles scaled opts attempt n)
  trail-cycles n attempt opts c e unlimited =
      ap (λ (k : ℕ). trail k c) (sym (six_fold-mul n)) ∙ trail-six_fold n attempt opts c e unlimited
