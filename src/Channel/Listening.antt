-- ===== src/Channel/Listening.antt =====
-- Who is called for a message, and what subscribing and unsubscribing do to the subscriber array of
-- ably-c/src/realtime/channel.c.
use ably_connectors.Prelude.{
  ℕ, zero, suc, ◌+◌, ◌<◌, ◌≡◌, ◌⊎◌, refl, ap, arith, true, false, Option, none, some, List, [], ◌∷◌,
  ◌++◌, length, All, get_or, take, drop, drop-get_or, drop_past, ◌==◌, if◌then◌else◌, inl, inr,
  Bool-cases, Option-cases,
}
use ably_connectors.Types.{success, invalid_arg, Message}
use ably_connectors.Channel.Listeners.{
  Listener, Listeners, passes, occupy, channel_subscribe, vacate, channel_unsubscribe, holds_token,
  dispatch_from, dispatch,
}
use native.Mathlib.Numerals.{towards_suc}

module _ {ℓ} {C : Type ℓ} where
  -- The callbacks whose subscription lets the name pass, in the order of the slots.
  unfoldable pub interested : Option (List ℕ) → List (Option (Listener C)) → List C
  interested name [] = []
  interested name (none ∷ slots) = interested name slots
  interested name (some s ∷ slots) =
      let rest = interested name slots in if passes s.name_filter name then s.cb ∷ rest else rest

  module _ (react : C → Message → Listeners C → Listeners C)
      (quiet : (cb : C) (msg : Message) (t : Listeners C) → react cb msg t ≡ t) where
    slot_here :
        (i : ℕ) (slots : List (Option (Listener C)))
        → i < length slots
        → drop i slots ≡ get_or slots i none ∷ drop (i + 1) slots
    slot_here i slots h = simp towards_suc (drop-get_or slots i none h)

    dispatch_from-interested :
        (n i : ℕ) (msg : Message) (t : Listeners C)
        → length t.slots ≡ i + n
        → dispatch_from react n i msg t ≡ (interested msg.name (drop i t.slots), t)
    unfolding dispatch_from interested
    dispatch_from-interested zero i msg t h = rw (drop_past t.slots i (omega (arith, h))) refl
    dispatch_from-interested (suc n) i msg t h =
        let here = slot_here i t.slots (omega (arith, h)) in
        let onward = dispatch_from-interested n (i + 1) msg t (omega (arith, h)) in
        elim (Option-cases (get_or t.slots i none)) [
          | inl free ↦ rw here (rw (free, dispatch_from) onward)
          | inr (s, held) ↦ elim (Bool-cases (passes s.name_filter msg.name)) [
            | inr stops ↦ rw here (rw (held, stops, dispatch_from) onward)
            | inl lets ↦
                let same : holds_token (some s) s.token ≡ true = ground arith in
                rw here (
                  rw (held, lets, dispatch_from, quiet s.cb msg t, held, same)
                    (ap (λ (r : List C × Listeners C). (s.cb ∷ r.0, r.1)) onward))
          ]
        ]

    -- Callbacks that leave the subscriber array alone: a message calls every subscriber whose filter
    -- lets its name pass, once each and in the order of the slots, and no other.
    pub dispatch-interested :
        (msg : Message) (t : Listeners C)
        → length t.slots ≡ 32
        → dispatch react msg t ≡ (interested msg.name t.slots, t)
    unfolding dispatch
    dispatch-interested msg t sized = dispatch_from-interested 32 0 msg t sized

  -- Every token given out is below the next one.
  abbrev pub IsFresh : ℕ → Option (Listener C) → Type 0
  IsFresh next none = Unit
  IsFresh next (some s) = s.token < next

  vacate_absent :
      (slots : List (Option (Listener C))) (next : ℕ)
      → All (IsFresh next) slots
      → vacate slots next ≡ none
  unfolding vacate
  vacate_absent [] next f = refl
  vacate_absent (none ∷ slots) next f = rw (vacate_absent slots next f.1) refl
  vacate_absent (some s ∷ slots) next f =
      let other : (s.token == next) ≡ false = ground (arith, f.0) in
      rw (other, vacate_absent slots next f.1) refl

  -- A slot that is taken.
  abbrev pub IsTaken : Option (Listener C) → Type 0
  IsTaken none = ⊥
  IsTaken (some s) = Unit

  -- `after` is `before` with the subscriber in the first slot that is free.
  pub record TakesFirst (before : List (Option (Listener C))) (sub : Listener C)
      (after : List (Option (Listener C))) : Type ℓ where
    pub taken : List (Option (Listener C))
    pub rest : List (Option (Listener C))
    pub full : All IsTaken taken
    pub free : before ≡ taken ++ (none ∷ rest)
    pub now : after ≡ taken ++ (some sub ∷ rest)

  occupy-cases :
      (slots : List (Option (Listener C))) (sub : Listener C)
      → All (IsFresh sub.token) slots
      → ((occupy slots sub ≡ none) × All IsTaken slots)
        ⊎ ((after : List (Option (Listener C))) × (occupy slots sub ≡ some after)
            × TakesFirst slots sub after
            × (vacate after sub.token ≡ some slots))
  unfolding occupy vacate
  occupy-cases [] sub f = inl (refl, tt)
  occupy-cases (none ∷ slots) sub f =
      let same : (sub.token == sub.token) ≡ true = ground arith in
      inr (
        some sub ∷ slots,
        refl,
        record { taken = []; rest = slots; full = tt; free = refl; now = refl },
        rw same refl,
      )
  occupy-cases (some s ∷ slots) sub f =
      let other : (s.token == sub.token) ≡ false = ground (arith, f.0) in
      elim (occupy-cases slots sub f.1) [
        | inl (full, taken) ↦ inl (rw full refl, (tt, taken))
        | inr (after, e, first, back) ↦ inr (
          some s ∷ after,
          rw e refl,
          record {
            taken = some s ∷ first.taken;
            rest = first.rest;
            full = (tt, first.full);
            free = ap (λ f. some s ∷ f) first.free;
            now = ap (λ f. some s ∷ f) first.now;
          },
          rw (other, back) refl,
        )
      ]

  -- On a table whose tokens are below the next one: where every slot is taken `subscribe` changes
  -- nothing and answers no token; else it puts the callback, with the next token and the first 255 bytes
  -- of the filter, into the first slot that is free and answers the token, `unsubscribe` with this token
  -- answers ABLY_OK and frees the slot again, and a second `unsubscribe` answers ABLY_ERR_INVALID_ARG and
  -- changes nothing.
  pub channel_subscribe-channel_unsubscribe :
      (t : Listeners C) (filter : List ℕ) (cb : C)
      → All (IsFresh t.next_token) t.slots
      → 0 < t.next_token
      → ((channel_subscribe t filter cb ≡ (t, none)) × All IsTaken t.slots)
        ⊎ (let after = (channel_subscribe t filter cb).0 in
            let undone = (channel_unsubscribe after t.next_token).0 in
            ((channel_subscribe t filter cb).1 ≡ some t.next_token)
            × TakesFirst t.slots
                (record { token = t.next_token; cb = cb; name_filter = take 255 filter })
                after.slots
            × ((channel_unsubscribe after t.next_token).1 ≡ success)
            × (undone.slots ≡ t.slots)
            × (channel_unsubscribe undone t.next_token ≡ (undone, invalid_arg)))
  unfolding channel_subscribe channel_unsubscribe
  channel_subscribe-channel_unsubscribe t filter cb fresh pos =
      let sub : Listener C = record {
        token = t.next_token;
        cb = cb;
        name_filter = take 255 filter;
      } in
      let nz : (t.next_token == 0) ≡ false = ground (arith, pos) in
      elim (occupy-cases t.slots sub fresh) [
        | inl (full, taken) ↦ inl (rw full refl, taken)
        | inr (after, e, first, back) ↦ inr (
            rw (e, nz, back)
              (refl, first, refl, refl, rw (vacate_absent t.slots t.next_token fresh) refl))
      ]
