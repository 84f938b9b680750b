-- ===== src/Realtime/Subscribed.antt =====
-- Who is told after `ably_presence_subscribe` and `ably_presence_unsubscribe` of
-- ably-c/src/realtime/presence.c.
use ably_connectors.Prelude.{
  ℕ, zero, suc, ◌+◌, ◌^◌, ◌<◌, ◌≡◌, refl, ap, ◌∙◌, arith, true, false, none, some, List, [], ◌∷◌,
  ◌++◌, All, replicate, ltb, ◌==◌, inl, inr, Bool-cases, Option-cases, ◌⊎◌,
}
use ably_connectors.Realtime.Subscribers.{
  Entry, Subscribers, free_entry, place, subscribe, release, unsubscribe, bump, call, notified,
  start,
}

module _ {ℓ} {C : Type ℓ} where
  -- A free entry holds no callback, and no token has been given out that is still to come.
  abbrev pub IsClean : ℕ → Entry C → Type ℓ
  IsClean next e = (e.token < next) × (e.token ≡ 0 → e ≡ free_entry)

  pub record IsValid (s : Subscribers C) : Type ℓ where
    pub clean : All (IsClean s.next_token) s.entries
    pub positive : 0 < s.next_token

  -- The table `es'` after the callback `cb` has taken an entry of `es` with the token `next`.
  record Places (es : List (Entry C)) (cb : C) (next : ℕ) (es' : List (Entry C)) : Type ℓ where
    before : List C
    after : List C
    told : notified es ≡ before ++ after
    told_now : notified es' ≡ before ++ (cb ∷ after)
    undone : release es' next ≡ some es

  notified-call :
      (e : Entry C) (es : List (Entry C))
      → (e.token == 0) ≡ false
      → notified (e ∷ es) ≡ call e.sub (notified es)
  unfolding notified
  notified-call e es nz = let t : ltb 0 e.token ≡ true = ground arith in rw t refl

  take_free :
      (e : Entry C) (es : List (Entry C)) (cb : C) (next : ℕ)
      → 0 < next
      → e ≡ free_entry
      → Places (e ∷ es) cb next (record { sub = some cb; token = next } ∷ es)
  unfolding notified release
  take_free e es cb next pos free =
      let t : ltb 0 next ≡ true = ground arith in
      let same : (next == next) ≡ true = ground arith in
      record {
        before = [];
        after = notified es;
        told = rw free refl;
        told_now = rw t refl;
        undone = rw (same, free) refl;
      }

  go_past :
      (e : Entry C) (es es' : List (Entry C)) (cb : C) (next : ℕ)
      → (e.token == 0) ≡ false
      → e.token < next
      → Places es cb next es'
      → Places (e ∷ es) cb next (e ∷ es')
  go_past e es es' cb next nz below p =
      let other : (e.token == next) ≡ false = ground arith in
      let undone : release (e ∷ es') next ≡ some (e ∷ es) =
        unfold release in rw (other, p.undone) refl in
      elim (Option-cases e.sub) [
        | inl silent ↦ record {
          before = p.before;
          after = p.after;
          told = notified-call e es nz ∙ rw silent p.told;
          told_now = notified-call e es' nz ∙ rw silent p.told_now;
          undone = undone;
        }
        | inr (x, sounds) ↦ record {
          before = x ∷ p.before;
          after = p.after;
          told = notified-call e es nz ∙ rw sounds (ap (λ cs. x ∷ cs) p.told);
          told_now = notified-call e es' nz ∙ rw sounds (ap (λ cs. x ∷ cs) p.told_now);
          undone = undone;
        }
      ]

  place-Places :
      (es : List (Entry C)) (cb : C) (next : ℕ)
      → 0 < next
      → All (IsClean next) es
      → (place es cb next ≡ none)
        ⊎ ((es' : List (Entry C)) × (place es cb next ≡ some es') × Places es cb next es')
  unfolding place
  place-Places [] cb next pos clean = inl refl
  place-Places (e ∷ es) cb next pos clean = elim (Bool-cases (e.token == 0)) [
    | inl z ↦ inr (
      record { sub = some cb; token = next } ∷ es,
      rw z refl,
      take_free e es cb next pos (clean.0.1 (ground arith)),
    )
    | inr nz ↦ elim (place-Places es cb next pos clean.1) [
      | inl full ↦ inl (rw (nz, full) refl)
      | inr (es', f, p) ↦ inr (e ∷ es', rw (nz, f) refl, go_past e es es' cb next nz clean.0.0 p)
    ]
  ]

  -- `subscribe` either answers 0 and changes nothing, or it answers a positive token, and from then on
  -- the new callback is told besides those that were told before; `unsubscribe` with the token undoes
  -- it.
  pub subscribe-unsubscribe :
      (s : Subscribers C) (cb : C)
      → IsValid s
      → (subscribe s cb ≡ (s, 0))
        ⊎ ((0 < (subscribe s cb).1)
            × ((before : List C) × (after : List C) × (notified s.entries ≡ before ++ after)
                × (notified (subscribe s cb).0.entries ≡ before ++ (cb ∷ after)))
            × ((unsubscribe (subscribe s cb).0 (subscribe s cb).1).entries ≡ s.entries)
            × ((unsubscribe (subscribe s cb).0 (subscribe s cb).1).sub_count ≡ s.sub_count))
  unfolding subscribe unsubscribe
  subscribe-unsubscribe s cb v = elim (place-Places s.entries cb s.next_token v.positive v.clean) [
    | inl full ↦ inl (rw full refl)
    | inr (es', f, p) ↦
        let nz : (s.next_token == 0) ≡ false = ground (arith, v.positive) in
        inr (
          rw (f, nz, p.undone)
            (v.positive, (p.before, p.after, p.told, p.told_now), refl, omega arith))
  ]

  later-IsClean :
      (es : List (Entry C)) (next : ℕ) → All (IsClean next) es → All (IsClean (next + 1)) es
  later-IsClean [] next clean = tt
  later-IsClean (e ∷ es) next clean =
      ((omega (arith, clean.0.0), clean.0.1), later-IsClean es next clean.1)

  place-IsClean :
      (es : List (Entry C)) (cb : C) (next : ℕ) (es' : List (Entry C))
      → 0 < next
      → All (IsClean next) es
      → place es cb next ≡ some es'
      → All (IsClean (next + 1)) es'
  unfolding place
  place-IsClean [] cb next es' pos clean f = cc
  place-IsClean (e ∷ es) cb next es' pos clean f = elim (Bool-cases (e.token == 0)) [
    | inl z ↦
        let here : record { sub = some cb; token = next } ∷ es ≡ es' = cc (rw z at f) in
        rw (← here)
          ((omega arith, λ zero_token. absurd (omega arith)), later-IsClean es next clean.1)
    | inr nz ↦ elim (Option-cases (place es cb next)) [
      | inl full ↦ cc (rw (nz, full) at f)
      | inr (rest, found) ↦
          let here : e ∷ rest ≡ es' = cc (rw (nz, found) at f) in
          rw (← here)
            ((omega (arith, clean.0.0), clean.0.1), place-IsClean es cb next rest pos clean.1 found)
    ]
  ]

  release-IsClean :
      (es : List (Entry C)) (token next : ℕ) (es' : List (Entry C))
      → 0 < next
      → All (IsClean next) es
      → release es token ≡ some es'
      → All (IsClean next) es'
  unfolding release
  release-IsClean [] token next es' pos clean f = cc
  release-IsClean (e ∷ es) token next es' pos clean f = elim (Bool-cases (e.token == token)) [
    | inl z ↦
        let here : free_entry ∷ es ≡ es' = cc (rw z at f) in rw (← here) ((pos, λ _. refl), clean.1)
    | inr nz ↦ elim (Option-cases (release es token)) [
      | inl absent ↦ cc (rw (nz, absent) at f)
      | inr (rest, found) ↦
          let here : e ∷ rest ≡ es' = cc (rw (nz, found) at f) in
          rw (← here) (clean.0, release-IsClean es token next rest pos clean.1 found)
    ]
  ]

  -- A valid table whose next token is below 2^31 - 1 stays valid under `subscribe`, and any
  -- valid table stays valid under `unsubscribe`.
  pub subscribe-IsValid :
      (s : Subscribers C) (cb : C) (token : ℕ)
      → s.next_token + 1 < 2 ^ 31
      → IsValid s
      → IsValid (subscribe s cb).0 × IsValid (unsubscribe s token)
  subscribe-IsValid s cb token few v = (entered, left)
    where
      entered : IsValid (subscribe s cb).0
      entered =
          unfold subscribe in
          elim (Option-cases (place s.entries cb s.next_token)) [
            | inl full ↦ rw full v
            | inr (es', f) ↦
                let counts : bump s.next_token ≡ s.next_token + 1 = ground arith in
                rw (f, counts)
                  record {
                    clean = place-IsClean s.entries cb s.next_token es' v.positive v.clean f;
                    positive = omega arith;
                  }
          ]

      left : IsValid (unsubscribe s token)
      left =
          unfold unsubscribe in
          elim (Bool-cases (token == 0)) [
            | inl z ↦ rw z v
            | inr nz ↦ elim (Option-cases (release s.entries token)) [
              | inl absent ↦ rw (nz, absent) v
              | inr (es', f) ↦
                  rw (nz, f)
                    record {
                      clean = release-IsClean s.entries token s.next_token es' v.positive v.clean f;
                      positive = v.positive;
                    }
            ]
          ]

All-free_entry {ℓ} : (C : Type ℓ) (n : ℕ) → All (IsClean 1) (replicate n (free_entry {C = C}))
All-free_entry C zero = tt
All-free_entry C (suc n) = ((omega arith, λ _. refl), All-free_entry C n)

pub start-IsValid {ℓ} : (C : Type ℓ) → IsValid (start {C = C})
unfolding start
start-IsValid C = record { clean = All-free_entry C 16; positive = omega arith }
