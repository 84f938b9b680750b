-- ===== src/Hashmap/Probe.antt =====
-- The probing loops of hashmap.c: what they find, in terms of the path that they walk.
use ably_connectors.Prelude.{
  ℕ, zero, suc, ◌≤◌, ◌<◌, ◌≡◌, ◌≢◌, ◌↔◌, ◌⊎◌, inl, inr, refl, arith, true, false, Option, none,
  some, List, [], ◌∷◌, length,
}
use ably_connectors.Hashmap.{
  SlotState, empty, occupied, deleted, Hashmap, slot_at, next, same_key, strncmp_eq, key_max, hit,
  insert_at, full, reuse, put_probe, get_probe, remove_probe,
}

-- A key that a slot holds whole.
abbrev pub IsKey : List ℕ → Type 0
IsKey k = length k < key_max

pub strncmp_eq_iff :
    (n : ℕ) (a b : List ℕ) → length a ≤ n → length b ≤ n → (strncmp_eq n a b ≡ true) ↔ (a ≡ b)
unfolding strncmp_eq
strncmp_eq_iff zero [] [] h k = (λ _. refl, λ _. refl)
strncmp_eq_iff zero [] (y ∷ b) h k = absurd (omega arith)
strncmp_eq_iff zero (x ∷ a) b h k = absurd (omega arith)
strncmp_eq_iff (suc n) [] [] h k = (λ _. refl, λ _. refl)
strncmp_eq_iff (suc n) [] (y ∷ b) h k = (λ e. cc, λ e. cc)
strncmp_eq_iff (suc n) (x ∷ a) [] h k = (λ e. cc, λ e. cc)
strncmp_eq_iff (suc n) (x ∷ a) (y ∷ b) h k =
    ground (arith, strncmp_eq_iff n a b (omega arith) (omega arith))

pub same_key_iff : (a b : List ℕ) → IsKey a → IsKey b → (same_key a b ≡ true) ↔ (a ≡ b)
same_key_iff a b h k = strncmp_eq_iff 255 a b (omega arith) (omega arith)

pub SlotState-cases : (s : SlotState) → (s ≡ empty) ⊎ ((s ≡ occupied) ⊎ (s ≡ deleted))
SlotState-cases empty = inl refl
SlotState-cases occupied = inr (inl refl)
SlotState-cases deleted = inr (inr refl)

module _ {ℓ} {V : Type ℓ} (m : Hashmap V) where
  -- Within `n` probes from slot `i` the loops come to slot `p`, over slots that are not empty.
  abbrev pub Leads : ℕ → ℕ → ℕ → Type 0
  Leads zero i p = ⊥
  Leads (suc n) i p = (i ≡ p) ⊎ (((slot_at m i).state ≢ empty) × Leads n (next m i) p)

  -- Slot `p` is the one entry under the key.
  pub record IsEntry (key : List ℕ) (p : ℕ) : Type 0 where
    pub held : (slot_at m p).state ≡ occupied
    pub named : same_key (slot_at m p).key key ≡ true
    pub only :
        (i : ℕ) → (slot_at m i).state ≡ occupied → same_key (slot_at m i).key key ≡ true → i ≡ p

  -- No entry under the key.
  abbrev pub IsAbsent : List ℕ → Type 0
  IsAbsent key = (i : ℕ) → (slot_at m i).state ≡ occupied → same_key (slot_at m i).key key ≡ false

  -- Slot `p` is among the `n` slots from `i` on.
  abbrev pub Visits : ℕ → ℕ → ℕ → Type 0
  Visits zero i p = ⊥
  Visits (suc n) i p = (i ≡ p) ⊎ Visits n (next m i) p

  module _ (key : List ℕ) where
    pub get_probe-entry :
        (n i p : ℕ) → IsEntry key p → Leads n i p → get_probe m key n i ≡ (slot_at m p).value
    unfolding get_probe
    get_probe-entry zero i p e h = absurd h
    get_probe-entry (suc n) i p e (inl at) = ground (arith, e.held, e.named)
    get_probe-entry (suc n) i p e (inr (ne, on)) =
        ground (arith, e.held, e.named, e.only i, get_probe-entry n (next m i) p e on)

    pub get_probe-absent : (n i : ℕ) → IsAbsent key → get_probe m key n i ≡ none
    unfolding get_probe
    get_probe-absent zero i a = refl
    get_probe-absent (suc n) i a = ground (arith, a i, get_probe-absent n (next m i) a)

    pub remove_probe-entry :
        (n i p : ℕ) → IsEntry key p → Leads n i p → remove_probe m key n i ≡ some p
    unfolding remove_probe
    remove_probe-entry zero i p e h = absurd h
    remove_probe-entry (suc n) i p e (inl at) = ground (arith, e.held, e.named)
    remove_probe-entry (suc n) i p e (inr (ne, on)) =
        ground (arith, e.held, e.named, e.only i, remove_probe-entry n (next m i) p e on)

    pub remove_probe-absent : (n i : ℕ) → IsAbsent key → remove_probe m key n i ≡ none
    unfolding remove_probe
    remove_probe-absent zero i a = refl
    remove_probe-absent (suc n) i a = ground (arith, a i, remove_probe-absent n (next m i) a)

    pub put_probe-entry :
        (n i p : ℕ) (t : Option ℕ) → IsEntry key p → Leads n i p → put_probe m key n i t ≡ hit p
    unfolding put_probe
    put_probe-entry zero i p t e h = absurd h
    put_probe-entry (suc n) i p t e (inl at) = ground (arith, e.held, e.named)
    put_probe-entry (suc n) i p t e (inr (ne, on)) = ground (
      arith,
      e.held,
      e.named,
      e.only i,
      put_probe-entry n (next m i) p t e on,
      put_probe-entry n (next m i) p (some (reuse t i)) e on,
    )

    -- Once a tombstone is met, the entry goes there.
    put_probe-tombstone : (n i x : ℕ) → IsAbsent key → put_probe m key n i (some x) ≡ insert_at x
    unfolding put_probe
    put_probe-tombstone zero i x a = refl
    put_probe-tombstone (suc n) i x a = ground (arith, a i, put_probe-tombstone n (next m i) x a)

    -- A slot that the loop inserts at: on the path, and free.
    pub record IsFree (n i x : ℕ) : Type 0 where
      pub found : put_probe m key n i none ≡ insert_at x
      pub path : Leads n i x
      pub free : (slot_at m x).state ≢ occupied

    pub put_probe-absent :
        (n i : ℕ) → IsAbsent key → (put_probe m key n i none ≡ full) ⊎ ((x : ℕ) × IsFree n i x)
    unfolding put_probe
    put_probe-absent zero i a = inl refl
    put_probe-absent (suc n) i a = elim (SlotState-cases (slot_at m i).state) [
      | inl e ↦ inr (i, record { found = ground arith; path = inl refl; free = λ h. cc })
      | inr (inl e) ↦ elim (put_probe-absent n (next m i) a) [
        | inl f ↦ inl (ground (arith, a i))
        | inr (x, h) ↦ inr (
          x,
          record {
            found = ground (arith, a i, h.found);
            path = inr (λ c. cc, h.path);
            free = h.free;
          },
        )
      ]
      | inr (inr e) ↦ inr (
        i,
        record {
          found = ground (arith, put_probe-tombstone n (next m i) i a);
          path = inl refl;
          free = λ h. cc;
        },
      )
    ]

    pub put_probe-full :
        (n i p : ℕ)
        → put_probe m key n i none ≡ full
        → IsAbsent key
        → Visits n i p
        → (slot_at m p).state ≡ occupied
    unfolding put_probe
    put_probe-full zero i p e a v = absurd v
    put_probe-full (suc n) i p e a (inl at) =
        ground (arith, a i, put_probe-tombstone n (next m i) i a)
    put_probe-full (suc n) i p e a (inr on) =
        ground (arith, a i, put_probe-tombstone n (next m i) i a, put_probe-full n (next m i) p)
