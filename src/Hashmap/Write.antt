-- ===== src/Hashmap/Write.antt =====
-- A write to one slot of a valid hash map: what it keeps, and what `get` reads after it.
use ably_connectors.Prelude.{
  ℕ, zero, suc, ◌+◌, ◌<◌, ◌≡◌, ◌≢◌, inl, inr, refl, sym, ◌∙◌, arith, set, length-set,
  get_or-set_self, get_or-set_ne,
}
use ably_connectors.Hashmap.{empty, occupied, Slot, Hashmap, empty_slot, slot_at, next, home}
use ably_connectors.Hashmap.Probe.{IsKey, Leads}
use ably_connectors.Hashmap.Valid.{weight, occupancy-set, IsValid}
use native.Mathlib.Decide.{ℕ_discrete}

module _ {ℓ} {V : Type ℓ} where
  -- Slots that become non-empty shorten no path.
  Leads-mono :
      (m m' : Hashmap V)
      → m'.capacity ≡ m.capacity
      → ((i : ℕ) → (slot_at m i).state ≢ empty → (slot_at m' i).state ≢ empty)
      → (n i p : ℕ) → Leads m n i p
      → Leads m' n i p
  Leads-mono m m' c keep zero i p l = absurd l
  Leads-mono m m' c keep (suc n) i p (inl e) = inl e
  Leads-mono m m' c keep (suc n) i p (inr (ne, l)) =
      inr (keep i ne, rw same_next (Leads-mono m m' c keep n (next m i) p l))
    where
      same_next : next m' i ≡ next m i
      same_next = unfold next in rw c

  abbrev pub write : Hashmap V → ℕ → Slot V → ℕ → Hashmap V
  write m x s count = record m { slots = set m.slots x s; count = count }

  -- What an occupied slot `s` may be written at `x` for.
  pub record Fits (m : Hashmap V) (x : ℕ) (s : Slot V) : Type ℓ where
    pub short : IsKey s.key
    pub path : Leads m m.capacity (home m s.key) x
    pub fresh : (i : ℕ) → i ≢ x → (slot_at m i).state ≡ occupied → (slot_at m i).key ≢ s.key

  module _ {m : Hashmap V} (v : IsValid m) (x : ℕ) (s : Slot V) (count : ℕ)
      (inside : x < m.capacity) where
    pub slot_at-write_self : slot_at (write m x s count) x ≡ s
    slot_at-write_self = get_or-set_self m.slots x s empty_slot (omega (arith, v.sized))

    pub slot_at-write_ne : (i : ℕ) → i ≢ x → slot_at (write m x s count) i ≡ slot_at m i
    slot_at-write_ne i ne = get_or-set_ne m.slots x i s empty_slot (λ e. ne (sym e))

    module _ (full : s.state ≢ empty) (fits : s.state ≡ occupied → Fits m x s)
        (counted : count + weight (slot_at m x) ≡ m.count + weight s) where
      -- The paths of the old map are paths of the new one.
      path_kept : (n i p : ℕ) → Leads m n i p → Leads (write m x s count) n i p
      path_kept = Leads-mono m (write m x s count) refl keep
        where
          keep :
              (i : ℕ) → (slot_at m i).state ≢ empty → (slot_at (write m x s count) i).state ≢ empty
          keep i ne = elim (ℕ_discrete i x) [
            | yes e ↦ rw (e, slot_at-write_self) full
            | no d ↦ rw (slot_at-write_ne i d) ne
          ]

      keyed_after :
          (i : ℕ)
          → (slot_at (write m x s count) i).state ≡ occupied
          → IsKey (slot_at (write m x s count) i).key
            × Leads (write m x s count) m.capacity (home m (slot_at (write m x s count) i).key) i
      keyed_after i h = elim (ℕ_discrete i x) [
        | yes e ↦
            let f = fits (rw (e, slot_at-write_self) at h) in
            rw (e, slot_at-write_self) (f.short, path_kept _ _ _ f.path)
        | no d ↦
            let h' = rw (slot_at-write_ne i d) at h in
            rw (slot_at-write_ne i d) (v.keyed i h', path_kept _ _ _ (v.reachable i h'))
      ]

      clash :
          (i j : ℕ)
          → i ≡ x
          → j ≢ x
          → (slot_at (write m x s count) i).state ≡ occupied
          → (slot_at (write m x s count) j).state ≡ occupied
          → (slot_at (write m x s count) i).key ≢ (slot_at (write m x s count) j).key
      clash i j ei dj hi hj e =
          (fits (rw (ei, slot_at-write_self) at hi)).fresh j dj (rw (slot_at-write_ne j dj) at hj)
            (sym (rw (ei, slot_at-write_self, slot_at-write_ne j dj) at e))

      unique_after :
          (i j : ℕ)
          → (slot_at (write m x s count) i).state ≡ occupied
          → (slot_at (write m x s count) j).state ≡ occupied
          → (slot_at (write m x s count) i).key ≡ (slot_at (write m x s count) j).key
          → i ≡ j
      unique_after i j hi hj e = elim (ℕ_discrete i x) [
        | yes ei ↦ elim (ℕ_discrete j x) [
          | yes ej ↦ ei ∙ sym ej
          | no dj ↦ absurd (clash i j ei dj hi hj e)
        ]
        | no di ↦ elim (ℕ_discrete j x) [
          | yes ej ↦ absurd (clash j i ej di hj hi (sym e))
          | no dj ↦
              v.unique i j (rw (slot_at-write_ne i di) at hi) (rw (slot_at-write_ne j dj) at hj)
                (rw (slot_at-write_ne i di, slot_at-write_ne j dj) at e)
        ]
      ]

      pub write-IsValid : IsValid (write m x s count)
      write-IsValid = record {
        bits = v.bits;
        power = v.power;
        sized = length-set m.slots x s ∙ v.sized;
        counted = omega (arith, v.sized, v.counted, occupancy-set m.slots x s);
        keyed = λ i h. (keyed_after i h).0;
        reachable = λ i h. unfold home in (keyed_after i h).1;
        unique = unique_after;
      }
