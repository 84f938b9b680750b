-- ===== src/Hashmap/Iterate.antt =====
-- `ably_hashmap_iter_next` of ably-c/src/hashmap.c, called until it finds no entry.
use ably_connectors.Prelude.{
  ℕ, zero, suc, ◌+◌, ◌-◌, ◌≤◌, ◌<◌, ◌≡◌, inl, inr, refl, sym, ap, ◌∙◌, arith, Option, none, some,
  List, [], ◌∷◌, length, drop, drop-get_or, drop_past,
}
use ably_connectors.Hashmap.{
  empty, occupied, deleted, Slot, Hashmap, empty_slot, slot_at, iter_next_from, iter_next,
}
use ably_connectors.Hashmap.Probe.{SlotState-cases}
use ably_connectors.Hashmap.Valid.{IsValid}
use native.Mathlib.Numerals.{towards_suc}

module _ {ℓ} {V : Type ℓ} where
  -- The occupied slots, in the order of the array.
  unfoldable pub live : List (Slot V) → List (List ℕ × Option V)
  live [] = []
  live (s ∷ slots) =
      let rest = live slots in
      elim (s.state) [ empty ↦ rest | occupied ↦ (s.key, s.value) ∷ rest | deleted ↦ rest ]

  -- What calls of `ably_hashmap_iter_next` from the position `index` find, with `n` calls at most.
  unfoldable pub collect : ℕ → Hashmap V → ℕ → List (List ℕ × Option V)
  collect zero m index = []
  collect (suc n) m index =
      let (found, index') = iter_next m index in
      let rest = collect n m index' in elim found [ none ↦ [] | some e ↦ e ∷ rest ]

  -- One call: no entry, and none is left, or the first entry left, and the rest is behind it.
  Found : Hashmap V → ℕ → Option (List ℕ × Option V) × ℕ → Type ℓ
  Found m index (none, index') = live (drop index m.slots) ≡ []
  Found m index (some e, index') =
      (live (drop index m.slots) ≡ e ∷ live (drop index' m.slots)) × (index < index')

  module _ (m : Hashmap V) (sized : length m.slots ≡ m.capacity) where
    live_here :
        (index : ℕ)
        → index < m.capacity
        → live (drop index m.slots) ≡ live (slot_at m index ∷ drop (index + 1) m.slots)
    live_here index h =
        simp towards_suc (ap live (drop-get_or m.slots index empty_slot (omega (arith, sized))))

    skip :
        (index : ℕ) (r : Option (List ℕ × Option V) × ℕ)
        → live (drop index m.slots) ≡ live (drop (index + 1) m.slots)
        → Found m (index + 1) r
        → Found m index r
    unfolding Found
    skip index (none, index') e h = e ∙ h
    skip index (some x, index') e h = (e ∙ h.0, omega (arith, h.1))

    back :
        (index : ℕ) {r s : Option (List ℕ × Option V) × ℕ}
        → s ≡ r
        → Found m index r
        → Found m index s
    back index e f = rw e f

    iter_next_from-Found :
        (n index : ℕ)
        → m.capacity ≤ index + n
        → n ≤ m.capacity - index
        → Found m index (iter_next_from m n index)
    unfolding iter_next_from Found live
    iter_next_from-Found zero index h k = ap live (drop_past m.slots index (omega (arith, sized)))
    iter_next_from-Found (suc n) index h k =
        let here = live_here index (omega arith) in
        let onward = iter_next_from-Found n (index + 1) (omega arith) (omega arith) in
        elim (SlotState-cases (slot_at m index).state) [
          | inl e ↦
              back index (rw (e, iter_next_from) refl)
                (skip index _ (here ∙ rw (e, live) refl) onward)
          | inr (inl e) ↦
              back index {r = (some ((slot_at m index).key, (slot_at m index).value), index + 1)}
                (rw (e, iter_next_from) refl) (here ∙ rw (e, live) refl, omega arith)
          | inr (inr e) ↦
              back index (rw (e, iter_next_from) refl)
                (skip index _ (here ∙ rw (e, live) refl) onward)
        ]

    collect-live :
        (n index : ℕ) → m.capacity < index + n → collect n m index ≡ live (drop index m.slots)
    unfolding collect live Found
    collect-live zero index h = sym (ap live (drop_past m.slots index (omega (arith, sized))))
    collect-live (suc n) index h =
        go (iter_next m index)
          (unfold iter_next in
            iter_next_from-Found (m.capacity - index) index (omega arith) (omega arith))
          (λ i lt. collect-live n i (omega arith))
      where
        go :
            (r : Option (List ℕ × Option V) × ℕ)
            → Found m index r
            → ((i : ℕ) → index < i → collect n m i ≡ live (drop i m.slots))
            → elim r.0 [ none ↦ [] | some e ↦ e ∷ collect n m r.1 ] ≡ live (drop index m.slots)
        go (none, index') f rest = sym f
        go (some e, index') f rest = ap (λ es. e ∷ es) (rest index' f.1) ∙ sym f.0

  -- In a valid map, calling `iter_next` from index 0 until it finds nothing yields each occupied slot
  -- once, in the order of the array, and at most `capacity` + 1 calls are needed.
  pub collect-all : (m : Hashmap V) → IsValid m → collect (m.capacity + 1) m 0 ≡ live m.slots
  collect-all m v = collect-live m v.sized (m.capacity + 1) 0 (omega arith)
