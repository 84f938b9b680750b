-- ===== src/Hashmap/Valid.antt =====
-- The invariant of the hash map, and one write to a slot that keeps it.
use ably_connectors.Prelude.{
  ℕ, zero, suc, ◌+◌, ◌^◌, ◌%◌, ◌≤◌, ◌<◌, ◌≡◌, ◌⊎◌, inl, inr, refl, sym, ◌∙◌, arith, true, false,
  none, List, [], ◌∷◌, length, get_or, set, Bool-cases,
}
use ably_connectors.Prelude.Bits.{bit_and_mask}
use ably_connectors.Hashmap.{
  empty, occupied, deleted, Slot, Hashmap, empty_slot, slot_at, next, home, same_key, get,
}
use ably_connectors.Hashmap.Probe.{
  IsKey, same_key_iff, Leads, IsEntry, IsAbsent, SlotState-cases, get_probe-entry, get_probe-absent,
}
use native.Mathlib.Decide.{dec_lt}
use native.Mathlib.Nat.{one-le-pow}

module _ {ℓ} {V : Type ℓ} where
  abbrev pub weight : Slot V → ℕ
  weight s = elim (s.state) [ empty ↦ 0 | occupied ↦ 1 | deleted ↦ 0 ]

  -- The number of occupied slots.
  unfoldable pub occupancy : List (Slot V) → ℕ
  occupancy [] = 0
  occupancy (s ∷ slots) = weight s + occupancy slots

  pub occupancy-set :
      (slots : List (Slot V)) (i : ℕ) (s : Slot V)
      → i < length slots
      → occupancy (set slots i s) + weight (get_or slots i empty_slot) ≡ occupancy slots + weight s
  unfolding occupancy
  occupancy-set [] i s h = absurd (omega arith)
  occupancy-set (t ∷ slots) zero s h = omega arith
  occupancy-set (t ∷ slots) (suc i) s h = omega (arith, occupancy-set slots i s (omega arith))

  -- The capacity is a power of two, `count` counts the entries, every entry is reached from the home
  -- of its key over slots that are not empty, and no key has two entries.
  pub record IsValid (m : Hashmap V) : Type ℓ where
    pub bits : ℕ
    pub power : m.capacity ≡ 2 ^ bits
    pub sized : length m.slots ≡ m.capacity
    pub counted : m.count ≡ occupancy m.slots
    pub keyed : (i : ℕ) → (slot_at m i).state ≡ occupied → IsKey (slot_at m i).key
    pub reachable :
        (i : ℕ) → (slot_at m i).state ≡ occupied → Leads m m.capacity (home m (slot_at m i).key) i
    pub unique :
        (i j : ℕ)
        → (slot_at m i).state ≡ occupied
        → (slot_at m j).state ≡ occupied
        → (slot_at m i).key ≡ (slot_at m j).key
        → i ≡ j

  get_or_past :
      (slots : List (Slot V)) (i : ℕ) → length slots ≤ i → get_or slots i empty_slot ≡ empty_slot
  get_or_past [] i h = refl
  get_or_past (s ∷ slots) zero h = absurd (omega arith)
  get_or_past (s ∷ slots) (suc i) h = get_or_past slots i (omega arith)

  search_slots :
      (slots : List (Slot V)) (key : List ℕ)
      → ((i : ℕ) × ((get_or slots i empty_slot).state ≡ occupied)
          × (same_key (get_or slots i empty_slot).key key ≡ true))
        ⊎ ((i : ℕ)
            → (get_or slots i empty_slot).state ≡ occupied
            → same_key (get_or slots i empty_slot).key key ≡ false)
  search_slots [] key = inr (λ i h. cc)
  search_slots (s ∷ slots) key = elim (search_slots slots key) [
    | inl (i, h, e) ↦ inl (suc i, h, e)
    | inr rest ↦ elim (SlotState-cases s.state) [
      | inl e ↦ inr (elim [ zero ↦ λ h. cc | suc i ↦ rest i ])
      | inr (inr e) ↦ inr (elim [ zero ↦ λ h. cc | suc i ↦ rest i ])
      | inr (inl e) ↦ elim (Bool-cases (same_key s.key key)) [
        | inl same ↦ inl (0, e, same)
        | inr other ↦ inr (elim [ zero ↦ λ _. other | suc i ↦ rest i ])
      ]
    ]
  ]

  module _ {m : Hashmap V} (v : IsValid m) where
    pub home-lt : (key : List ℕ) → home m key < m.capacity
    unfolding home
    home-lt key = rw (v.power, bit_and_mask) (omega (arith, one-le-pow v.bits 2))

    pub next-eq : (i : ℕ) → next m i ≡ (i + 1) % m.capacity
    unfolding next
    next-eq i = rw (v.power, bit_and_mask)

    pub capacity_pos : 0 < m.capacity
    capacity_pos = rw v.power (omega (arith, one-le-pow v.bits 2))

    pub next-lt : (i : ℕ) → next m i < m.capacity
    next-lt i = rw (next-eq i) (omega (arith, capacity_pos))

    pub occupied-lt : (i : ℕ) → (slot_at m i).state ≡ occupied → i < m.capacity
    occupied-lt i h = elim (dec_lt i m.capacity) [
      | yes p ↦ p
      | no p ↦ cc (h, get_or_past m.slots i (omega (arith, v.sized)))
    ]

    pub Leads-lt : (n i p : ℕ) → i < m.capacity → Leads m n i p → p < m.capacity
    Leads-lt zero i p h l = absurd l
    Leads-lt (suc n) i p h (inl e) = rw (← e) h
    Leads-lt (suc n) i p h (inr (ne, l)) = Leads-lt n (next m i) p (next-lt i) l

    pub IsEntry-at :
        (key : List ℕ) (i : ℕ)
        → IsKey key
        → (slot_at m i).state ≡ occupied
        → (slot_at m i).key ≡ key
        → IsEntry m key i
    IsEntry-at key i k h e = record {
      held = h;
      named = (same_key_iff _ key (v.keyed i h) k).1 e;
      only = λ j hj sj. v.unique j i hj h ((same_key_iff _ key (v.keyed j hj) k).0 sj ∙ sym e);
    }

    pub entry-key : {key : List ℕ} {i : ℕ} → IsKey key → IsEntry m key i → (slot_at m i).key ≡ key
    entry-key {key} {i} k e = (same_key_iff _ key (v.keyed i e.held) k).0 e.named

    pub entry-Leads :
        {key : List ℕ} {i : ℕ} → IsKey key → IsEntry m key i → Leads m m.capacity (home m key) i
    entry-Leads {key} {i} k e = rw (entry-key k e) at (v.reachable i e.held)

    pub get-entry :
        {key : List ℕ} {i : ℕ} → IsKey key → IsEntry m key i → get m key ≡ (slot_at m i).value
    unfolding get
    get-entry {key} {i} k e = get_probe-entry m key m.capacity (home m key) i e (entry-Leads k e)

    pub find-IsEntry : (key : List ℕ) → IsKey key → ((i : ℕ) × IsEntry m key i) ⊎ IsAbsent m key
    find-IsEntry key k = elim (search_slots m.slots key) [
      | inl (i, h, s) ↦ inl (i, IsEntry-at key i k h ((same_key_iff _ key (v.keyed i h) k).0 s))
      | inr none_found ↦ inr none_found
    ]

  pub get-absent : (m : Hashmap V) (key : List ℕ) → IsAbsent m key → get m key ≡ none
  unfolding get
  get-absent m key a = get_probe-absent m key m.capacity (home m key) a
