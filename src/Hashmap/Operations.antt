-- ===== src/Hashmap/Operations.antt =====
-- The operations of hashmap.h on every branch: `put` and its load cap, `remove`, `init` and `clear`.
use ably_connectors.Prelude.{
  ℕ, zero, suc, ◌+◌, ◌-◌, ◌*◌, ◌^◌, ◌≤◌, ◌<◌, ◌≡◌, ◌≢◌, ◌↔◌, inl, inr, refl, sym, ◌∙◌, arith, true,
  false, Option, none, some, List, [], ◌∷◌, length, get_or, replicate, length-replicate,
  get_or-replicate, Bool-cases, leb, if◌then◌else◌,
}
use ably_connectors.Hashmap.{
  occupied, deleted, Slot, Hashmap, empty_slot, slot_at, next, home, same_key, init, clear, full,
  put_probe, put, get, remove, bury,
}
use ably_connectors.Hashmap.Probe.{
  IsKey, same_key_iff, IsEntry, IsAbsent, Visits, put_probe-entry, put_probe-full,
  remove_probe-entry, remove_probe-absent,
}
use ably_connectors.Hashmap.Valid.{
  occupancy, occupancy-set, IsValid, home-lt, next-eq, occupied-lt, entry-key, entry-Leads,
  get-absent, find-IsEntry,
}
use ably_connectors.Hashmap.Write.{write, slot_at-write_self, slot_at-write_ne, write-IsValid}
use ably_connectors.Hashmap.Laws.{Updates, write-Updates, store-Updates}
use native.Mathlib.Decide.{ℕ_discrete, dec_lt}
use native.Mathlib.Nat.{mod_self, mod-eq_of_lt}

occupancy-replicate {ℓ} : (V : Type ℓ) (n : ℕ) → occupancy (replicate n (empty_slot {V = V})) ≡ 0
unfolding occupancy
occupancy-replicate V zero = refl
occupancy-replicate V (suc n) = omega (arith, occupancy-replicate V n)

pub blank {ℓ} :
    (V : Type ℓ) (n i : ℕ)
    → (get_or (replicate n (empty_slot {V = V})) i empty_slot).state ≢ occupied
blank V n i h = cc (h, get_or-replicate n i (empty_slot {V = V}))

module _ {ℓ} {V : Type ℓ} where
  full-occupancy :
      (slots : List (Slot V))
      → ((i : ℕ) → i < length slots → (get_or slots i empty_slot).state ≡ occupied)
      → occupancy slots ≡ length slots
  unfolding occupancy
  full-occupancy [] h = refl
  full-occupancy (s ∷ slots) h =
      ground (arith, h 0 (omega arith), full-occupancy slots (λ i l. h (suc i) (omega arith)))

  module _ {m : Hashmap V} (v : IsValid m) where
    next-suc : (i : ℕ) → i + 1 < m.capacity → next m i ≡ i + 1
    next-suc i h = next-eq v i ∙ mod-eq_of_lt h

    Visits-up : (d n i p : ℕ) → i + d ≡ p → p < m.capacity → d < n → Visits m n i p
    Visits-up d zero i p e h l = absurd (omega arith)
    Visits-up zero (suc n) i p e h l = inl (omega arith)
    Visits-up (suc d) (suc n) i p e h l =
        inr (rw (next-suc i (omega arith)) (Visits-up d n (i + 1) p (omega arith) h (omega arith)))

    -- `e` steps lead from slot `i` to the end of the array, and on to slot 0.
    Visits-round :
        (e n i p : ℕ) → i + suc e ≡ m.capacity → p < m.capacity → p + suc e < n → Visits m n i p
    Visits-round e zero i p h l r = absurd (omega arith)
    Visits-round zero (suc n) i p h l r =
        inr (rw wrap (Visits-up p n 0 p (omega arith) l (omega arith)))
      where
        wrap : next m i ≡ 0
        wrap = rw (next-eq v i) (ground (arith, mod_self m.capacity))
    Visits-round (suc e) (suc n) i p h l r =
        inr
          (rw (next-suc i (omega arith)) (Visits-round e n (i + 1) p (omega arith) l (omega arith)))

    -- The probing loops walk the whole array.
    pub Visits-all : (i p : ℕ) → i < m.capacity → p < m.capacity → Visits m m.capacity i p
    Visits-all i p hi hp = elim (dec_lt p i) [
      | yes lt ↦ Visits-round (m.capacity - i - 1) m.capacity i p (omega arith) hp (omega arith)
      | no ge ↦ Visits-up (p - i) m.capacity i p (omega arith) hp (omega arith)
    ]

    module _ (key : List ℕ) (k : IsKey key) where
      -- Below the load cap the loop of `put` finds a slot.
      pub put_probe-ne-full :
          m.count * 4 < m.capacity * 3 → put_probe m key m.capacity (home m key) none ≢ full
      put_probe-ne-full room f = elim (find-IsEntry v key k) [
        | inl (i, e) ↦
            cc (f, put_probe-entry m key m.capacity (home m key) i none e (entry-Leads v k e))
        | inr a ↦
            let every : (i : ℕ) → i < length m.slots → (slot_at m i).state ≡ occupied = λ i h.
              put_probe-full m key m.capacity (home m key) i f a
                (Visits-all (home m key) i (home-lt v key) (omega (arith, v.sized))) in
            absurd (omega (arith, full-occupancy m.slots every, v.counted, v.sized))
      ]

      -- Below the load cap `put` succeeds: the map stays valid, the key reads the value put, and every
      -- other key reads as before.
      pub put-Updates :
          (value : Option V)
          → m.count * 4 < m.capacity * 3
          → ((put m key value).1 ≡ true) × Updates m key value (put m key value).0
      unfolding put
      put-Updates value room =
          rw (below room) (store-Updates v key k value (put_probe-ne-full room))
        where
          below : m.count * 4 < m.capacity * 3 → leb (m.capacity * 3) (m.count * 4) ≡ false
          below h = ground arith

      -- At the load cap `put` refuses, and changes nothing.
      pub put-refused :
          (value : Option V) → m.capacity * 3 ≤ m.count * 4 → put m key value ≡ (m, false)
      unfolding put
      put-refused value over = ground arith

      count_pos : (i : ℕ) → (slot_at m i).state ≡ occupied → 1 ≤ m.count
      count_pos i h =
          let s : Slot V = record (slot_at m i) { state = deleted } in
          let inside : i < length m.slots = omega (arith, occupied-lt v i h, v.sized) in
          ground (arith, occupancy-set m.slots i s inside, v.counted)

      remove-entry : (i : ℕ) → IsEntry m key i → Updates m key none (bury m (some i)).0
      unfolding bury
      remove-entry i e =
          let inside = occupied-lt v i e.held in
          let s : Slot V = record (slot_at m i) { state = deleted } in
          let one = count_pos i e.held in
          let v' : IsValid (write m i s (m.count - 1)) =
            write-IsValid v i s (m.count - 1) inside (λ h. cc) (λ h. cc) (ground (arith, e.held)) in
          write-Updates v i s (m.count - 1) inside v' key none k (λ h. cc) (λ _. entry-key v k e)
            (get-absent _ key λ j h. elim (ℕ_discrete j i) [
              | yes same ↦ cc (rw (same, slot_at-write_self v i s (m.count - 1) inside) at h)
              | no other ↦
                  let kept = slot_at-write_ne v i s (m.count - 1) inside j other in
                  rw kept (elim (Bool-cases (same_key (slot_at m j).key key)) [
                    | inl eq ↦ absurd (other (e.only j (rw kept at h) eq))
                    | inr ne ↦ ne
                  ])
            ])

      -- `remove` leaves a valid map in which the key reads NULL and every other key as before, and it
      -- answers 1 exactly when the key has an entry, which is no longer counted.
      pub remove-Updates :
          Updates m key none (remove m key).0
          × (((remove m key).1 ≡ true) ↔ ((i : ℕ) × IsEntry m key i))
          × ((remove m key).0.count + (if (remove m key).1 then 1 else 0) ≡ m.count)
      unfolding remove
      remove-Updates = elim (find-IsEntry v key k) [
        | inl (i, e) ↦
            rw (remove_probe-entry m key m.capacity (home m key) i e (entry-Leads v k e)) (
              remove-entry i e,
              (λ _. (i, e), λ _. refl),
              unfold bury in omega (arith, count_pos i e.held),
            )
        | inr a ↦ rw (remove_probe-absent m key m.capacity (home m key) a) (
          record { valid = v; kept = refl; reads = λ q kq. read a q kq },
          (λ h. cc, λ h. cc (a h.0 h.1.held, h.1.named)),
          omega arith,
        )
      ]
        where
          read :
              IsAbsent m key
              → (q : List ℕ) → IsKey q
              → get m q ≡ (if same_key q key then none else get m q)
          read a q kq = elim (Bool-cases (same_key q key)) [
            | inl same ↦ rw (same, (same_key_iff q key kq k).0 same) (get-absent m key a)
            | inr other ↦ rw other
          ]

  -- `init` makes a valid map of the capacity with no entry, in which every key reads NULL.
  pub init-IsValid :
      (bits : ℕ)
      → IsValid (init {V = V} (2 ^ bits))
        × ((init {V = V} (2 ^ bits)).count ≡ 0)
        × ((q : List ℕ) → get (init {V = V} (2 ^ bits)) q ≡ none)
  unfolding init
  init-IsValid bits = (
    record {
      bits = bits;
      power = refl;
      sized = length-replicate (2 ^ bits) empty_slot;
      counted = sym (occupancy-replicate V (2 ^ bits));
      keyed = λ i h. absurd (blank V (2 ^ bits) i h);
      reachable = λ i h. absurd (blank V (2 ^ bits) i h);
      unique = λ i j h. absurd (blank V (2 ^ bits) i h);
    },
    refl,
    λ q. get-absent _ q (λ i h. absurd (blank V (2 ^ bits) i h)),
  )

  -- `clear` leaves what `init` makes.
  pub clear-eq-init : (m : Hashmap V) → clear m ≡ init m.capacity
  unfolding clear init
  clear-eq-init m = refl
