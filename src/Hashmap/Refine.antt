-- ===== src/Hashmap/Refine.antt =====
-- hashmap.c against its specification: the states and the replies of sequences of calls.
use ably_connectors.Prelude.{
  ℕ, ◌+◌, ◌-◌, ◌*◌, ◌^◌, ◌<◌, ◌≡◌, ◌≢◌, inl, inr, refl, sym, ap, ◌∙◌, arith, true, false, Option,
  none, some, List, [], ◌∷◌, All, Bool-cases, leb,
}
use ably_connectors.Hashmap.{
  occupied, Slot, Hashmap, init, slot_at, home, same_key, put, store, get, remove, bury,
}
use ably_connectors.Hashmap.Probe.{
  IsKey, same_key_iff, IsEntry, put_probe-entry, put_probe-absent, remove_probe-entry,
  remove_probe-absent,
}
use ably_connectors.Hashmap.Valid.{
  IsValid, home-lt, Leads-lt, occupied-lt, entry-Leads, get-entry, get-absent, find-IsEntry,
}
use ably_connectors.Hashmap.Write.{write, slot_at-write_self, slot_at-write_ne}
use ably_connectors.Hashmap.Laws.{Updates}
use ably_connectors.Hashmap.Operations.{
  blank, init-IsValid, put-Updates, put-refused, remove-Updates, put_probe-ne-full,
}
use ably_connectors.Hashmap.Spec
use ably_connectors.Hashmap.Spec.{
  Op, Reply, Spec, done, value, key_of, present, is_present, update, keys_discrete,
}
use mathlib.Core.Path.{ap₂}
use mathlib.Core.Logic.{if_pos, if_neg}
use native.Mathlib.Decide.{ℕ_discrete, dec_lt}

pub differ : (q key : List ℕ) → IsKey q → IsKey key → q ≢ key → same_key q key ≡ false
differ q key kq k ne = elim (Bool-cases (same_key q key)) [
  | inl same ↦ absurd (ne ((same_key_iff q key kq k).0 same))
  | inr other ↦ other
]

module _ {ℓ} {V : Type ℓ} where
  -- No stored pointer is NULL.
  abbrev pub IsSolid : Hashmap V → Type ℓ
  IsSolid m = (i : ℕ) → (slot_at m i).state ≡ occupied → (slot_at m i).value ≢ none

  -- One call on the real map.
  unfoldable pub step : Hashmap V → Op V → Hashmap V × Reply V
  step m (Op.put k v) = let (m', ok) = put m k (some v) in (m', done ok)
  step m (Op.get k) = (m, value (get m k))
  step m (Op.remove k) = let (m', found) = remove m k in (m', done found)

  unfoldable pub run : Hashmap V → List (Op V) → List (Reply V)
  run m [] = []
  run m (op ∷ ops) = let (m', r) = step m op in r ∷ run m' ops

  pub record Models (m : Hashmap V) (s : Spec V) : Type ℓ where
    pub valid : IsValid m
    pub solid : IsSolid m
    pub capacity : m.capacity ≡ s.capacity
    pub count : m.count ≡ s.count
    pub lookup : (q : List ℕ) → IsKey q → get m q ≡ s.lookup q

  module _ {m : Hashmap V} (v : IsValid m) (solid : IsSolid m) where
    write-IsSolid :
        (x : ℕ) (s : Slot V) (count : ℕ)
        → x < m.capacity
        → (s.state ≡ occupied → s.value ≢ none)
        → IsSolid (write m x s count)
    write-IsSolid x s count inside h i hi = elim (ℕ_discrete i x) [
      | yes e ↦
          let same = slot_at-write_self v x s count inside in rw (e, same) (h (rw (e, same) at hi))
      | no d ↦
          let same = slot_at-write_ne v x s count inside i d in rw same (solid i (rw same at hi))
    ]

    present-entry :
        (key : List ℕ) (i : ℕ)
        → IsKey key
        → IsEntry m key i
        → (present (get m key) ≡ 1) × (is_present (get m key) ≡ true)
    present-entry key i k e = rw (get-entry v k e) (ground (arith, solid i e.held))

    put_after :
        (key : List ℕ) (x : V)
        → IsKey key
        → m.count * 4 < m.capacity * 3
        → IsSolid (put m key (some x)).0
          × ((put m key (some x)).0.count ≡ m.count + (1 - present (get m key)))
    unfolding put
    put_after key x k room = elim (find-IsEntry v key k) [
      | inl (i, e) ↦
          rw (below, put_probe-entry m key m.capacity (home m key) i none e (entry-Leads v k e))
            (
              unfold store in write-IsSolid i _ m.count (occupied-lt v i e.held) (λ _. λ c. cc),
              unfold store in omega (arith, present-entry key i k e),
            )
      | inr a ↦ elim (put_probe-absent m key m.capacity (home m key) a) [
        | inl f ↦ absurd (put_probe-ne-full v key k room f)
        | inr (p, f) ↦
            rw (below, f.found)
              (
                unfold store in
                    write-IsSolid p _ (m.count + 1)
                      (Leads-lt v m.capacity (home m key) p (home-lt v key) f.path) (λ _. λ c. cc),
                unfold store in rw (get-absent m key a) (omega arith),
              )
      ]
    ]
      where
        below : leb (m.capacity * 3) (m.count * 4) ≡ false
        below = ground arith

    remove_after :
        (key : List ℕ)
        → IsKey key
        → IsSolid (remove m key).0
          × ((remove m key).0.count ≡ m.count - present (get m key))
          × ((remove m key).1 ≡ is_present (get m key))
    unfolding remove
    remove_after key k = elim (find-IsEntry v key k) [
      | inl (i, e) ↦
          let pres = present-entry key i k e in
          rw (remove_probe-entry m key m.capacity (home m key) i e (entry-Leads v k e)) (
            unfold bury in write-IsSolid i _ (m.count - 1) (occupied-lt v i e.held) (λ c. cc),
            unfold bury in omega (arith, pres.0),
            unfold bury in sym pres.1,
          )
      | inr a ↦
          rw (remove_probe-absent m key m.capacity (home m key) a, get-absent m key a)
            (unfold bury in solid, unfold bury in omega arith, unfold bury in refl)
    ]

  -- Reading after an update, in the terms of the specification.
  reads-update :
      {m m' : Hashmap V} (key : List ℕ) (r : Option V) (f : List ℕ → Option V)
      → IsKey key
      → Updates m key r m'
      → ((q : List ℕ) → IsKey q → get m q ≡ f q)
      → (q : List ℕ) → IsKey q
      → get m' q ≡ update f key r q
  reads-update key r f k u old q kq = elim (keys_discrete q key) [
    | yes e ↦
        rw (if_pos (keys_discrete q key) e) (u.reads q kq ∙ rw ((same_key_iff q key kq k).1 e) refl)
    | no ne ↦
        rw (if_neg (keys_discrete q key) ne) (u.reads q kq ∙ rw (differ q key kq k ne) (old q kq))
  ]

  -- One call on a map that stands for `s` replies as the specification does, and leaves a map that
  -- stands for the state after it.
  step_refines :
      (op : Op V) {m : Hashmap V} {s : Spec V}
      → IsKey (key_of op)
      → Models m s
      → ((step m op).1 ≡ (Spec.step s op).1) × Models (step m op).0 (Spec.step s op).0
  unfolding step Spec.step
  step_refines (Op.put key x) {m} {s} k t = elim (dec_lt (m.count * 4) (m.capacity * 3)) [
    | yes room ↦
        let below : leb (s.capacity * 3) (s.count * 4) ≡ false =
          ground (arith, t.capacity, t.count) in
        let (ok, u) = put-Updates t.valid key k (some x) room in
        let (solid, counted) = put_after t.valid t.solid key x k room in
        rw below (
          ap done ok,
          record {
            valid = u.valid;
            solid = solid;
            capacity = u.kept ∙ t.capacity;
            count = omega (arith, counted, t.count, ap present (t.lookup key k));
            lookup = reads-update key (some x) s.lookup k u t.lookup;
          },
        )
    | no over ↦
        let above : leb (s.capacity * 3) (s.count * 4) ≡ true =
          ground (arith, t.capacity, t.count) in
        rw (above, put-refused t.valid key k (some x) (omega arith)) (refl, t)
  ]
  step_refines (Op.get key) {m} {s} k t = (ap value (t.lookup key k), t)
  step_refines (Op.remove key) {m} {s} k t =
      let (u, _, _) = remove-Updates t.valid key k in
      let (solid, counted, found) = remove_after t.valid t.solid key k in
      (
        ap done (found ∙ ap is_present (t.lookup key k)),
        record {
          valid = u.valid;
          solid = solid;
          capacity = u.kept ∙ t.capacity;
          count = omega (arith, counted, t.count, ap present (t.lookup key k));
          lookup = reads-update key none s.lookup k u t.lookup;
        },
      )

  -- Replies of any sequence of calls agree.
  pub run_refines :
      (ops : List (Op V)) {m : Hashmap V} {s : Spec V}
      → All (λ op. IsKey (key_of op)) ops
      → Models m s
      → run m ops ≡ Spec.run s ops
  unfolding run Spec.run
  run_refines [] k t = refl
  run_refines (op ∷ ops) k t =
      let (same, t') = step_refines op k.0 t in ap₂ ◌∷◌ same (run_refines ops k.1 t')

  -- The specification of the map that `init` makes.
  abbrev pub nothing : ℕ → Spec V
  nothing capacity = record { capacity = capacity; count = 0; lookup = λ _. none }

  init-Models : (bits : ℕ) → Models (init {V = V} (2 ^ bits)) (nothing (2 ^ bits))
  unfolding init
  init-Models bits = record {
    valid = (init-IsValid {V = V} bits).0;
    solid = λ i h. absurd (blank V (2 ^ bits) i h);
    capacity = refl;
    count = refl;
    lookup = λ q _. (init-IsValid {V = V} bits).2 q;
  }

  -- From `init` with a power of two, any sequence of `put` of a non-NULL pointer, `get` and `remove`
  -- on keys of at most 255 bytes gets the replies of a partial function from keys to pointers that
  -- refuses a `put` when it holds three quarters of the capacity.
  pub run-init :
      (bits : ℕ) (ops : List (Op V))
      → All (λ op. IsKey (key_of op)) ops
      → run (init (2 ^ bits)) ops ≡ Spec.run (nothing (2 ^ bits)) ops
  run-init bits ops k = run_refines ops k (init-Models bits)
