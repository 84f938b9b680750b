-- ===== src/Hashmap/Laws.antt =====
-- What `ably_hashmap_put`, `_get`, `_remove`, `_clear` and `_init` promise: the map behaves as a
-- function from keys to pointers.
use ably_connectors.Prelude.{
  ℕ, ◌+◌, ◌<◌, ◌≡◌, ◌≢◌, inl, inr, refl, sym, ◌∙◌, arith, true, Option, none, List, take,
  take-length_le, Bool-cases, if◌then◌else◌,
}
use ably_connectors.Hashmap.{
  occupied, Slot, Hashmap, slot_at, home, same_key, hit, insert_at, full, put_probe, store, get,
}
use ably_connectors.Hashmap.Probe.{
  IsKey, same_key_iff, IsEntry, IsAbsent, IsFree, put_probe-entry, put_probe-absent,
}
use ably_connectors.Hashmap.Valid.{
  IsValid, home-lt, Leads-lt, occupied-lt, IsEntry-at, entry-key, entry-Leads, get-entry,
  get-absent, find-IsEntry,
}
use ably_connectors.Hashmap.Write.{write, slot_at-write_self, slot_at-write_ne, write-IsValid}
use native.Mathlib.Decide.{ℕ_discrete}

module _ {ℓ} {V : Type ℓ} where
  -- After the write of `s` to slot `x` every key but `key` reads as before, and `key` reads `r`.
  pub record Updates (m : Hashmap V) (key : List ℕ) (r : Option V) (m' : Hashmap V) : Type ℓ where
    pub valid : IsValid m'
    pub kept : m'.capacity ≡ m.capacity
    pub reads : (q : List ℕ) → IsKey q → get m' q ≡ (if same_key q key then r else get m q)

  -- A written map reads a key as the old one, where the written slot is not an entry for it.
  module _ {m : Hashmap V} (v : IsValid m) (x : ℕ) (s : Slot V) (count : ℕ)
      (inside : x < m.capacity) (v' : IsValid (write m x s count)) where
    IsAbsent-after :
        (q : List ℕ)
        → IsKey q
        → (s.state ≡ occupied → s.key ≢ q)
        → IsAbsent m q
        → IsAbsent (write m x s count) q
    IsAbsent-after q k new a i h = elim (ℕ_discrete i x) [
      | no d ↦ let same = slot_at-write_ne v x s count inside i d in rw same (a i (rw same at h))
      | yes e ↦
          let same = slot_at-write_self v x s count inside in
          let held : s.state ≡ occupied = rw (e, same) at h in
          rw (e, same)
            (elim (Bool-cases (same_key s.key q)) [
              | inr other ↦ other
              | inl eq ↦
                  absurd (new held ((same_key_iff s.key q (rw (e, same) at (v'.keyed i h)) k).0 eq))
            ])
    ]

    get-write_other :
        (q : List ℕ)
        → IsKey q
        → (s.state ≡ occupied → s.key ≢ q)
        → ((slot_at m x).state ≡ occupied → (slot_at m x).key ≢ q)
        → get (write m x s count) q ≡ get m q
    get-write_other q k new old = elim (find-IsEntry v q k) [
      | inl (i, e) ↦
          let ne : i ≢ x = λ ix. old (rw ix at e.held) (rw ix at (entry-key v k e)) in
          let same = slot_at-write_ne v x s count inside i ne in
          get-entry v' k (IsEntry-at v' q i k (rw same e.held) (rw same (entry-key v k e)))
          ∙ rw same (sym (get-entry v k e))
      | inr a ↦ get-absent (write m x s count) q (IsAbsent-after q k new a) ∙ sym (get-absent m q a)
    ]

    get-write_entry :
        (q : List ℕ)
        → IsKey q
        → s.state ≡ occupied
        → s.key ≡ q
        → get (write m x s count) q ≡ s.value
    get-write_entry q k h e =
        get-entry v' k (
          IsEntry-at v' q x k (rw (slot_at-write_self v x s count inside) h)
            (rw (slot_at-write_self v x s count inside) e))
        ∙ rw (slot_at-write_self v x s count inside)

    pub write-Updates :
        (key : List ℕ) (r : Option V)
        → IsKey key
        → (s.state ≡ occupied → s.key ≡ key)
        → ((slot_at m x).state ≡ occupied → (slot_at m x).key ≡ key)
        → get (write m x s count) key ≡ r
        → Updates m key r (write m x s count)
    write-Updates key r k new old at_key = record { valid = v'; kept = refl; reads = read }
      where
        read :
            (q : List ℕ)
            → IsKey q
            → get (write m x s count) q ≡ (if same_key q key then r else get m q)
        read q kq = elim (Bool-cases (same_key q key)) [
          | inl same ↦ rw (same, (same_key_iff q key kq k).0 same) at_key
          | inr other ↦
              let ne : key ≢ q = λ e. cc (other, (same_key_iff q key kq k).1 (sym e)) in
              rw other
                (get-write_other q kq (λ h e. ne (sym (new h) ∙ e)) (λ h e. ne (sym (old h) ∙ e)))
        ]

  module _ {m : Hashmap V} (v : IsValid m) (key : List ℕ) (k : IsKey key) (value : Option V) where
    store-hit : (i : ℕ) → IsEntry m key i → Updates m key value (store m key value (hit i)).0
    unfolding store
    store-hit i e =
        let inside = occupied-lt v i e.held in
        let s : Slot V = record (slot_at m i) { value = value } in
        let v' : IsValid (write m i s m.count) =
          write-IsValid v i s m.count inside (λ h. cc (h, e.held))
            (λ _. record {
              short = v.keyed i e.held;
              path = v.reachable i e.held;
              fresh = λ j ne h eq. ne (v.unique j i h e.held eq);
            })
            refl in
        write-Updates v i s m.count inside v' key value k (λ _. entry-key v k e)
          (λ _. entry-key v k e)
          (get-write_entry v i s m.count inside v' key k e.held (entry-key v k e))

    store-insert :
        (x : ℕ)
        → IsAbsent m key
        → IsFree m key m.capacity (home m key) x
        → Updates m key value (store m key value (insert_at x)).0
    unfolding store
    store-insert x a f =
        let inside = Leads-lt v m.capacity (home m key) x (home-lt v key) f.path in
        let whole : take 255 key ≡ key = take-length_le 255 key (omega arith) in
        let s : Slot V = record { key = take 255 key; value = value; state = occupied } in
        let v' : IsValid (write m x s (m.count + 1)) =
          write-IsValid v x s (m.count + 1) inside (λ h. cc)
            (λ _. record {
              short = rw whole k;
              path = rw whole f.path;
              fresh = λ j ne h eq. cc (a j h, (same_key_iff _ key (v.keyed j h) k).1 (eq ∙ whole));
            })
            (ground (arith, f.free)) in
        write-Updates v x s (m.count + 1) inside v' key value k (λ _. whole)
          (λ h. absurd (f.free h)) (get-write_entry v x s (m.count + 1) inside v' key k refl whole)

    -- The loop of `put` finds the entry, or a free slot on the path, or the table is full.
    pub store-Updates :
        put_probe m key m.capacity (home m key) none ≢ full
        → let (m', done) = store m key value (put_probe m key m.capacity (home m key) none) in
          (done ≡ true) × Updates m key value m'
    store-Updates room = elim (find-IsEntry v key k) [
      | inl (i, e) ↦
          rw (put_probe-entry m key m.capacity (home m key) i none e (entry-Leads v k e))
            (unfold store in refl, store-hit i e)
      | inr a ↦ elim (put_probe-absent m key m.capacity (home m key) a) [
        | inl f ↦ absurd (room f)
        | inr (x, f) ↦ rw f.found (unfold store in refl, store-insert x a f)
      ]
    ]
