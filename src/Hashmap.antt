-- ===== src/Hashmap.antt =====
-- ably-c/src/hashmap.c and hashmap.h: a fixed-capacity open-addressing map from C strings to
-- pointers, with linear probing, FNV-1a hashing and tombstones.
-- A C string is the list of its bytes (it holds no NUL). A pointer is `some v`, and NULL is `none`.
-- The slot array that the caller supplies is the list `slots`.
pub mod Probe
pub mod Valid
pub mod Write
pub mod Laws
pub mod Operations
pub mod Spec
pub mod Refine
pub mod Iterate
mod Runs
use ably_connectors.Prelude.{
  ℕ, zero, suc, ◌+◌, ◌-◌, ◌*◌, ◌%◌, ◌^◌, bit_and, bit_xor, Bool, true, false, Option, none, some,
  List, [], ◌∷◌, length, get_or, set, take, replicate, leb, ltb, ◌==◌, if◌then◌else◌,
}

pub data SlotState : Type 0 where
  empty occupied deleted : SlotState

-- `char key[256]`: at most 255 bytes before the NUL.
abbrev pub key_max : ℕ
key_max = 256

pub record Slot {ℓ} (V : Type ℓ) : Type ℓ where
  pub key : List ℕ
  pub value : Option V
  pub state : SlotState

pub record Hashmap {ℓ} (V : Type ℓ) : Type ℓ where
  pub slots : List (Slot V)
  pub capacity : ℕ
  pub count : ℕ

-- `h ^= byte; h *= 16777619u` on a `uint32_t`.
fnv1a_from : ℕ → List ℕ → ℕ
fnv1a_from h [] = h
fnv1a_from h (c ∷ s) = fnv1a_from (bit_xor h c * 16777619 % 2 ^ 32) s

unfoldable pub fnv1a : List ℕ → ℕ
unfolding fnv1a_from
fnv1a s = fnv1a_from 2166136261 s

-- `strncmp(a, b, n) == 0`.
unfoldable pub strncmp_eq : ℕ → List ℕ → List ℕ → Bool
strncmp_eq zero a b = true
strncmp_eq (suc n) [] [] = true
strncmp_eq (suc n) [] (y ∷ b) = false
strncmp_eq (suc n) (x ∷ a) [] = false
strncmp_eq (suc n) (x ∷ a) (y ∷ b) = if x == y then strncmp_eq n a b else false

abbrev pub same_key : List ℕ → List ℕ → Bool
same_key stored key = strncmp_eq (key_max - 1) stored key

-- Where the probing loop of `put` ends.
pub data Place : Type 0 where
  hit : ℕ → Place
  insert_at : ℕ → Place
  full : Place

-- The tombstone, or else the slot `i`.
abbrev pub reuse : Option ℕ → ℕ → ℕ
reuse none i = i
reuse (some t) i = t

-- After the loop: the tombstone, if one was met.
abbrev pub fall_back : Option ℕ → Place
fall_back none = full
fall_back (some t) = insert_at t

module _ {ℓ} {V : Type ℓ} where
  -- A slot after `memset` to 0.
  abbrev pub empty_slot : Slot V
  empty_slot = record { key = []; value = none; state = empty }

  -- `map->slots[i]`.
  abbrev pub slot_at : Hashmap V → ℕ → Slot V
  slot_at m i = get_or m.slots i empty_slot

  -- `h & mask`, and `(i + 1) & mask`.
  unfoldable pub home : Hashmap V → List ℕ → ℕ
  home m key = bit_and (fnv1a key) (m.capacity - 1)

  unfoldable pub next : Hashmap V → ℕ → ℕ
  next m i = bit_and (i + 1) (m.capacity - 1)

  unfoldable pub init : ℕ → Hashmap V
  init capacity = record { slots = replicate capacity empty_slot; capacity = capacity; count = 0 }

  -- The loop of `ably_hashmap_put` with `n` probes left, at slot `i`; `t` is the first tombstone met.
  unfoldable pub put_probe : Hashmap V → List ℕ → ℕ → ℕ → Option ℕ → Place
  put_probe m key zero i t = fall_back t
  put_probe m key (suc n) i t =
      let onward = put_probe m key n (next m i) t in
      let marked = put_probe m key n (next m i) (some (reuse t i)) in
      elim ((slot_at m i).state) [
        | occupied ↦ if same_key (slot_at m i).key key then hit i else onward
        | deleted ↦ marked
        | empty ↦ insert_at (reuse t i)
      ]

  -- What `put` stores in the slot that the loop found.
  unfoldable pub store : Hashmap V → List ℕ → Option V → Place → Hashmap V × Bool
  store m key value (hit i) =
      (record m { slots = set m.slots i (record (slot_at m i) { value = value }) }, true)
  store m key value (insert_at i) = (
    record m {
      slots =
          set m.slots i (record { key = take (key_max - 1) key; value = value; state = occupied });
      count = m.count + 1;
    },
    true,
  )
  store m key value full = (m, false)

  -- `true` is the result 0 and `false` the result -1.
  unfoldable pub put : Hashmap V → List ℕ → Option V → Hashmap V × Bool
  unfolding store
  put m key value =
      if leb (m.capacity * 3) (m.count * 4)
      then (m, false)
      else store m key value (put_probe m key m.capacity (home m key) none)

  unfoldable pub get_probe : Hashmap V → List ℕ → ℕ → ℕ → Option V
  get_probe m key zero i = none
  get_probe m key (suc n) i =
      let onward = get_probe m key n (next m i) in
      elim ((slot_at m i).state) [
        | occupied ↦ if same_key (slot_at m i).key key then (slot_at m i).value else onward
        | deleted ↦ onward
        | empty ↦ none
      ]

  unfoldable pub get : Hashmap V → List ℕ → Option V
  get m key = get_probe m key m.capacity (home m key)

  -- The slot that the loop of `ably_hashmap_remove` stops at, if it holds the key.
  unfoldable pub remove_probe : Hashmap V → List ℕ → ℕ → ℕ → Option ℕ
  remove_probe m key zero i = none
  remove_probe m key (suc n) i =
      let onward = remove_probe m key n (next m i) in
      elim ((slot_at m i).state) [
        | occupied ↦ if same_key (slot_at m i).key key then some i else onward
        | deleted ↦ onward
        | empty ↦ none
      ]

  unfoldable pub bury : Hashmap V → Option ℕ → Hashmap V × Bool
  bury m none = (m, false)
  bury m (some i) = (
    record m {
      slots = set m.slots i (record (slot_at m i) { state = deleted });
      count = m.count - 1;
    },
    true,
  )

  -- `true` is the result 1.
  unfoldable pub remove : Hashmap V → List ℕ → Hashmap V × Bool
  unfolding bury
  remove m key = bury m (remove_probe m key m.capacity (home m key))

  unfoldable pub clear : Hashmap V → Hashmap V
  clear m = record m { slots = replicate m.capacity empty_slot; count = 0 }

  -- `ably_hashmap_iter_next` with `n` slots left from `index`: the entry found and the new index.
  unfoldable pub iter_next_from : Hashmap V → ℕ → ℕ → Option (List ℕ × Option V) × ℕ
  iter_next_from m zero index = (none, index)
  iter_next_from m (suc n) index =
      let onward = iter_next_from m n (index + 1) in
      elim ((slot_at m index).state) [
        | occupied ↦ (some ((slot_at m index).key, (slot_at m index).value), index + 1)
        | deleted ↦ onward
        | empty ↦ onward
      ]

  unfoldable pub iter_next : Hashmap V → ℕ → Option (List ℕ × Option V) × ℕ
  unfolding iter_next_from
  iter_next m index = iter_next_from m (m.capacity - index) index
