-- ===== src/Vcdiff/Safety.antt =====
-- The state of a window of ably-c/src/delta/vcdiff.c between instructions, and the address of a COPY.
use ably_connectors.Prelude.{
  ℕ, ◌+◌, ◌-◌, ◌*◌, ◌%◌, ◌^◌, ◌≤◌, ◌<◌, ◌≡◌, ◌∙◌, arith, List, [], ◌∷◌, length, get_elem?, All, ltb,
  ◌==◌, length-set, inl, inr, Bool-cases,
}
use ably_connectors.Vcdiff.Types.{Result, in_bounds}
use ably_connectors.Vcdiff.Varint.{varint}
use ably_connectors.Vcdiff.Table.{s_near, s_same, num_modes}
use ably_connectors.Vcdiff.Machine.{
  Machine, Window, from_varint, from_byte, self_address, here_address, near_address, same_address,
  copy_address, store, remember,
}
use ably_connectors.Vcdiff.Defined.{Defined, bind-Defined, in_bounds-Defined, IsByte, varint-bytes}

-- What holds between instructions. The window has `n` instruction bytes left at most.
pub record IsValid (w : Window) (n : ℕ) (m : Machine) : Type 0 where
  pub near : length m.near_cache ≡ s_near
  pub next : m.near_next < s_near
  pub same : length m.same_cache ≡ s_same * 256
  pub addrs : All IsByte m.addr_cur
  pub placed : length m.output ≡ w.window_tgt_start + m.tgt_written
  pub fits : length m.output ≤ w.out_cap
  pub insts : length m.inst_cur ≤ n

abbrev pub IsCapacity : Window → Type 0
IsCapacity w = w.out_cap < 2 ^ 63

from_varint-Defined :
    (addrs : List ℕ) (f : ℕ → Result ℕ)
    → All IsByte addrs
    → ((a : ℕ) → Defined (λ _. Unit {0}) (f a))
    → Defined (λ r. All IsByte r.1) (from_varint addrs f)
from_varint-Defined addrs f h k =
    bind-Defined _ (λ r. All IsByte r.1) (varint addrs) _ (varint-bytes addrs h)
      (λ r b. bind-Defined (λ _. Unit {0}) (λ r'. All IsByte r'.1) (f r.0) _ (k r.0) (λ _ _. b.2))

from_byte-Defined :
    (addrs : List ℕ) (f : ℕ → Result ℕ)
    → All IsByte addrs
    → ((b : ℕ) → IsByte b → Defined (λ _. Unit {0}) (f b))
    → Defined (λ r. All IsByte r.1) (from_byte addrs f)
from_byte-Defined [] f h k = tt
from_byte-Defined (b ∷ rest) f h k =
    bind-Defined (λ _. Unit {0}) (λ r. All IsByte r.1) (f b) _ (k b h.0) (λ _ _. h.1)

module _ (w : Window) (n : ℕ) {m : Machine} (v : IsValid w n m) where
  near_address-Defined : (mode a : ℕ) → mode < 6 → Defined (λ _. Unit {0}) (near_address m mode a)
  near_address-Defined mode a h =
      bind-Defined (λ _. Unit {0}) (λ _. Unit {0}) (in_bounds (get_elem? m.near_cache (mode - 2))) _
        (in_bounds-Defined m.near_cache (mode - 2) (omega (arith, v.near))) (λ _ _. tt)

  same_address-Defined :
      (mode b : ℕ) → mode < num_modes → IsByte b → Defined (λ _. Unit {0}) (same_address m mode b)
  same_address-Defined mode b h hb =
      in_bounds-Defined m.same_cache ((mode - 6) * 256 + b) (omega (arith, v.same))

  pub copy_address-Defined :
      (mode : ℕ) → mode < num_modes → Defined (λ r. All IsByte r.1) (copy_address w m mode)
  unfolding copy_address
  copy_address-Defined mode h = elim (Bool-cases (mode == 0)) [
    | inl self ↦ rw self (from_varint-Defined m.addr_cur self_address v.addrs (λ a. tt))
    | inr a ↦ elim (Bool-cases (mode == 1)) [
      | inl here ↦
          rw (a, here) (from_varint-Defined m.addr_cur (here_address w m) v.addrs (λ x. tt))
      | inr b ↦ elim (Bool-cases (ltb mode 6)) [
        | inl near ↦
            rw (a, b, near)
              (from_varint-Defined m.addr_cur (near_address m mode) v.addrs
                (λ x. near_address-Defined mode x (ground arith)))
        | inr same ↦
            rw (a, b, same)
              (from_byte-Defined m.addr_cur (same_address m mode) v.addrs
                (λ x. same_address-Defined mode x h))
      ]
    ]
  ]

  store-Defined :
      (cache : List ℕ) (i addr : ℕ)
      → i < length cache
      → Defined (λ c. length c ≡ length cache) (store cache i addr)
  store-Defined cache i addr h = elim (Bool-cases (ltb i (length cache))) [
    | inl t ↦ rw t (length-set cache i addr)
    | inr f ↦ absurd (ground arith)
  ]

  pub remember-Defined :
      (addr : ℕ) (rest : List ℕ) → All IsByte rest → Defined (IsValid w n) (remember m addr rest)
  unfolding remember
  remember-Defined addr rest h =
      bind-Defined _ (IsValid w n) (store m.near_cache m.near_next addr) _
        (store-Defined m.near_cache m.near_next addr (omega (arith, v.near, v.next)))
        λ near en.
          bind-Defined _ (IsValid w n) (store m.same_cache (addr % 768) addr) _
            (store-Defined m.same_cache (addr % 768) addr (omega (arith, v.same)))
            λ same es. record {
              near = en ∙ v.near;
              next = omega arith;
              same = es ∙ v.same;
              addrs = h;
              placed = v.placed;
              fits = v.fits;
              insts = v.insts;
            }
