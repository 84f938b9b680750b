-- ===== src/Prelude/Rings.antt =====
-- A ring buffer: the elements of an array from an index on, the indices taken modulo the capacity.
use Prim.Native.Nat.{ℕ, zero, suc, ◌+◌, ◌-◌, ◌%◌, ◌≤◌, ◌<◌}
use mathlib.Core.Path.{◌≡◌, refl, sym, ap, ap₂, ◌∙◌}
use mathlib.Core.Logic.{◌≢◌, ◌⊎◌, inl, inr}
use mathlib.Core.List.{List, [], ◌∷◌, ◌++◌}
use native.Mathlib.Omega.{arith}
use native.Mathlib.Decide.{dec_lt}
use native.Mathlib.Nat.{mod-eq_of_lt, mod-eq-sub-mod}
use ably_connectors.Prelude.Lists.{length, get_or, set, get_or-set_self, get_or-set_ne}

-- Below twice the capacity the remainder takes the capacity off at most once.
pub wrap_cases : (c a : ℕ) → a < c + c → ((a < c) × (a % c ≡ a)) ⊎ ((c ≤ a) × (a % c ≡ a - c))
wrap_cases c a h = elim (dec_lt a c) [
  | yes small ↦ inl (small, mod-eq_of_lt small)
  | no large ↦
      inr (omega arith, mod-eq-sub-mod {n = a} {m = c} (omega arith) ∙ mod-eq_of_lt (omega arith))
]

module _ (c : ℕ) where
  abbrev pub step_index : ℕ → ℕ
  step_index i = (i + 1) % c

  pub step_index-lt : (i : ℕ) → i < c → step_index i < c
  step_index-lt i h = elim (wrap_cases c (i + 1) (omega arith)) [
    | inl w ↦ omega (arith, w)
    | inr w ↦ omega (arith, w)
  ]

  -- The place `d + 1` behind `i` is the place `d` behind the next one.
  pub step_index-add : (i d : ℕ) → i < c → d + 1 < c → (step_index i + d) % c ≡ (i + (d + 1)) % c
  step_index-add i d hi hd = elim (wrap_cases c (i + 1) (omega arith)) [
    | inl w ↦ ap (λ (t : ℕ). t % c) (omega (arith, w))
    | inr w ↦
        ap (λ (t : ℕ). t % c) {x = step_index i + d} {y = i + (d + 1) - c} (omega (arith, w))
        ∙ sym (mod-eq-sub-mod {n = i + (d + 1)} {m = c} (omega (arith, w)))
  ]

  pub behind-ne : (i d : ℕ) → i < c → 0 < d → d < c → (i + d) % c ≢ i
  behind-ne i d hi pos hd e = elim (wrap_cases c (i + d) (omega arith)) [
    | inl w ↦ omega (arith, w, e)
    | inr w ↦ omega (arith, w, e)
  ]

  pub behind_self : (i : ℕ) → i < c → (i + 0) % c ≡ i
  behind_self i hi = ap (λ (t : ℕ). t % c) {x = i + 0} {y = i} (omega arith) ∙ mod-eq_of_lt hi

module _ {ℓ} {A : Type ℓ} (c : ℕ) (d : A) where
  -- The `n` elements from index `i` on.
  unfoldable pub ring_from : List A → ℕ → ℕ → List A
  ring_from ring i zero = []
  ring_from ring i (suc n) = get_or ring i d ∷ ring_from ring (step_index c i) n

  -- A write `k` places ahead is not seen by the `k` places before it.
  pub ring_from-set :
      (ring : List A) (x i k n : ℕ) (a : A)
      → i < c
      → k < c
      → x ≡ (i + k) % c
      → n ≤ k
      → ring_from (set ring x a) i n ≡ ring_from ring i n
  unfolding ring_from
  ring_from-set ring x i k zero a hi hk e h = refl
  ring_from-set ring x i zero (suc n) a hi hk e h = absurd (omega arith)
  ring_from-set ring x i (suc k) (suc n) a hi hk e h =
      ap₂ ◌∷◌
        (get_or-set_ne ring x i a d
          (λ same. behind-ne c i (suc k) hi (omega arith) hk (sym e ∙ same)))
        (ring_from-set ring x (step_index c i) k n a (step_index-lt c i hi) (omega arith)
          (e
            ∙ ap (λ (t : ℕ). (i + t) % c) {x = suc k} {y = k + 1} (omega arith)
            ∙ sym (step_index-add c i k hi (omega arith)))
          (omega arith))

  -- A write behind the last of `n` elements appends it.
  pub ring_from-snoc :
      (ring : List A) (x i n : ℕ) (a : A)
      → length ring ≡ c
      → i < c
      → n < c
      → x ≡ (i + n) % c
      → ring_from (set ring x a) i (suc n) ≡ ring_from ring i n ++ (a ∷ [])
  unfolding ring_from
  ring_from-snoc ring x i zero a sized hi hn e =
      let here : x ≡ i = e ∙ behind_self c i hi in
      rw here (ap (λ f. f ∷ []) (get_or-set_self ring i a d (omega (arith, sized))))
  ring_from-snoc ring x i (suc n) a sized hi hn e =
      ap₂ ◌∷◌
        (get_or-set_ne ring x i a d
          (λ same. behind-ne c i (suc n) hi (omega arith) hn (sym e ∙ same)))
        (ring_from-snoc ring x (step_index c i) n a sized (step_index-lt c i hi) (omega arith) (
          e
          ∙ ap (λ (t : ℕ). (i + t) % c) {x = suc n} {y = n + 1} (omega arith)
          ∙ sym (step_index-add c i n hi (omega arith))))
