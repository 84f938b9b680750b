-- ===== src/Vcdiff/Defined.antt =====
-- Runs of the decoder that C gives a meaning to, and what they promise of their result.
use ably_connectors.Prelude.{
  ℕ, zero, suc, ◌+◌, ◌^◌, ◌<◌, ◌≡◌, refl, arith, Bool, true, false, some, List, [], ◌∷◌, length,
  All, get_elem?, leb, ◌==◌, bit_and, inl, inr, Option-cases, Bool-cases,
}
use ably_connectors.Vcdiff.Types.{
  VcdiffError, Result, ok, err, undefined, stuck, ◌>>=◌, ◌>>◌, in_bounds,
}
use ably_connectors.Vcdiff.Varint.{read_from, read_varint, varint, read_varint_bounds}
use ably_connectors.Vcdiff.Machine.{fail_if}

-- The run stays inside its buffers and comes to an end, and what it returns satisfies `P`.
abbrev pub Defined {ℓ} : {A : Type ℓ} → (A → Type 0) → Result A → Type 0
Defined P (ok a) = P a
Defined P (err e) = Unit
Defined P undefined = ⊥
Defined P stuck = ⊥

pub bind-Defined {ℓ κ} :
    {A : Type ℓ} {B : Type κ} (P : A → Type 0) (Q : B → Type 0) (r : Result A) (f : A → Result B)
    → Defined P r
    → ((a : A) → P a → Defined Q (f a))
    → Defined Q (r >>= f)
bind-Defined P Q (ok a) f d k = k a d
bind-Defined P Q (err e) f d k = tt
bind-Defined P Q undefined f d k = absurd d
bind-Defined P Q stuck f d k = absurd d

pub weaken-Defined {ℓ} :
    {A : Type ℓ} (P Q : A → Type 0) (r : Result A)
    → ((a : A) → P a → Q a)
    → Defined P r
    → Defined Q r
weaken-Defined P Q (ok a) k d = k a d
weaken-Defined P Q (err e) k d = tt
weaken-Defined P Q undefined k d = d
weaken-Defined P Q stuck k d = d

-- Behind a test that returns an error, the condition is known to be false.
pub guard-Defined {ℓ} :
    {A : Type ℓ} (Q : A → Type 0) (b : Bool) (e : VcdiffError) (r : Result A)
    → (b ≡ false → Defined Q r)
    → Defined Q (fail_if b (err e) >> r)
guard-Defined Q true e r k = tt
guard-Defined Q false e r k = k refl

pub in_bounds-Defined {ℓ} :
    {A : Type ℓ} (xs : List A) (i : ℕ)
    → i < length xs
    → Defined (λ _. Unit) (in_bounds (get_elem? xs i))
in_bounds-Defined [] i h = absurd (omega arith)
in_bounds-Defined (x ∷ xs) zero h = tt
in_bounds-Defined (x ∷ xs) (suc i) h = in_bounds-Defined xs i (omega arith)

abbrev pub IsByte : ℕ → Type 0
IsByte b = b < 256

read_from-All :
    (src : List ℕ) (n v w : ℕ) (rest : List ℕ)
    → All IsByte src
    → read_from n v src ≡ some (w, rest)
    → All IsByte rest
unfolding read_from
read_from-All [] n v w rest h e = cc
read_from-All (b ∷ src) n v w rest h e = elim (Bool-cases (bit_and b 0x80 == 0)) [
  | inl last ↦ let same : src ≡ rest = cc (rw last at e) in rw (← same) h.1
  | inr more ↦ elim (Bool-cases (leb 9 (n + 1))) [
    | inl over ↦ cc (rw (more, over) at e)
    | inr fine ↦ read_from-All src (n + 1) _ w rest h.1 (rw (more, fine) at e)
  ]
]

pub varint-Defined :
    (src : List ℕ) → Defined (λ r. (r.0 < 2 ^ 63) × (length r.1 < length src)) (varint src)
varint-Defined src = elim (Option-cases (read_varint src)) [
  | inl e ↦ rw e tt
  | inr ((w, rest), e) ↦ rw e (read_varint_bounds src e)
]

pub varint-bytes :
    (src : List ℕ)
    → All IsByte src
    → Defined (λ r. (r.0 < 2 ^ 63) × (length r.1 < length src) × All IsByte r.1) (varint src)
varint-bytes src h = elim (Option-cases (read_varint src)) [
  | inl e ↦ rw e tt
  | inr ((w, rest), e) ↦
      let b = read_varint_bounds src e in
      rw e (b.0, b.1, read_from-All src 0 0 w rest h (unfold read_varint in e))
]
