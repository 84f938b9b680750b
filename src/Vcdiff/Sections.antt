-- ===== src/Vcdiff/Sections.antt =====
-- The division of a window into its sections (`data_len + inst_len + addr_len > (p_end - p)` in
-- `ably_vcdiff_decode`), and what it leaves of the decoder's safety.
use ably_connectors.Prelude.{
  ℕ, ◌+◌, ◌%◌, ◌^◌, ◌≤◌, ◌<◌, ◌≡◌, arith, Option, List, length, All, take, drop, ltb, leb, inl, inr,
  Bool-cases,
}
use ably_connectors.Vcdiff.Types.{Result, ok, err, undefined, stuck, truncated}
use ably_connectors.Vcdiff.Window.{sections, decode}
use ably_connectors.Vcdiff.Defined.{IsByte}
use ably_connectors.Vcdiff.Whole.{
  Promises, IsSplit, varint-Reads, Fits, All-take, All-drop, decode_with-Promises,
}

pub parts-IsByte : (w : List ℕ) (d i a : ℕ) → All IsByte w → All IsByte (take a (drop i (drop d w)))
parts-IsByte w d i a h = All-take a _ (All-drop i _ (All-drop d w h))

sections-IsSplit : IsSplit (Unit {0}) (2 ^ 63) (All IsByte) sections
unfolding sections
sections-IsSplit w d i a h _ _ _ = elim (Bool-cases (ltb (length w) ((d + i + a) % 2 ^ 64))) [
  | inl short ↦ rw short tt
  | inr long ↦ elim (Bool-cases (leb (d + i + a) (length w))) [
    | inl fits ↦ rw (long, fits) (parts-IsByte w d i a h)
    | inr past ↦ rw (long, past) tt
  ]
]

pub decode-Promises :
    (out_cap : ℕ) (source : Option (List ℕ)) (delta : List ℕ)
    → out_cap < 2 ^ 63
    → All IsByte delta
    → Promises (Unit {0}) (Fits out_cap) (decode out_cap source delta)
unfolding decode
decode-Promises out_cap source delta cap h =
    decode_with-Promises (Unit {0}) (2 ^ 63) (All IsByte) sections sections-IsSplit
      (varint-Reads (Unit {0})) (λ b rest k. k.1) All-take out_cap cap source delta h

-- While the sum of the three lengths does not reach 2^64, a window is divided into three sections
-- that stand one behind the other and have these lengths, exactly when the window has so many bytes.
pub sections-exact :
    (w : List ℕ) (d i a : ℕ)
    → d + i + a < 2 ^ 64
    → (d + i + a ≤ length w
        → sections w d i a ≡ ok (take d w, take i (drop d w), take a (drop i (drop d w))))
      × (length w < d + i + a → sections w d i a ≡ err truncated)
unfolding sections
sections-exact w d i a small =
    let same : (d + i + a) % 2 ^ 64 ≡ d + i + a = omega arith in
    rw same ((λ fits. ground arith), (λ past. ground arith))

abbrev given : List ℕ → Result (List ℕ)
given out = ok out

ok-bytes : (a b : List ℕ) → given a ≡ given b → a ≡ b
ok-bytes a b e = cc e

ends :
    (out_cap : ℕ) (result : Result (List ℕ))
    → Promises (Unit {0}) (Fits out_cap) result
    → ¬ (result ≡ stuck) × ((out : List ℕ) → result ≡ ok out → length out ≤ out_cap)
ends out_cap (ok bytes) fits = ((λ e. cc e), (λ out e. rw (ok-bytes bytes out e) at fits))
ends out_cap (err e) fits = ((λ e. cc e), (λ out e. absurd (cc e)))
ends out_cap undefined fits = ((λ e. cc e), (λ out e. absurd (cc e)))
ends out_cap stuck fits = absurd fits

-- For every delta of bytes and every capacity below 2^63, the rounds of the model suffice for the
-- loops of the decoder: the run comes to bytes, to an error or to a step that C leaves undefined. If
-- it comes to bytes, they are no more than the capacity.
pub decode-ends :
    (out_cap : ℕ) (source : Option (List ℕ)) (delta : List ℕ)
    → out_cap < 2 ^ 63
    → All IsByte delta
    → ¬ (decode out_cap source delta ≡ stuck)
      × ((out : List ℕ) → decode out_cap source delta ≡ ok out → length out ≤ out_cap)
decode-ends out_cap source delta cap h =
    ends out_cap (decode out_cap source delta) (decode-Promises out_cap source delta cap h)
