-- ===== src/Vcdiff/Whole.antt =====
-- The file header and the windows of `ably_vcdiff_decode`, over any division into sections.
use ably_connectors.Prelude.{
  ℕ, zero, suc, ◌+◌, ◌^◌, ◌≤◌, ◌<◌, ◌≡◌, refl, arith, Bool, true, false, not, ◌&&◌, Option, none,
  some, List, [], ◌∷◌, length, All, take, drop, ltb, ◌==◌, length-drop, length-replicate, inl, inr,
  Bool-cases,
}
use ably_connectors.Vcdiff.Types.{VcdiffError, Result, ok, err, undefined, stuck, ◌>>=◌, ◌>>◌}
use ably_connectors.Vcdiff.Varint.{varint}
use ably_connectors.Vcdiff.Machine.{add_size, fail_if, run_window}
use ably_connectors.Vcdiff.Window.{
  has, slice, locate, segment, skip_checksum, start, take_byte, decode_body, decode_window, windows,
  decode_with, win_source, win_checksum,
}
use ably_connectors.Vcdiff.Defined.{Defined, IsByte, varint-bytes}
use ably_connectors.Vcdiff.Safety.{IsValid}
use ably_connectors.Vcdiff.Total.{run_window-Defined}

-- The run ends, in a result of which `P` holds, in an error, or, where `U` allows it, in undefined
-- behaviour.
abbrev pub Promises {ℓ} : {A : Type ℓ} → Type 0 → (A → Type 0) → Result A → Type 0
Promises U P (ok a) = P a
Promises U P (err e) = Unit
Promises U P undefined = U
Promises U P stuck = ⊥

module _ (U : Type 0) where
  bind-Promises {ℓ κ} :
      {A : Type ℓ} {B : Type κ} (P : A → Type 0) (Q : B → Type 0) (r : Result A) (f : A → Result B)
      → Promises U P r
      → ((a : A) → P a → Promises U Q (f a))
      → Promises U Q (r >>= f)
  bind-Promises P Q (ok a) f d k = k a d
  bind-Promises P Q (err e) f d k = tt
  bind-Promises P Q undefined f d k = d
  bind-Promises P Q stuck f d k = d

  from_Defined {ℓ} : {A : Type ℓ} (P : A → Type 0) (r : Result A) → Defined P r → Promises U P r
  from_Defined P (ok a) d = d
  from_Defined P (err e) d = tt
  from_Defined P undefined d = absurd d
  from_Defined P stuck d = absurd d

  guard-Promises {ℓ} :
      {A : Type ℓ} (Q : A → Type 0) (b : Bool) (e : VcdiffError) (r : Result A)
      → (b ≡ false → Promises U Q r)
      → Promises U Q (fail_if b (err e) >> r)
  guard-Promises Q true e r k = tt
  guard-Promises Q false e r k = k refl

pub All-take : (n : ℕ) (xs : List ℕ) → All IsByte xs → All IsByte (take n xs)
All-take zero xs h = tt
All-take (suc n) [] h = tt
All-take (suc n) (x ∷ xs) h = (h.0, All-take n xs h.1)

pub All-drop : (n : ℕ) (xs : List ℕ) → All IsByte xs → All IsByte (drop n xs)
All-drop zero xs h = h
All-drop (suc n) [] h = tt
All-drop (suc n) (x ∷ xs) h = All-drop n xs h.1

slice-Defined : (bytes : List ℕ) (spos slen : ℕ) → Defined (λ _. Unit {0}) (slice bytes spos slen)
slice-Defined bytes spos slen = elim (Bool-cases (ltb (length bytes) (add_size spos slen))) [
  | inl t ↦ rw t tt
  | inr f ↦ rw f tt
]

locate-Defined :
    (source : Option (List ℕ)) (output : List ℕ) (b : Bool) (spos slen : ℕ)
    → Defined (λ _. Unit {0}) (locate source output b spos slen)
locate-Defined none output true spos slen = tt
locate-Defined (some source) output true spos slen = slice-Defined source spos slen
locate-Defined none output false spos slen = slice-Defined output spos slen
locate-Defined (some source) output false spos slen = slice-Defined output spos slen

pub start-IsValid :
    (seg output adds insts addrs : List ℕ) (out_cap : ℕ)
    → All IsByte addrs
    → length output ≤ out_cap
    → IsValid
        (record { seg = seg; out_cap = out_cap; window_tgt_start = length output })
        (length insts)
        (start output adds insts addrs)
start-IsValid seg output adds insts addrs out_cap h fits = record {
  near = length-replicate {A = ℕ} 4 0;
  next = omega arith;
  same = length-replicate {A = ℕ} 768 0;
  addrs = h;
  placed = omega arith;
  fits = fits;
  insts = omega arith;
}

abbrev pub Fits : ℕ → List ℕ → Type 0
Fits out_cap output = length output ≤ out_cap

-- What the decoder asks of the division of a window with lengths below `bound` into its sections: byte
-- sections, or `U`. What is known of the bytes is `G`.
abbrev pub IsSplit :
    Type 0
    → ℕ
    → (List ℕ → Type 0)
    → (List ℕ → ℕ → ℕ → ℕ → Result (List ℕ × List ℕ × List ℕ))
    → Type 0
IsSplit U bound G split =
    (w : List ℕ) (d i a : ℕ)
    → G w
    → d < bound
    → i < bound
    → a < bound
    → Promises U (λ parts. All IsByte parts.2) (split w d i a)

-- Any number that is read is below `bound`, and what is known of bytes is known of the bytes behind.
abbrev pub Reads : Type 0 → ℕ → (List ℕ → Type 0) → Type 0
Reads U bound G =
    (src : List ℕ)
    → G src
    → Promises U (λ r. (r.0 < bound) × (length r.1 < length src) × G r.1) (varint src)

-- Numbers below 2^63 are read from bytes.
pub varint-Reads : (U : Type 0) → Reads U (2 ^ 63) (All IsByte)
varint-Reads U src h = from_Defined U _ (varint src) (varint-bytes src h)

module _ (U : Type 0) (bound : ℕ) (G : List ℕ → Type 0)
    (split : List ℕ → ℕ → ℕ → ℕ → Result (List ℕ × List ℕ × List ℕ))
    (safe : IsSplit U bound G split) (varint-Promises : Reads U bound G)
    (tail : (b : ℕ) (rest : List ℕ) → G (b ∷ rest) → G rest)
    (taken : (n : ℕ) (src : List ℕ) → G src → G (take n src)) (out_cap : ℕ)
    (cap : out_cap < 2 ^ 63) where
  dropped : (n : ℕ) (src : List ℕ) → G src → G (drop n src)
  dropped zero src h = h
  dropped (suc n) [] h = h
  dropped (suc n) (b ∷ rest) h = dropped n rest (tail b rest h)

  take_byte-Promises : (src : List ℕ) → G src → Promises U (λ r. G r.1) (take_byte src)
  take_byte-Promises [] h = tt
  take_byte-Promises (b ∷ rest) h = tail b rest h

  decode_body-Promises :
      (seg output w : List ℕ)
      → Fits out_cap output
      → G w
      → Promises U (Fits out_cap) (decode_body split out_cap seg output w)
  unfolding decode_body
  decode_body-Promises seg output w fits h =
      bind-Promises U _ (Fits out_cap) (varint w) _ (varint-Promises w h) λ target ht.
        bind-Promises U _ (Fits out_cap) (take_byte target.1) _ (take_byte-Promises target.1 ht.2)
          λ ind hi. guard-Promises U (Fits out_cap) (has ind.0 0x07) _ _ λ _.
            bind-Promises U _ (Fits out_cap) (varint ind.1) _ (varint-Promises ind.1 hi) λ d hd.
              bind-Promises U _ (Fits out_cap) (varint d.1) _ (varint-Promises d.1 hd.2) λ i hi'.
                bind-Promises U _ (Fits out_cap) (varint i.1) _ (varint-Promises i.1 hi'.2) λ a ha.
                  bind-Promises U _ (Fits out_cap) (split a.1 d.0 i.0 a.0) _
                    (safe a.1 d.0 i.0 a.0 ha.2 hd.0 hi'.0 ha.0)
                    λ parts hp.
                      guard-Promises U (Fits out_cap)
                        (ltb out_cap (add_size (length output) target.0)) _ _
                        λ _.
                          bind-Promises U _ (Fits out_cap)
                            (run_window
                              (record {
                                seg = seg;
                                out_cap = out_cap;
                                window_tgt_start = length output;
                              })
                              (start output parts.0 parts.1 parts.2))
                            _
                            (from_Defined U
                              (λ m.
                                (length m.output ≡ length output + m.tgt_written)
                                × Fits out_cap m.output)
                              _
                              (run_window-Defined
                                (record {
                                  seg = seg;
                                  out_cap = out_cap;
                                  window_tgt_start = length output;
                                })
                                cap (start output parts.0 parts.1 parts.2)
                                (start-IsValid seg output parts.0 parts.1 parts.2 out_cap hp fits)))
                            λ m hm.
                              guard-Promises U (Fits out_cap) (not (m.tgt_written == target.0)) _ _
                                λ _. hm.1

  segment-Promises :
      (source : Option (List ℕ)) (output : List ℕ) (win_ind : ℕ) (p : List ℕ)
      → G p
      → Promises U (λ s. (length s.1 ≤ length p) × G s.1) (segment source output win_ind p)
  unfolding segment
  segment-Promises source output win_ind p h = elim (Bool-cases (has win_ind 0x03)) [
    | inl t ↦ rw t (
        bind-Promises U _ _ (varint p) _ (varint-Promises p h) λ s hs.
          bind-Promises U _ _ (varint s.1) _ (varint-Promises s.1 hs.2) λ o ho.
            bind-Promises U (λ _. Unit {0}) _
              (locate source output (has win_ind win_source) o.0 s.0) _
              (from_Defined U (λ _. Unit {0})
                (locate source output (has win_ind win_source) o.0 s.0)
                (locate-Defined source output (has win_ind win_source) o.0 s.0))
              λ seg _. (omega (arith, hs.1, ho.1), ho.2))
    | inr f ↦ rw f (omega arith, h)
  ]

  skip_checksum-Promises :
      (win_ind : ℕ) (p : List ℕ)
      → G p
      → Promises U (λ r. (length r ≤ length p) × G r) (skip_checksum win_ind p)
  skip_checksum-Promises win_ind p h = elim (Bool-cases (has win_ind win_checksum)) [
    | inl t ↦ elim (Bool-cases (ltb (length p) 4)) [
      | inl short ↦ rw (t, short) tt
      | inr long ↦ rw (t, long) (ground (arith, length-drop 4 p), dropped 4 p h)
    ]
    | inr f ↦ rw f (omega arith, h)
  ]

  decode_window-Promises :
      (source : Option (List ℕ)) (output : List ℕ) (win_ind : ℕ) (p : List ℕ)
      → Fits out_cap output
      → G p
      → Promises U
          (λ r. Fits out_cap r.0 × (length r.1 ≤ length p) × G r.1)
          (decode_window split out_cap source output win_ind p)
  unfolding decode_window
  decode_window-Promises source output win_ind p fits h =
      bind-Promises U _ _ (segment source output win_ind p) _
        (segment-Promises source output win_ind p h)
        λ s hs. bind-Promises U _ _ (varint s.1) _ (varint-Promises s.1 hs.1) λ wlen hw.
          guard-Promises U _ (ltb (length wlen.1) wlen.0) _ _ λ enough.
            bind-Promises U _ _ (skip_checksum win_ind (drop wlen.0 wlen.1)) _
              (skip_checksum-Promises win_ind (drop wlen.0 wlen.1) (dropped wlen.0 wlen.1 hw.2))
              λ rest hr.
                bind-Promises U _ _ (decode_body split out_cap s.0 output (take wlen.0 wlen.1)) _
                  (decode_body-Promises s.0 output (take wlen.0 wlen.1) fits
                    (taken wlen.0 wlen.1 hw.2))
                  λ output' ho.
                    (ho, omega (arith, hr.0, hw.1, hs.0, length-drop wlen.0 wlen.1), hr.1)

  windows-Promises :
      (fuel : ℕ) (source : Option (List ℕ)) (output p : List ℕ)
      → length p ≤ fuel
      → Fits out_cap output
      → G p
      → Promises U (Fits out_cap) (windows split out_cap fuel source output p)
  unfolding windows
  windows-Promises fuel source output [] enough fits h = fits
  windows-Promises zero source output (win_ind ∷ p) enough fits h = absurd (omega arith)
  windows-Promises (suc fuel) source output (win_ind ∷ p) enough fits h =
      bind-Promises U _ (Fits out_cap) (decode_window split out_cap source output win_ind p) _
        (decode_window-Promises source output win_ind p fits (tail win_ind p h))
        λ r hr. windows-Promises fuel source r.0 r.1 (omega (arith, hr.1)) hr.0 hr.2

  pub decode_with-Promises :
      (source : Option (List ℕ)) (delta : List ℕ)
      → G delta
      → Promises U (Fits out_cap) (decode_with split out_cap source delta)
  unfolding decode_with
  decode_with-Promises source [] h = tt
  decode_with-Promises source (a ∷ []) h = tt
  decode_with-Promises source (a ∷ b ∷ []) h = tt
  decode_with-Promises source (a ∷ b ∷ c ∷ []) h = tt
  decode_with-Promises source (a ∷ b ∷ c ∷ d ∷ []) h = tt
  decode_with-Promises source (a ∷ b ∷ c ∷ d ∷ flags ∷ p) h =
      elim (Bool-cases (a == 0xD6 && b == 0xC3 && c == 0xC4 && d == 0x00)) [
        | inr other ↦ rw other tt
        | inl magic ↦ elim (Bool-cases (has flags 0x01)) [
          | inl comp ↦ rw (magic, comp) tt
          | inr plain ↦ elim (Bool-cases (has flags 0x02)) [
            | inl tbl ↦ rw (magic, plain, tbl) tt
            | inr fine ↦
                rw (magic, plain, fine)
                  (windows-Promises (length p) source [] p (omega arith) (omega arith)
                    (dropped 5 (a ∷ b ∷ c ∷ d ∷ flags ∷ p) h))
          ]
        ]
      ]
