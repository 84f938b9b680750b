-- ===== src/Channel/DeltaLaws.antt =====
-- What the subscribers of a delta channel are given, and the base that the next delta is applied to:
-- ably-c/src/realtime/channel.c with base64.c and delta/vcdiff.c.
use ably_connectors.Prelude.{
  ℕ, ◌≤◌, ◌<◌, ◌≡◌, ◌⊎◌, refl, ◌∙◌, arith, true, false, Option, none, some, List, length, All, ltb,
  inl, inr, Bool-cases, Option-cases,
}
use ably_connectors.Base64
use ably_connectors.Base64.{codes, decode_max_len}
use ably_connectors.Base64.Encode.{IsByte}
use ably_connectors.Base64.Decode.{decode-encode, decode_bounds}
use ably_connectors.Types.{ProtoMessage, or_empty, c_string}
use ably_connectors.Vcdiff.Types.{Result, ok, err, undefined, stuck}
use ably_connectors.Vcdiff.Window
use ably_connectors.Vcdiff.Whole.{Promises, Fits}
use ably_connectors.Vcdiff.Sections.{decode-Promises}
use ably_connectors.Channel.Listeners.{strcmp_eq}
use ably_connectors.Channel.Delta.{
  DeltaState, base, rebase, spoil, Resolved, dropped, resolved, undefined_run, is_vcdiff, patched,
  patch, note_id, replace, resolve,
}

-- The base is known, and there is room for a NUL behind it.
pub record HasBase (d : DeltaState) : Type 0 where
  pub out : List ℕ
  pub known : base d ≡ some out
  pub room : length out < 32768

-- What a message leaves: a message that is dropped, or that has no data, leaves the base; else the
-- payload is the base, or the part of it before a NUL, or it was too long for a buffer and the base stays.
abbrev pub IsRebased : DeltaState → Resolved → Type 0
IsRebased d (dropped d') = base d' ≡ base d
IsRebased d (resolved none d') = base d' ≡ base d
IsRebased d (resolved (some x) d') =
    (h : HasBase d') × ((x ≡ h.out)
      ⊎ ((x ≡ c_string h.out) ⊎ ((32768 ≤ length x) × (base d' ≡ base d))))
IsRebased d undefined_run = Unit

base-rebase : (d : DeltaState) (out : List ℕ) → base (rebase d out) ≡ some out
base-rebase d out = elim (Bool-cases d.buf_idx) [ inl e ↦ simp e refl | inr e ↦ simp e refl ]

base-spoil : (d : DeltaState) → base (spoil d) ≡ base d
base-spoil d = elim (Bool-cases d.buf_idx) [ inl e ↦ simp e refl | inr e ↦ simp e refl ]

patched-IsRebased :
    (d : DeltaState) (r : Result (List ℕ))
    → Promises (Unit {0}) (Fits 32767) r
    → IsRebased d (patched d r)
patched-IsRebased d (ok out) p =
    (record { out = out; known = base-rebase d out; room = omega (arith, p) }, inr (inl refl))
patched-IsRebased d (err e) p = base-spoil d
patched-IsRebased d undefined p = tt
patched-IsRebased d stuck p = tt

patch-IsRebased : (d : DeltaState) (b64 : List ℕ) → HasBase d → IsRebased d (patch d b64)
unfolding patch
patch-IsRebased d b64 h = elim (Bool-cases (ltb 32768 (decode_max_len (length b64)))) [
  | inl large ↦ rw large refl
  | inr small ↦ elim (Option-cases (Base64.decode 32768 b64)) [
    | inl bad ↦ rw (small, bad) (base-spoil d)
    | inr (raw, e) ↦ elim (Bool-cases (ltb 32768 (length raw))) [
      | inl over ↦ rw (small, e, over) (base-spoil d)
      | inr fits ↦
          rw (small, e, fits, h.known)
            (patched-IsRebased d _
              (decode-Promises 32767 (some h.out) raw (omega arith) (decode_bounds 32768 b64 e).2))
    ]
  ]
]

note_id-base : (d : DeltaState) (id : Option (List ℕ)) → base (note_id d id) ≡ base d
note_id-base d none = refl
note_id-base d (some i) = refl

replace-IsRebased :
    (d : DeltaState) (id : Option (List ℕ)) (s : List ℕ) → HasBase d → IsRebased d (replace d id s)
unfolding replace
replace-IsRebased d id s h = elim (Bool-cases (ltb (length s) 32768)) [
  | inl fits ↦ rw fits (
    record { out = s; known = note_id-base (rebase d s) id ∙ base-rebase d s; room = ground arith },
    inl refl,
  )
  | inr over ↦ rw over (
    record { out = h.out; known = note_id-base d id ∙ h.known; room = h.room },
    inr (inr (ground arith, note_id-base d id)),
  )
]

-- On a channel with deltas whose base is known and leaves room for its NUL, whatever the message, in a
-- run that C gives a meaning: a message that is dropped leaves the base as it is; after one with data the
-- base is known again, and it is the payload, or has the payload before its first NUL, or the payload
-- was too long for a buffer and the base is the one from before.
pub resolve-IsRebased :
    (d : DeltaState) (pm : ProtoMessage) → d.enabled ≡ true → HasBase d → IsRebased d (resolve d pm)
unfolding resolve
resolve-IsRebased d pm on h = elim (Bool-cases (is_vcdiff pm.delta_format)) [
  | inl delta ↦ simp (on, delta) (patch-IsRebased d (or_empty pm.msg_data) h)
  | inr full ↦ elim (Option-cases pm.msg_data) [
    | inl empty ↦ simp (on, full, empty) refl
    | inr (s, e) ↦ simp (on, full, e) (replace-IsRebased d pm.id s h)
  ]
]

-- A delta channel and a message whose data is the base64 text of a delta that decodes against the base:
-- the subscribers are given what it decodes to, up to a first NUL, and all of it is the base of the
-- next delta.
pub resolve-delta :
    (d : DeltaState) (pm : ProtoMessage) (source raw out : List ℕ)
    → d.enabled ≡ true
    → base d ≡ some source
    → pm.delta_format ≡ some (codes "vcdiff")
    → pm.msg_data ≡ some (Base64.encode raw)
    → All IsByte raw
    → decode_max_len (length (Base64.encode raw)) ≤ 32768
    → length raw ≤ 32768
    → Window.decode 32767 (some source) raw ≡ ok out
    → (d' : DeltaState) × (resolve d pm ≡ resolved (some (c_string out)) d')
      × (d'.enabled ≡ true)
      × (base d' ≡ some out)
unfolding resolve patch
resolve-delta d pm source raw out on known format text bytes small fits e =
    let lets : is_vcdiff (some (codes "vcdiff")) ≡ true = unfold strcmp_eq in refl in
    let under : ltb 32768 (decode_max_len (length (Base64.encode raw))) ≡ false = ground arith in
    let short : ltb 32768 (length raw) ≡ false = ground arith in
    let still : (rebase d out).enabled ≡ true = elim (Bool-cases d.buf_idx) [
      | inl i ↦ simp (i, on) refl
      | inr i ↦ simp (i, on) refl
    ] in
    (
      rebase d out,
      simp (on, format, text, lets, under, decode-encode raw 32768 bytes fits, short, known, e)
          refl,
      still,
      base-rebase d out,
    )
