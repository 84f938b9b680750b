-- ===== src/Client/Table.antt =====
-- The channels of a client, `ably_rt_channel_get` of ably-c/src/realtime/realtime_client.c, as a map
-- from names to channels that only grows.
use ably_connectors.Prelude.{
  ℕ, ◌≡◌, ◌⊎◌, refl, sym, ap, ◌∙◌, arith, Bool, true, false, none, some, List, [], ◌∷◌, ◌++◌,
  length, take-length_le, leb, ◌==◌, if◌then◌else◌, inl, inr, Bool-cases, Option-cases,
}
use ably_connectors.Channel.Listeners.{strcmp_eq}
use ably_connectors.Channel.Site.{Channel, channel_create}
use ably_connectors.Client.State.{Client, find_channel, channel_get}

strcmp_eq_refl : (s : List ℕ) → strcmp_eq s s ≡ true
unfolding strcmp_eq
strcmp_eq_refl [] = refl
strcmp_eq_refl (c ∷ s) = let same : (c == c) ≡ true = ground arith in rw same (strcmp_eq_refl s)

module _ {ℓ} {C : Type ℓ} where
  find_channel-append :
      (chs : List (Channel C)) (ch : Channel C) (name : List ℕ)
      → find_channel name chs ≡ none
      → find_channel name (chs ++ (ch ∷ [])) ≡ (if strcmp_eq ch.name name then some ch else none)
  unfolding find_channel
  find_channel-append [] ch name absent = refl
  find_channel-append (other ∷ chs) ch name absent = elim (Bool-cases (strcmp_eq other.name name)) [
    | inl same ↦ absurd (
        cc (sym (ap (λ (b : Bool). if b then some other else find_channel name chs) same) ∙ absent))
    | inr differs ↦ rw differs (
        find_channel-append chs ch name (
          sym (ap (λ (b : Bool). if b then some other else find_channel name chs) differs)
          ∙ absent))
  ]

  find_channel-other :
      (chs : List (Channel C)) (ch : Channel C) (other : List ℕ)
      → strcmp_eq ch.name other ≡ false
      → find_channel other (chs ++ (ch ∷ [])) ≡ find_channel other chs
  unfolding find_channel
  find_channel-other [] ch other differs = rw differs refl
  find_channel-other (first ∷ chs) ch other differs =
      elim (Bool-cases (strcmp_eq first.name other)) [
        | inl same ↦ rw same refl
        | inr next ↦ rw next (find_channel-other chs ch other differs)
      ]

  -- `name` is the name of a channel of `c'`, which has all the channels of `c`; and asking again
  -- answers the same channel and changes nothing.
  abbrev pub IsKnown : Client C → List ℕ → Client C → Channel C → Type ℓ
  IsKnown c name c' ch =
      (find_channel name c'.channels ≡ some ch)
      × ((other : List ℕ)
          → strcmp_eq name other ≡ false
          → find_channel other c'.channels ≡ find_channel other c.channels)
      × (channel_get c' name ≡ (c', some ch))

  -- `ably_rt_channel_get` on any name: it answers NULL and changes nothing, or the client afterwards
  -- knows the channel that it answers under the name and the others as before, and a second call with
  -- the name answers the same channel and changes nothing.
  pub channel_get-IsKnown :
      (c : Client C) (name : List ℕ)
      → (channel_get c name ≡ (c, none))
        ⊎ ((c' : Client C) × (ch : Channel C) × (channel_get c name ≡ (c', some ch))
            × IsKnown c name c' ch)
  unfolding channel_get
  channel_get-IsKnown c name = elim (Bool-cases (leb 256 (length name))) [
    | inl long ↦ inl (rw long refl)
    | inr short ↦ elim (Option-cases (find_channel name c.channels)) [
      | inr (ch, found) ↦
          inr (c, ch, rw (short, found) refl, (found, λ other _. refl, rw (short, found) refl))
      | inl absent ↦ elim (Bool-cases (leb 64 (length c.channels))) [
        | inl full ↦ inl (rw (short, absent, full) refl)
        | inr room ↦
            let ch : Channel C = channel_create name in
            let named : ch.name ≡ name =
              unfold channel_create in take-length_le 255 name (ground (arith, short)) in
            let c' : Client C = record c { channels = c.channels ++ (ch ∷ []) } in
            let found : find_channel name c'.channels ≡ some ch =
              find_channel-append c.channels ch name absent
              ∙ ap (λ (b : Bool). if b then some ch else none)
                  (ap (λ n. strcmp_eq n name) named ∙ strcmp_eq_refl name) in
            inr (
              c',
              ch,
              rw (short, absent, room) refl,
              (
                found,
                λ other differs.
                    find_channel-other c.channels ch other
                      (ap (λ n. strcmp_eq n other) named ∙ differs),
                rw (short, found) refl,
              ),
            )
      ]
    ]
  ]
