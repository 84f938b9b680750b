-- ===== src/Realtime/Sync.antt =====
-- PRESENCE and SYNC frames of ably-c/src/realtime/presence.c: the invariant, and the loop of `end_sync`.
use ably_connectors.Prelude.{
  ℕ, zero, suc, ◌+◌, ◌≤◌, ◌<◌, ◌≡◌, ◌⊎◌, refl, ap, ◌∙◌, arith, Bool, true, false, ◌&&◌, Option,
  none, some, List, [], ◌∷◌, length, set, All, get_or-set_self, get_or-set_ne, if◌then◌else◌, inl,
  inr, Bool-cases, Option-cases,
}
use ably_connectors.Hashmap
use ably_connectors.Hashmap.{Hashmap}
use ably_connectors.Hashmap.Probe.{IsKey}
use ably_connectors.Realtime.Presence.{
  PresenceMessage, Member, PresenceState, no_member, member_at, pool_free, drop_member, begin_sync,
  sweep, end_sync, as_present, handle_message, upsert_page, is_last_page, handle_sync,
}
use ably_connectors.Realtime.Members.{IsValid, in_use-lt, drop_member-IsValid}
use ably_connectors.Realtime.Joins.{upsert_member-IsValid, handle_one-IsValid, begin_sync-IsValid}
use native.Mathlib.Decide.{ℕ_discrete}

abbrev pub NamesKey : PresenceMessage → Type 0
NamesKey msg = IsKey msg.client_id

-- A member that `end_sync` drops.
abbrev pub leaves : Member → Bool
leaves m = m.in_use && m.stale

-- What the loop of `end_sync` makes of a member, from index `i` with `n` left.
abbrev Swept : ℕ → ℕ → Member → Member → ℕ → Type 0
Swept n i before after j =
    (i ≤ j → j < i + n → leaves before ≡ true → after.in_use ≡ false)
    × ((j < i) ⊎ ((i + n ≤ j) ⊎ (leaves before ≡ false)) → after ≡ before)

-- A member that stays is passed over.
pass_over :
    (n i j : ℕ) (pool : List Member) (after : Member)
    → leaves (member_at pool i) ≡ false
    → Swept n (i + 1) (member_at pool j) after j
    → Swept (suc n) i (member_at pool j) after j
pass_over n i j pool after stays rest = (
  λ lo hi lv. elim (ℕ_discrete i j) [
    | yes same ↦ absurd (cc (lv, stays, same))
    | no ne ↦ rest.0 (omega arith) (omega arith) lv
  ],
  λ c. elim c [
    | inl lt ↦ rest.1 (inl (omega arith))
    | inr (inl ge) ↦ rest.1 (inr (inl (omega arith)))
    | inr (inr st) ↦ rest.1 (inr (inr st))
  ],
)

-- A member that leaves is taken out of use, and not touched again.
take_out :
    (n i j : ℕ) (pool : List Member) (after : Member)
    → i < length pool
    → leaves (member_at pool i) ≡ true
    → Swept n
        (i + 1)
        (member_at (set pool i (record (member_at pool i) { in_use = false })) j)
        after
        j
    → Swept (suc n) i (member_at pool j) after j
take_out n i j pool after inside goes rest =
    let m : Member = record (member_at pool i) { in_use = false } in
    elim (ℕ_discrete i j) [
      | yes same ↦
          let out : member_at (set pool i m) j ≡ m =
            rw (← same) (get_or-set_self pool i m no_member inside) in
          (
            λ lo hi lv. ap (λ (x : Member). x.in_use) (rest.1 (inl (omega arith)) ∙ out),
            λ c. elim c [
              | inl lt ↦ absurd (omega arith)
              | inr (inl ge) ↦ absurd (omega arith)
              | inr (inr st) ↦ absurd (cc (st, goes, same))
            ],
          )
      | no ne ↦
          let kept = get_or-set_ne pool i j m no_member ne in
          (
            λ lo hi lv. rest.0 (omega arith) (omega arith) (rw kept lv),
            λ c. elim c [
              | inl lt ↦ rest.1 (inl (omega arith)) ∙ kept
              | inr (inl ge) ↦ rest.1 (inr (inl (omega arith))) ∙ kept
              | inr (inr st) ↦ rest.1 (inr (inr (rw kept st))) ∙ kept
            ],
          )
    ]

sweep-Swept :
    (n i : ℕ) {pres : PresenceState}
    → IsValid pres
    → IsValid (sweep n i pres).0
      × ((j : ℕ) → Swept n i (member_at pres.pool j) (member_at (sweep n i pres).0.pool j) j)
unfolding sweep drop_member pool_free
sweep-Swept zero i v = (v, λ j. (λ a b c. absurd (omega (arith, a, b)), λ _. refl))
sweep-Swept (suc n) i {pres} v = elim (Bool-cases (leaves (member_at pres.pool i))) [
  | inr stays ↦
      let (v', rest) = sweep-Swept n (i + 1) v in
      rw stays (v', λ j. pass_over n i j pres.pool _ stays (rest j))
  | inl goes ↦
      let used : (member_at pres.pool i).in_use ≡ true = ground (arith, goes) in
      let (v', rest) = sweep-Swept n (i + 1) (drop_member-IsValid v i used) in
      rw goes (
        v',
        λ j. take_out n i j pres.pool _ (omega (arith, in_use-lt v i used, v.sized)) goes (rest j),
      )
]

abbrev pub member_of : List Member → Option ℕ → Option Member
member_of pool none = none
member_of pool (some i) = some (member_at pool i)

-- The member with the client id `q`.
unfoldable pub lookup : PresenceState → List ℕ → Option Member
lookup pres q = member_of pres.pool (Hashmap.get pres.map q)

-- What `end_sync` leaves of a member.
abbrev pub fresh : Option Member → Option Member
fresh none = none
fresh (some m) = if m.stale then none else some m

pub end_sync-IsValid : {pres : PresenceState} → IsValid pres → IsValid (end_sync pres).0
unfolding end_sync
end_sync-IsValid {pres} v =
    let (v', _) = sweep-Swept 128 0 v in
    record {
      valid = v'.valid;
      sized = v'.sized;
      forward = v'.forward;
      backward = v'.backward;
      normal = v'.normal;
    }

module _ {pres : PresenceState} (v : IsValid pres) (q : List ℕ) (k : IsKey q) where
  -- A member of the new state was the same member of the old one, and not stale.
  survivor :
      (j : ℕ)
      → (member_at (end_sync pres).0.pool j).in_use ≡ true
      → (member_at (end_sync pres).0.pool j ≡ member_at pres.pool j)
        × (leaves (member_at pres.pool j) ≡ false)
  unfolding end_sync
  survivor j used =
      let (v', swept) = sweep-Swept 128 0 v in
      let inside = in_use-lt v' j used in
      elim (Bool-cases (leaves (member_at pres.pool j))) [
        | inl goes ↦ absurd (cc (used, (swept j).0 (omega arith) (omega arith) goes))
        | inr stays ↦ ((swept j).1 (inr (inr stays)), stays)
      ]

  pub end_sync-none : Hashmap.get pres.map q ≡ none → Hashmap.get (end_sync pres).0.map q ≡ none
  end_sync-none new = elim (Option-cases (Hashmap.get (end_sync pres).0.map q)) [
    | inl e ↦ e
    | inr (j, e) ↦
        let (inside, used, named) = (end_sync-IsValid v).forward q j k e in
        let (same, stays) = survivor j used in
        let old = v.backward j (rw same at used) in absurd (cc (old.1, new, rw same at named))
  ]

  -- A client id that the map sends nowhere, or to a stale member, is sent nowhere afterwards.
  end_sync-dropped :
      (i : ℕ)
      → Hashmap.get pres.map q ≡ some i
      → leaves (member_at pres.pool i) ≡ true
      → Hashmap.get (end_sync pres).0.map q ≡ none
  end_sync-dropped i found goes = elim (Option-cases (Hashmap.get (end_sync pres).0.map q)) [
    | inl e ↦ e
    | inr (j, e) ↦
        let (inside, used, named) = (end_sync-IsValid v).forward q j k e in
        let (same, stays) = survivor j used in
        let old = v.backward j (rw same at used) in
        let there : Hashmap.get pres.map q ≡ some j = rw (rw same at named) at old.1 in
        let here : j ≡ i = cc (there, found) in absurd (cc (stays, goes, here))
  ]

  pub end_sync-kept :
      (i : ℕ)
      → Hashmap.get pres.map q ≡ some i
      → (member_at pres.pool i).stale ≡ false
      → (member_at (end_sync pres).0.pool i ≡ member_at pres.pool i)
        × (Hashmap.get (end_sync pres).0.map q ≡ some i)
  end_sync-kept i found firm =
      let (inside, used, named) = v.forward q i k found in
      let stays : leaves (member_at pres.pool i) ≡ false = ground (arith, firm, used) in
      let same : member_at (end_sync pres).0.pool i ≡ member_at pres.pool i =
        unfold end_sync in ((sweep-Swept 128 0 v).1 i).1 (inr (inr stays)) in
      let new = (end_sync-IsValid v).backward i (ap (λ (x : Member). x.in_use) same ∙ used) in
      (same, rw (ap (λ (x : Member). x.msg.client_id) same ∙ named) at new.1)

  pub end_sync-some :
      (i : ℕ)
      → Hashmap.get pres.map q ≡ some i
      → member_of (end_sync pres).0.pool (Hashmap.get (end_sync pres).0.map q)
        ≡ fresh (some (member_at pres.pool i))
  end_sync-some i found = elim (Bool-cases (member_at pres.pool i).stale) [
    | inl old ↦
        let used = (v.forward q i k found).1 in
        rw (old, end_sync-dropped i found (ground (arith, old, used))) refl
    | inr firm ↦ let (same, there) = end_sync-kept i found firm in rw (firm, there) (ap some same)
  ]

  -- The end of a SYNC sequence drops the stale members and leaves every other member as it is.
  pub end_sync-lookup : lookup (end_sync pres).0 q ≡ fresh (lookup pres q)
  unfolding lookup
  end_sync-lookup = elim (Option-cases (Hashmap.get pres.map q)) [
    | inl new ↦ rw (new, end_sync-none new) refl
    | inr (i, found) ↦ rw found (end_sync-some i found)
  ]

pub handle_message-IsValid :
    (msgs : List PresenceMessage) {pres : PresenceState}
    → All NamesKey msgs
    → IsValid pres
    → IsValid (handle_message pres msgs).0
unfolding handle_message
handle_message-IsValid [] k v = v
handle_message-IsValid (msg ∷ msgs) k v =
    handle_message-IsValid msgs k.1 (handle_one-IsValid v msg msg.action k.0)

pub upsert_page-IsValid :
    (msgs : List PresenceMessage) {pres : PresenceState}
    → All NamesKey msgs
    → IsValid pres
    → IsValid (upsert_page pres msgs).0
unfolding upsert_page
upsert_page-IsValid [] k v = v
upsert_page-IsValid (msg ∷ msgs) k v =
    upsert_page-IsValid msgs k.1 (upsert_member-IsValid v (as_present msg) true k.0 refl)

either_IsValid :
    {p q : PresenceState} (b : Bool) → IsValid p → IsValid q → IsValid (if b then p else q)
either_IsValid true v w = v
either_IsValid false v w = w

pub began-IsValid :
    (pres : PresenceState) → IsValid pres → IsValid (if pres.syncing then pres else begin_sync pres)
began-IsValid pres v = either_IsValid pres.syncing v (begin_sync-IsValid v)

pub handle_sync-IsValid :
    {pres : PresenceState} (msgs : List PresenceMessage) (sync_serial : List ℕ)
    → All NamesKey msgs
    → IsValid pres
    → IsValid (handle_sync pres msgs sync_serial).0
unfolding handle_sync
handle_sync-IsValid {pres} msgs sync_serial k v =
    let v' = upsert_page-IsValid msgs k (began-IsValid pres v) in
    elim (Bool-cases (is_last_page sync_serial)) [
      | inl last ↦ rw last (end_sync-IsValid v')
      | inr more ↦ rw more v'
    ]
