-- ===== src/Realtime/Kept.antt =====
-- The members that a SYNC page keeps, ably-c/src/realtime/presence.c.
use ably_connectors.Prelude.{
  ℕ, ◌≡◌, refl, ap, ◌∙◌, arith, Bool, true, false, Option, none, some, List, [], ◌∷◌, All,
  get_or-set_self, inl, inr, Option-cases,
}
use ably_connectors.Hashmap
use ably_connectors.Hashmap.{Hashmap}
use ably_connectors.Hashmap.Probe.{IsKey}
use ably_connectors.Hashmap.Spec.{keys_discrete}
use ably_connectors.Realtime.Presence.{
  present, PresenceMessage, Member, PresenceState, no_member, member_at, upsert_member, mark_stale,
  begin_sync, as_present, upsert_page, is_last_page, handle_sync,
}
use ably_connectors.Realtime.Members.{IsValid}
use ably_connectors.Realtime.Joins.{member_at-mark_all, upsert_member-IsValid, begin_sync-IsValid}
use ably_connectors.Realtime.Sync.{NamesKey, lookup, fresh, end_sync-lookup, upsert_page-IsValid}
use ably_connectors.Realtime.Pages.{upsert_member-other}
use mathlib.Core.Logic.{ite, if_pos, if_neg}

-- The member that a message makes of the member `m` with the client id `q`.
abbrev pub renew : List ℕ → Member → PresenceMessage → Member
renew q m msg =
    ite (keys_discrete q msg.client_id)
      (record { msg = as_present msg; in_use = true; stale = false }) m

-- The last message of the page that names `q` decides.
unfoldable pub renew_all : List ℕ → Member → List PresenceMessage → Member
renew_all q m [] = m
renew_all q m (msg ∷ msgs) = renew_all q (renew q m msg) msgs

upsert_member-same :
    {pres : PresenceState} (v : IsValid pres) (msg : PresenceMessage) (i : ℕ)
    → IsKey msg.client_id
    → Hashmap.get pres.map msg.client_id ≡ some i
    → lookup (upsert_member pres msg true) msg.client_id
      ≡ some (record { msg = msg; in_use = true; stale = false })
unfolding upsert_member lookup
upsert_member-same {pres} v msg i k found =
    let (inside, used, _) = v.forward msg.client_id i k found in
    rw found (
      rw found (
        ap some (
          get_or-set_self pres.pool i _ no_member (omega (arith, v.sized))
          ∙ ap (λ (u : Bool). record { msg = msg; in_use = u; stale = false }) used)))

lookup-some :
    (pres : PresenceState) (q : List ℕ) (m : Member)
    → lookup pres q ≡ some m
    → (i : ℕ) × (Hashmap.get pres.map q ≡ some i)
unfolding lookup
lookup-some pres q m e = elim (Option-cases (Hashmap.get pres.map q)) [
  | inl new ↦ cc (rw new at e)
  | inr found ↦ found
]

upsert_member-renew :
    {pres : PresenceState} (v : IsValid pres) (q : List ℕ) (m : Member) (msg : PresenceMessage)
    → IsKey q
    → NamesKey msg
    → lookup pres q ≡ some m
    → lookup (upsert_member pres (as_present msg) true) q ≡ some (renew q m msg)
upsert_member-renew {pres} v q m msg k km e = elim (keys_discrete q msg.client_id) [
  | yes same ↦
      let (i, found) = lookup-some pres q m e in
      rw (if_pos (keys_discrete q msg.client_id) same) (
        ap (lookup (upsert_member pres (as_present msg) true)) same
        ∙ upsert_member-same v (as_present msg) i km (rw same at found))
  | no ne ↦
      rw (if_neg (keys_discrete q msg.client_id) ne)
        (upsert_member-other v q k (as_present msg) km ne true ∙ e)
]

upsert_page-renew_all :
    (msgs : List PresenceMessage) {pres : PresenceState} (q : List ℕ) (m : Member)
    → IsValid pres
    → IsKey q
    → All NamesKey msgs
    → lookup pres q ≡ some m
    → lookup (upsert_page pres msgs).0 q ≡ some (renew_all q m msgs)
unfolding upsert_page renew_all
upsert_page-renew_all [] q m v k names e = e
upsert_page-renew_all (msg ∷ msgs) q m v k names e =
    upsert_page-renew_all msgs q (renew q m msg)
      (upsert_member-IsValid v (as_present msg) true names.0 refl) k names.1
      (upsert_member-renew v q m msg k names.0 e)

begin_sync-some :
    (pres : PresenceState) (q : List ℕ) (m : Member)
    → lookup pres q ≡ some m
    → lookup (begin_sync pres) q ≡ some (mark_stale m)
unfolding begin_sync lookup
begin_sync-some pres q m e = elim (Option-cases (Hashmap.get pres.map q)) [
  | inl new ↦ cc (rw new at e)
  | inr (i, found) ↦
      let here : member_at pres.pool i ≡ m = cc (rw found at e) in
      rw found (ap some (member_at-mark_all pres.pool i ∙ ap mark_stale here))
]

-- The last message of the page that names `q`.
unfoldable pub last_naming : List ℕ → List PresenceMessage → Option PresenceMessage
last_naming q [] = none
last_naming q (msg ∷ msgs) = elim (last_naming q msgs) [
  | none ↦ ite (keys_discrete q msg.client_id) (some msg) none
  | some later ↦ some later
]

-- The member with this message, its action PRESENT, and no mark.
abbrev pub kept_as : Option PresenceMessage → Option Member
kept_as none = none
kept_as (some msg) =
    some (record { msg = record msg { action = present }; in_use = true; stale = false })

abbrev renewed_by : Member → Option PresenceMessage → Member
renewed_by m none = m
renewed_by m (some msg) = record { msg = as_present msg; in_use = true; stale = false }

renew_all-last_naming :
    (q : List ℕ) (m : Member) (msgs : List PresenceMessage)
    → renew_all q m msgs ≡ renewed_by m (last_naming q msgs)
unfolding renew_all last_naming
renew_all-last_naming q m [] = refl
renew_all-last_naming q m (msg ∷ msgs) =
    renew_all-last_naming q (renew q m msg) msgs ∙ elim (Option-cases (last_naming q msgs)) [
      | inr (later, e) ↦ rw e refl
      | inl e ↦ elim (keys_discrete q msg.client_id) [
        | yes same ↦
            rw
              (
                e,
                if_pos (keys_discrete q msg.client_id) same,
                if_pos (keys_discrete q msg.client_id) same,
              )
              refl
        | no ne ↦
            rw
              (
                e,
                if_neg (keys_discrete q msg.client_id) ne,
                if_neg (keys_discrete q msg.client_id) ne,
              )
              refl
      ]
    ]

member-stale :
    {pres : PresenceState} (v : IsValid pres) (q : List ℕ) (m : Member)
    → IsKey q
    → lookup pres q ≡ some m
    → (mark_stale m).stale ≡ true
unfolding lookup
member-stale {pres} v q m k e =
    let (i, found) = lookup-some pres q m e in
    let here : member_at pres.pool i ≡ m = cc (rw found at e) in
    let used = (v.forward q i k found).1 in rw (← here, used, v.normal i used) refl

fresh-renewed_by :
    (m : Member) (o : Option PresenceMessage)
    → m.stale ≡ true
    → fresh (some (renewed_by m o)) ≡ kept_as o
fresh-renewed_by m none stale = rw stale refl
fresh-renewed_by m (some msg) stale = refl

-- From a valid state, a SYNC sequence of one page, which starts while no other runs, with client ids
-- that the map takes as keys: a member stays exactly if the page names it, then with the last message
-- that does, PRESENT and without a mark.
pub handle_sync-renews :
    {pres : PresenceState} (v : IsValid pres) (msgs : List PresenceMessage) (sync_serial q : List ℕ)
    (m : Member)
    → pres.syncing ≡ false
    → is_last_page sync_serial ≡ true
    → IsKey q
    → All NamesKey msgs
    → lookup pres q ≡ some m
    → lookup (handle_sync pres msgs sync_serial).0 q ≡ kept_as (last_naming q msgs)
unfolding handle_sync
handle_sync-renews {pres} v msgs sync_serial q m idle last k names e =
    let began = begin_sync-IsValid v in
    let page = upsert_page-IsValid msgs names began in
    simp (idle, last)
      (end_sync-lookup page q k
        ∙ ap fresh (
            upsert_page-renew_all msgs q (mark_stale m) began k names (begin_sync-some pres q m e)
            ∙ ap some (renew_all-last_naming q (mark_stale m) msgs))
        ∙ fresh-renewed_by (mark_stale m) (last_naming q msgs) (member-stale v q m k e))
