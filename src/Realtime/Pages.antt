-- ===== src/Realtime/Pages.antt =====
-- What the members of a channel are after a SYNC page, ably-c/src/realtime/presence.c.
use ably_connectors.Prelude.{
  ℕ, ◌*◌, ◌≡◌, ◌≢◌, refl, sym, ap, ◌∙◌, arith, Bool, true, false, none, some, List, [], ◌∷◌, set,
  All, get_or-set_ne, inl, inr, Option-cases,
}
use ably_connectors.Hashmap
use ably_connectors.Hashmap.{Hashmap, same_key}
use ably_connectors.Hashmap.Probe.{IsKey}
use ably_connectors.Hashmap.Operations.{put-Updates, put-refused}
use ably_connectors.Hashmap.Refine.{differ}
use ably_connectors.Realtime.Presence.{
  PresenceMessage, Member, PresenceState, no_member, member_at, free_from, pool_alloc, pool_free,
  insert_member, upsert_member, begin_sync, as_present, upsert_page, is_last_page, handle_sync,
}
use ably_connectors.Realtime.Members.{IsValid}
use ably_connectors.Realtime.Joins.{
  free_from_sound, set-set, member_at-mark_all, upsert_member-IsValid, begin_sync-IsValid,
}
use ably_connectors.Realtime.Sync.{
  NamesKey, member_of, lookup, fresh, end_sync-lookup, upsert_page-IsValid,
}
use native.Mathlib.Decide.{dec_lt}

module _ {pres : PresenceState} (v : IsValid pres) (q : List ℕ) (k : IsKey q) where
  -- A write to the member of another client id.
  set_elsewhere :
      (i : ℕ) (m : Member)
      → Hashmap.get pres.map q ≢ some i
      → member_of (set pres.pool i m) (Hashmap.get pres.map q) ≡ lookup pres q
  unfolding lookup
  set_elsewhere i m ne = elim (Option-cases (Hashmap.get pres.map q)) [
    | inl e ↦ rw e refl
    | inr (j, e) ↦
        rw e (ap some (get_or-set_ne pres.pool i j m no_member (λ same. ne (e ∙ rw same refl))))
  ]

  free_elsewhere :
      (i : ℕ) → (member_at pres.pool i).in_use ≡ false → Hashmap.get pres.map q ≢ some i
  free_elsewhere i free e = let (_, used, _) = v.forward q i k e in cc (free, used)

  module _ (msg : PresenceMessage) (km : IsKey msg.client_id) (other : q ≢ msg.client_id) where
    insert-other :
        (i : ℕ)
        → (member_at pres.pool i).in_use ≡ false
        → lookup (insert_member pres msg i) q ≡ lookup pres q
    unfolding insert_member pool_free
    insert-other i free =
        let m : Member = record { msg = msg; in_use = true; stale = false } in
        elim (dec_lt (pres.map.count * 4) (pres.map.capacity * 3)) [
          | yes room ↦
              let (ok, u) = put-Updates v.valid msg.client_id km (some i) room in
              rw ok (
                unfold lookup in
                rw (u.reads q k, differ q msg.client_id k km other)
                  (set_elsewhere i m (free_elsewhere i free)))
          | no over ↦ rw (put-refused v.valid msg.client_id km (some i) (omega arith)) (
              unfold lookup in
              rw
                (set-set pres.pool i m
                  (record (member_at (set pres.pool i m) i) { in_use = false }))
                (set_elsewhere i _ (free_elsewhere i free)))
        ]

    -- A message leaves the members with other client ids as they are.
    pub upsert_member-other :
        (clear_stale : Bool) → lookup (upsert_member pres msg clear_stale) q ≡ lookup pres q
    unfolding upsert_member pool_alloc
    upsert_member-other clear_stale = elim (Option-cases (Hashmap.get pres.map msg.client_id)) [
      | inr (i, found) ↦
          let (_, _, named) = v.forward msg.client_id i km found in
          rw found (
            unfold lookup in
            set_elsewhere i _
              (λ e. let (_, _, mine) = v.forward q i k e in other (sym mine ∙ named)))
      | inl new ↦ elim (Option-cases (free_from pres.pool 128 0)) [
        | inl full ↦ rw (new, full) refl
        | inr (i, e) ↦ rw (new, e) (insert-other i (free_from_sound pres.pool 128 0 i e).1)
      ]
    ]

-- Before `begin_sync` a member is not in the new set yet, and a client id that no message of the page
-- names is not taken into it.
begin_sync-lookup :
    {pres : PresenceState} (v : IsValid pres) (q : List ℕ)
    → IsKey q
    → fresh (lookup (begin_sync pres) q) ≡ none
unfolding begin_sync lookup
begin_sync-lookup {pres} v q k = elim (Option-cases (Hashmap.get pres.map q)) [
  | inl e ↦ rw e refl
  | inr (i, e) ↦
      let (_, used, _) = v.forward q i k e in
      rw (e, member_at-mark_all pres.pool i, used, v.normal i used) refl
]

upsert_page-other :
    (msgs : List PresenceMessage) {pres : PresenceState} (q : List ℕ)
    → IsValid pres
    → IsKey q
    → All NamesKey msgs
    → All (λ msg. q ≢ msg.client_id) msgs
    → lookup (upsert_page pres msgs).0 q ≡ lookup pres q
unfolding upsert_page
upsert_page-other [] q v k names others = refl
upsert_page-other (msg ∷ msgs) q v k names others =
    upsert_page-other msgs q (upsert_member-IsValid v (as_present msg) true names.0 refl) k names.1
      others.1
    ∙ upsert_member-other v q k (as_present msg) names.0 others.0 true

-- A SYNC sequence of one page, which starts while no other runs: whoever the page does not name is no
-- member afterwards.
pub handle_sync-forgets :
    {pres : PresenceState} (v : IsValid pres) (msgs : List PresenceMessage) (sync_serial q : List ℕ)
    → pres.syncing ≡ false
    → is_last_page sync_serial ≡ true
    → IsKey q
    → All NamesKey msgs
    → All (λ msg. q ≢ msg.client_id) msgs
    → lookup (handle_sync pres msgs sync_serial).0 q ≡ none
unfolding handle_sync
handle_sync-forgets {pres} v msgs sync_serial q idle last k names others =
    let began = begin_sync-IsValid v in
    let page = upsert_page-IsValid msgs names began in
    simp (idle, last)
      (end_sync-lookup page q k
        ∙ ap fresh (upsert_page-other msgs q began k names others)
        ∙ begin_sync-lookup v q k)
