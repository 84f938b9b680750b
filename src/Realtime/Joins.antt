-- ===== src/Realtime/Joins.antt =====
-- The invariant of the members through whole operations of ably-c/src/realtime/presence.c: a member that
-- joins, renews or leaves, a frame entry, and the begin of a SYNC sequence.
use ably_connectors.Prelude.{
  ℕ, zero, suc, ◌+◌, ◌*◌, ◌<◌, ◌≡◌, refl, ap, ◌∙◌, arith, Bool, true, false, none, some, List, [],
  ◌∷◌, length, set, inl, inr, Bool-cases, Option-cases,
}
use ably_connectors.Hashmap
use ably_connectors.Hashmap.{Hashmap, same_key}
use ably_connectors.Hashmap.Probe.{IsKey}
use ably_connectors.Hashmap.Operations.{put-Updates, put-refused}
use ably_connectors.Realtime.Presence.{
  PresenceAction, absent, present, enter, leave, update, unlisted, is_present, PresenceMessage,
  Member, PresenceState, member_at, free_from, pool_alloc, pool_free, insert_member, upsert_member,
  remove_member, mark_stale, mark_all, begin_sync, as_present, handle_one,
}
use native.Mathlib.Decide.{dec_lt}
use ably_connectors.Realtime.Members.{
  IsValid, placed-IsValid, unused-IsValid, refresh-IsValid, drop_member-IsValid,
}

pub set-set : (pool : List Member) (i : ℕ) (a b : Member) → set (set pool i a) i b ≡ set pool i b
set-set [] i a b = refl
set-set (m ∷ pool) zero a b = refl
set-set (m ∷ pool) (suc i) a b = ap (λ p. m ∷ p) (set-set pool i a b)

-- What the search for a free member finds.
pub free_from_sound :
    (pool : List Member) (n i j : ℕ)
    → free_from pool n i ≡ some j
    → (j < i + n) × ((member_at pool j).in_use ≡ false)
unfolding free_from
free_from_sound pool zero i j e = cc
free_from_sound pool (suc n) i j e = elim (Bool-cases (member_at pool i).in_use) [
  | inl used ↦
      let later = free_from_sound pool n (i + 1) j (rw used at e) in
      (omega (arith, later.0), later.1)
  | inr free ↦ let here : i ≡ j = cc (rw free at e) in rw (← here) (omega arith, free)
]

module _ {pres : PresenceState} (v : IsValid pres) where
  pub insert_member-IsValid :
      (msg : PresenceMessage) (i : ℕ)
      → i < 128
      → (member_at pres.pool i).in_use ≡ false
      → IsKey msg.client_id
      → is_present msg.action ≡ true
      → Hashmap.get pres.map msg.client_id ≡ none
      → IsValid (insert_member pres msg i)
  unfolding insert_member pool_free
  insert_member-IsValid msg i inside free k pr new =
      elim (dec_lt (pres.map.count * 4) (pres.map.capacity * 3)) [
        | yes room ↦
            let (ok, u) = put-Updates v.valid msg.client_id k (some i) room in
            rw ok (placed-IsValid v msg i _ inside free k pr new u)
        | no over ↦
            let m : Member = record { msg = msg; in_use = true; stale = false } in
            rw (put-refused v.valid msg.client_id k (some i) (omega arith)) (
              rw
                (set-set pres.pool i m
                  (record (member_at (set pres.pool i m) i) { in_use = false }))
                (unused-IsValid v i _ inside free refl))
      ]

  pub upsert_member-IsValid :
      (msg : PresenceMessage) (clear_stale : Bool)
      → IsKey msg.client_id
      → is_present msg.action ≡ true
      → IsValid (upsert_member pres msg clear_stale)
  unfolding upsert_member pool_alloc
  upsert_member-IsValid msg clear_stale k pr =
      elim (Option-cases (Hashmap.get pres.map msg.client_id)) [
        | inr (i, found) ↦ rw found (refresh-IsValid v msg clear_stale i k pr found)
        | inl new ↦ elim (Option-cases (free_from pres.pool 128 0)) [
          | inl full ↦ rw (new, full) v
          | inr (i, e) ↦
              let (inside, free) = free_from_sound pres.pool 128 0 i e in
              rw (new, e) (insert_member-IsValid msg i (omega (arith, inside)) free k pr new)
        ]
      ]

  pub remove_member-IsValid :
      (msg : PresenceMessage) → IsKey msg.client_id → IsValid (remove_member pres msg)
  unfolding remove_member
  remove_member-IsValid msg k = elim (Option-cases (Hashmap.get pres.map msg.client_id)) [
    | inl new ↦ rw new v
    | inr (i, found) ↦
        let (inside, used, named) = v.forward msg.client_id i k found in
        rw found (rw named at (drop_member-IsValid v i used))
  ]

  pub handle_one-IsValid :
      (msg : PresenceMessage) (action : PresenceAction)
      → IsKey msg.client_id
      → IsValid (handle_one pres msg action)
  unfolding handle_one
  handle_one-IsValid msg enter k = upsert_member-IsValid (as_present msg) true k refl
  handle_one-IsValid msg present k = upsert_member-IsValid (as_present msg) true k refl
  handle_one-IsValid msg update k = upsert_member-IsValid (as_present msg) true k refl
  handle_one-IsValid msg absent k = remove_member-IsValid msg k
  handle_one-IsValid msg leave k = remove_member-IsValid msg k
  handle_one-IsValid msg unlisted k = v

pub member_at-mark_all :
    (pool : List Member) (i : ℕ) → member_at (mark_all pool) i ≡ mark_stale (member_at pool i)
unfolding mark_all
member_at-mark_all [] i = refl
member_at-mark_all (m ∷ pool) zero = refl
member_at-mark_all (m ∷ pool) (suc i) = member_at-mark_all pool i

length-mark_all : (pool : List Member) → length (mark_all pool) ≡ length pool
unfolding mark_all
length-mark_all [] = refl
length-mark_all (m ∷ pool) = ap suc (length-mark_all pool)

pub begin_sync-IsValid : {pres : PresenceState} → IsValid pres → IsValid (begin_sync pres)
unfolding begin_sync
begin_sync-IsValid {pres} v = record {
  valid = v.valid;
  sized = length-mark_all pres.pool ∙ v.sized;
  forward = λ key i k e. rw (member_at-mark_all pres.pool i) (v.forward key i k e);
  backward = λ i h.
      rw (member_at-mark_all pres.pool i) (v.backward i (rw (member_at-mark_all pres.pool i) at h));
  normal = λ i h.
      rw (member_at-mark_all pres.pool i) (v.normal i (rw (member_at-mark_all pres.pool i) at h));
}
