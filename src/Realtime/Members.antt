-- ===== src/Realtime/Members.antt =====
-- The invariant of the pool and the map of ably-c/src/realtime/presence.c, operation by operation.
use ably_connectors.Prelude.{
  ℕ, zero, suc, ◌≤◌, ◌<◌, ◌≡◌, ◌≢◌, refl, sym, ◌∙◌, arith, Bool, true, false, none, some, List, [],
  ◌∷◌, length, set, length-set, get_or-set_self, get_or-set_ne, if◌then◌else◌, inl, inr, Bool-cases,
}
use ably_connectors.Hashmap
use ably_connectors.Hashmap.{Hashmap, same_key}
use ably_connectors.Hashmap.Probe.{IsKey, same_key_iff}
use ably_connectors.Hashmap.Valid
use ably_connectors.Hashmap.Laws.{Updates}
use ably_connectors.Hashmap.Operations.{remove-Updates}
use ably_connectors.Hashmap.Refine.{differ}
use ably_connectors.Realtime.Presence.{
  is_present, PresenceMessage, Member, PresenceState, no_member, member_at, pool_free, refresh,
  drop_member,
}
use native.Mathlib.Decide.{ℕ_discrete, dec_lt}

pub record IsValid (pres : PresenceState) : Type 0 where
  pub valid : Valid.IsValid pres.map
  pub sized : length pres.pool ≡ 128
  pub forward :
      (key : List ℕ) (i : ℕ)
      → IsKey key
      → Hashmap.get pres.map key ≡ some i
      → (i < 128)
        × ((member_at pres.pool i).in_use ≡ true)
        × ((member_at pres.pool i).msg.client_id ≡ key)
  pub backward :
      (i : ℕ)
      → (member_at pres.pool i).in_use ≡ true
      → IsKey (member_at pres.pool i).msg.client_id
        × (Hashmap.get pres.map (member_at pres.pool i).msg.client_id ≡ some i)
  pub normal :
      (i : ℕ)
      → (member_at pres.pool i).in_use ≡ true
      → is_present (member_at pres.pool i).msg.action ≡ true

member_at_past : (pool : List Member) (i : ℕ) → length pool ≤ i → member_at pool i ≡ no_member
member_at_past [] i h = refl
member_at_past (m ∷ pool) zero h = absurd (omega arith)
member_at_past (m ∷ pool) (suc i) h = member_at_past pool i (omega arith)

module _ {pres : PresenceState} (v : IsValid pres) where
  pub in_use-lt : (i : ℕ) → (member_at pres.pool i).in_use ≡ true → i < 128
  in_use-lt i h = elim (dec_lt i 128) [
    | yes p ↦ p
    | no p ↦ cc (h, member_at_past pres.pool i (omega (arith, v.sized)))
  ]

  -- The member `i` of the pool written, and a map that still agrees with it.
  module _ (i : ℕ) (inside : i < 128) (m : Member) where
    pub same_place : member_at (set pres.pool i m) i ≡ m
    same_place = get_or-set_self pres.pool i m no_member (omega (arith, v.sized))

    pub other_place : (j : ℕ) → i ≢ j → member_at (set pres.pool i m) j ≡ member_at pres.pool j
    other_place j ne = get_or-set_ne pres.pool i j m no_member ne

  pub refresh-IsValid :
      (msg : PresenceMessage) (clear_stale : Bool) (i : ℕ)
      → IsKey msg.client_id
      → is_present msg.action ≡ true
      → Hashmap.get pres.map msg.client_id ≡ some i
      → IsValid (refresh pres msg clear_stale i)
  refresh-IsValid msg clear_stale i k pr found =
      let (inside, used, named) = v.forward msg.client_id i k found in
      let m : Member = record (member_at pres.pool i) {
        msg = msg;
        stale = (if clear_stale then false else (member_at pres.pool i).stale);
      } in
      record {
        valid = v.valid;
        sized = length-set pres.pool i m ∙ v.sized;
        forward = λ key j kk e. elim (ℕ_discrete i j) [
          | yes same ↦
              let old = v.forward key j kk e in
              (
                old.0,
                rw (← same, same_place i inside m) used,
                rw (← same, same_place i inside m) (sym named ∙ (rw same old.2)),
              )
          | no ne ↦ rw (other_place i inside m j ne) (v.forward key j kk e)
        ];
        backward = λ j h. elim (ℕ_discrete i j) [
          | yes same ↦ rw (← same, same_place i inside m) (k, found)
          | no ne ↦
              rw (other_place i inside m j ne)
                (v.backward j (rw (other_place i inside m j ne) at h))
        ];
        normal = λ j h. elim (ℕ_discrete i j) [
          | yes same ↦ rw (← same, same_place i inside m) pr
          | no ne ↦
              rw (other_place i inside m j ne) (v.normal j (rw (other_place i inside m j ne) at h))
        ];
      }

  -- A member that is not in use takes no part.
  pub unused-IsValid :
      (i : ℕ) (m : Member)
      → i < 128
      → (member_at pres.pool i).in_use ≡ false
      → m.in_use ≡ false
      → IsValid (record pres { pool = set pres.pool i m })
  unused-IsValid i m inside free still = record {
    valid = v.valid;
    sized = length-set pres.pool i m ∙ v.sized;
    forward = λ key j kk e. elim (ℕ_discrete i j) [
      | yes same ↦ let old = v.forward key j kk e in cc (free, old.1, same)
      | no ne ↦ rw (other_place i inside m j ne) (v.forward key j kk e)
    ];
    backward = λ j h. elim (ℕ_discrete i j) [
      | yes same ↦ cc (rw (← same, same_place i inside m) at h, still)
      | no ne ↦
          rw (other_place i inside m j ne) (v.backward j (rw (other_place i inside m j ne) at h))
    ];
    normal = λ j h. elim (ℕ_discrete i j) [
      | yes same ↦ cc (rw (← same, same_place i inside m) at h, still)
      | no ne ↦
          rw (other_place i inside m j ne) (v.normal j (rw (other_place i inside m j ne) at h))
    ];
  }

  -- A new member in a free place, once the map sends its client id there.
  pub placed-IsValid :
      (msg : PresenceMessage) (i : ℕ) (map' : Hashmap ℕ)
      → i < 128
      → (member_at pres.pool i).in_use ≡ false
      → IsKey msg.client_id
      → is_present msg.action ≡ true
      → Hashmap.get pres.map msg.client_id ≡ none
      → Updates pres.map msg.client_id (some i) map'
      → IsValid (record pres {
        pool = set pres.pool i (record { msg = msg; in_use = true; stale = false });
        map = map';
      })
  placed-IsValid msg i map' inside free k pr new u =
      let m : Member = record { msg = msg; in_use = true; stale = false } in
      let self = (same_key_iff msg.client_id msg.client_id k k).1 refl in
      record {
        valid = u.valid;
        sized = length-set pres.pool i m ∙ v.sized;
        forward = λ key j kk e. elim (Bool-cases (same_key key msg.client_id)) [
          | inl same ↦
              let here : i ≡ j = cc (rw (u.reads key kk, same) at e) in
              rw (← here, same_place i inside m)
                (inside, refl, sym ((same_key_iff key msg.client_id kk k).0 same))
          | inr other ↦
              let old = v.forward key j kk (rw (u.reads key kk, other) at e) in
              let ne : i ≢ j = λ same. cc (free, old.1, same) in
              rw (other_place i inside m j ne) old
        ];
        backward = λ j h. elim (ℕ_discrete i j) [
          | yes same ↦
              rw (← same, same_place i inside m) (k, u.reads msg.client_id k ∙ rw self refl)
          | no ne ↦
              let old = v.backward j (rw (other_place i inside m j ne) at h) in
              let apart : (member_at pres.pool j).msg.client_id ≢ msg.client_id =
                λ same. cc (old.1, new, same) in
              rw (other_place i inside m j ne)
                (old.0, u.reads _ old.0 ∙ rw (differ _ msg.client_id old.0 k apart) old.1)
        ];
        normal = λ j h. elim (ℕ_discrete i j) [
          | yes same ↦ rw (← same, same_place i inside m) pr
          | no ne ↦
              rw (other_place i inside m j ne) (v.normal j (rw (other_place i inside m j ne) at h))
        ];
      }

  -- A member in use leaves the pool and the map.
  pub drop_member-IsValid :
      (i : ℕ)
      → (member_at pres.pool i).in_use ≡ true
      → IsValid (drop_member pres (member_at pres.pool i).msg.client_id i)
  unfolding drop_member pool_free
  drop_member-IsValid i used =
      let inside = in_use-lt i used in
      let key = (member_at pres.pool i).msg.client_id in
      let (k, found) = v.backward i used in
      let (u, _, _) = remove-Updates v.valid key k in
      let m : Member = record (member_at pres.pool i) { in_use = false } in
      record {
        valid = u.valid;
        sized = length-set pres.pool i m ∙ v.sized;
        forward = λ q j kk e. elim (Bool-cases (same_key q key)) [
          | inl same ↦ cc (rw (u.reads q kk, same) at e)
          | inr other ↦
              let old = v.forward q j kk (rw (u.reads q kk, other) at e) in
              let ne : i ≢ j =
                λ same. cc (other, (same_key_iff q key kk k).1 (sym old.2 ∙ rw same refl)) in
              rw (other_place i inside m j ne) old
        ];
        backward = λ j h. elim (ℕ_discrete i j) [
          | yes same ↦ cc (rw (← same, same_place i inside m) at h)
          | no ne ↦
              let old = v.backward j (rw (other_place i inside m j ne) at h) in
              let apart : (member_at pres.pool j).msg.client_id ≢ key =
                λ same. ne (cc (old.1, found, same)) in
              rw (other_place i inside m j ne)
                (old.0, u.reads _ old.0 ∙ rw (differ _ key old.0 k apart) old.1)
        ];
        normal = λ j h. elim (ℕ_discrete i j) [
          | yes same ↦ cc (rw (← same, same_place i inside m) at h)
          | no ne ↦
              rw (other_place i inside m j ne) (v.normal j (rw (other_place i inside m j ne) at h))
        ];
      }
