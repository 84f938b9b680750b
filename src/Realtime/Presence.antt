-- ===== src/Realtime/Presence.antt =====
-- The presence members of a channel, ably-c/src/realtime/presence.c and presence.h: a pool of members,
-- a hash map from client ids to members, and the SYNC sequence that replaces the set.
-- A pointer into the pool is its index. Logging is left out. What the subscribers are told is the list
-- of the messages they are called with, in order. The actions are the five of the enumeration.
use ably_connectors.Prelude.{
  ℕ, zero, suc, ◌+◌, Bool, true, false, ◌&&◌, Option, none, some, List, [], ◌∷◌, ◌++◌, get_or, set,
  replicate, ◌==◌, if◌then◌else◌,
}
use ably_connectors.Hashmap
use ably_connectors.Hashmap.{Hashmap}

-- `ably_presence_action_t`; `unlisted` is a number that is none of its names.
pub data PresenceAction : Type 0 where
  absent present enter leave update unlisted : PresenceAction

abbrev pub is_present : PresenceAction → Bool
is_present present = true
is_present _ = false

-- `ably_presence_message_t`.
pub record PresenceMessage : Type 0 where
  pub action : PresenceAction
  pub client_id : List ℕ
  pub connection_id : List ℕ
  pub msg_data : List ℕ
  pub timestamp : ℕ

-- `ably_presence_member_t`.
pub record Member : Type 0 where
  pub msg : PresenceMessage
  pub in_use : Bool
  pub stale : Bool

abbrev pub max_presence_members : ℕ
max_presence_members = 128

pub record PresenceState : Type 0 where
  pub pool : List Member
  pub map : Hashmap ℕ
  pub syncing : Bool

abbrev pub no_message : PresenceMessage
no_message = record {
  action = absent;
  client_id = [];
  connection_id = [];
  msg_data = [];
  timestamp = 0;
}

-- A member after `memset` to 0.
abbrev pub no_member : Member
no_member = record { msg = no_message; in_use = false; stale = false }

abbrev pub member_at : List Member → ℕ → Member
member_at pool i = get_or pool i no_member

-- The first free index of the pool, from `i` on with `n` members left.
unfoldable pub free_from : List Member → ℕ → ℕ → Option ℕ
free_from pool zero i = none
free_from pool (suc n) i =
    let later = free_from pool n (i + 1) in if (member_at pool i).in_use then later else some i

unfoldable pub pool_alloc : PresenceState → Option ℕ
pool_alloc pres = free_from pres.pool max_presence_members 0

unfoldable pub pool_free : PresenceState → ℕ → PresenceState
pool_free pres i = record pres {
  pool = set pres.pool i (record (member_at pres.pool i) { in_use = false });
}

-- `existing->msg = *msg; if (clear_stale) existing->stale = 0;` at the index `i`.
abbrev pub refresh : PresenceState → PresenceMessage → Bool → ℕ → PresenceState
refresh pres msg clear_stale i =
    let m = member_at pres.pool i in
    record pres {
      pool =
          set pres.pool i
            (record m { msg = msg; stale = (if clear_stale then false else m.stale) });
    }

-- A new member in the free index `i`, unless the map refuses it.
unfoldable pub insert_member : PresenceState → PresenceMessage → ℕ → PresenceState
insert_member pres msg i =
    let pool' = set pres.pool i (record { msg = msg; in_use = true; stale = false }) in
    let (map', ok) = Hashmap.put pres.map msg.client_id (some i) in
    let pres' = record pres { pool = pool'; map = map' } in if ok then pres' else pool_free pres' i

abbrev pub insert_if : PresenceState → PresenceMessage → Option ℕ → PresenceState
insert_if pres msg none = pres
insert_if pres msg (some i) = insert_member pres msg i

abbrev pub upsert_at : PresenceState → PresenceMessage → Bool → Option ℕ → PresenceState
upsert_at pres msg clear_stale (some i) = refresh pres msg clear_stale i
upsert_at pres msg clear_stale none = insert_if pres msg (pool_alloc pres)

unfoldable pub upsert_member : PresenceState → PresenceMessage → Bool → PresenceState
upsert_member pres msg clear_stale =
    upsert_at pres msg clear_stale (Hashmap.get pres.map msg.client_id)

-- The member at `i` leaves the pool and the map.
unfoldable pub drop_member : PresenceState → List ℕ → ℕ → PresenceState
drop_member pres client_id i =
    let freed = pool_free pres i in record freed { map = (Hashmap.remove freed.map client_id).0 }

abbrev pub remove_at : PresenceState → List ℕ → Option ℕ → PresenceState
remove_at pres client_id none = pres
remove_at pres client_id (some i) = drop_member pres client_id i

unfoldable pub remove_member : PresenceState → PresenceMessage → PresenceState
remove_member pres msg = remove_at pres msg.client_id (Hashmap.get pres.map msg.client_id)

abbrev pub mark_stale : Member → Member
mark_stale m = record m { stale = (if m.in_use && is_present m.msg.action then true else m.stale) }

unfoldable pub mark_all : List Member → List Member
mark_all [] = []
mark_all (m ∷ pool) = mark_stale m ∷ mark_all pool

unfoldable pub begin_sync : PresenceState → PresenceState
begin_sync pres = record pres { pool = mark_all pres.pool; syncing = true }

abbrev pub as_leave : PresenceMessage → PresenceMessage
as_leave msg = record msg { action = leave }

-- The loop of `end_sync` at index `i` with `n` members left: the state after it, and the messages told.
unfoldable pub sweep : ℕ → ℕ → PresenceState → PresenceState × List PresenceMessage
sweep zero i pres = (pres, [])
sweep (suc n) i pres =
    let m = member_at pres.pool i in
    let kept = sweep n (i + 1) pres in
    let gone = sweep n (i + 1) (drop_member pres m.msg.client_id i) in
    if m.in_use && m.stale then (gone.0, as_leave m.msg ∷ gone.1) else kept

unfoldable pub end_sync : PresenceState → PresenceState × List PresenceMessage
end_sync pres =
    let (pres', told) = sweep max_presence_members 0 pres in
    (record pres' { syncing = false }, told)

-- `m.action = ABLY_PRESENCE_PRESENT`.
abbrev pub as_present : PresenceMessage → PresenceMessage
as_present msg = record msg { action = present }

-- One message of a PRESENCE frame.
unfoldable pub handle_one : PresenceState → PresenceMessage → PresenceAction → PresenceState
handle_one pres msg enter = upsert_member pres (as_present msg) true
handle_one pres msg present = upsert_member pres (as_present msg) true
handle_one pres msg update = upsert_member pres (as_present msg) true
handle_one pres msg absent = remove_member pres msg
handle_one pres msg leave = remove_member pres msg
handle_one pres msg unlisted = pres

abbrev pub is_told : PresenceAction → Bool
is_told unlisted = false
is_told _ = true

-- The messages of a PRESENCE frame; each is told with its original action.
unfoldable pub handle_message :
    PresenceState → List PresenceMessage → PresenceState × List PresenceMessage
handle_message pres [] = (pres, [])
handle_message pres (msg ∷ msgs) =
    let (pres', told) = handle_message (handle_one pres msg msg.action) msgs in
    (pres', if is_told msg.action then msg ∷ told else told)

-- "Upsert members from this SYNC page"; each entry is told, whatever its action.
unfoldable pub upsert_page :
    PresenceState → List PresenceMessage → PresenceState × List PresenceMessage
upsert_page pres [] = (pres, [])
upsert_page pres (msg ∷ msgs) =
    let (pres', told) = upsert_page (upsert_member pres (as_present msg) true) msgs in
    (pres', msg ∷ told)

-- `strchr(serial, ':')`: what stands behind the first colon, if there is one.
unfoldable pub behind_colon : List ℕ → Option (List ℕ)
behind_colon [] = none
behind_colon (c ∷ s) = let rest = behind_colon s in if c == 58 then some s else rest

abbrev pub no_cursor : Option (List ℕ) → Bool
no_cursor none = true
no_cursor (some []) = true
no_cursor (some (c ∷ s)) = false

unfoldable pub is_last_page : List ℕ → Bool
is_last_page serial = no_cursor (behind_colon serial)

unfoldable pub handle_sync :
    PresenceState → List PresenceMessage → List ℕ → PresenceState × List PresenceMessage
handle_sync pres msgs sync_serial =
    let began = if pres.syncing then pres else begin_sync pres in
    let (pres', told) = upsert_page began msgs in
    let (pres'', left) = end_sync pres' in
    if is_last_page sync_serial then (pres'', told ++ left) else (pres', told)

unfoldable pub init : PresenceState
init = record {
  pool = replicate max_presence_members no_member;
  map = Hashmap.init max_presence_members;
  syncing = false;
}
