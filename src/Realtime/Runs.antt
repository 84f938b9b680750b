-- ===== src/Realtime/Runs.antt =====
-- The realtime client on concrete runs.
use ably_connectors.Prelude.{ℕ, ◌+◌, ◌^◌, ◌<◌, ◌≡◌, refl, arith, true, false, some, List, [], ◌∷◌}
use Prim.Native.String.{String}
use ably_connectors.Base64.{codes}
use ably_connectors.Hashmap
use ably_connectors.Realtime.SendRing.{SendOp, enqueue, claim, take_frame, create_ring, perform_all}
use ably_connectors.Realtime.SendQueue.{answer_all, perform_all-answer_all}
use ably_connectors.Realtime.Presence
use ably_connectors.Realtime.Presence.{
  PresenceMessage, present, enter, PresenceState, Member, upsert_member, upsert_at, pool_alloc,
  free_from, insert_member, handle_one, handle_message, handle_sync, end_sync, as_present,
  mark_stale,
}
use ably_connectors.Realtime.Members.{IsValid}
use ably_connectors.Realtime.Sync.{lookup}
use ably_connectors.Realtime.Kept.{kept_as, last_naming, handle_sync-renews}
use ably_connectors.Realtime.Subscribers
use ably_connectors.Realtime.Subscribers.{Subscribers, subscribe, unsubscribe, notified}
use ably_connectors.Realtime.Frames.{Frame, presence, sync, receive_all, receive_all-IsValid}

abbrev traffic : List SendOp
traffic =
    claim ∷ enqueue (1 ∷ []) ∷ claim ∷ enqueue (2 ∷ []) ∷ take_frame ∷ take_frame ∷ take_frame ∷ []

perform_all-answer_all_example :
    perform_all create_ring traffic ≡ answer_all (record { frames = []; serial = 0 }) traffic
perform_all-answer_all_example = perform_all-answer_all traffic

abbrev pub enters : String → PresenceMessage
enters name = record {
  action = enter;
  client_id = codes name;
  connection_id = codes "c";
  msg_data = [];
  timestamp = 0;
}

abbrev frames : List Frame
frames = presence (enters "a" ∷ enters "b" ∷ []) ∷ sync (enters "a" ∷ []) (codes "s:") ∷ []

receive_all-IsValid_example : IsValid (receive_all Presence.init frames)
receive_all-IsValid_example = receive_all-IsValid frames (omega arith)

abbrev pub joined : PresenceState
joined = receive_all Presence.init (presence (enters "a" ∷ []) ∷ [])

pub joined-IsValid : IsValid joined
joined-IsValid = receive_all-IsValid (presence (enters "a" ∷ []) ∷ []) (omega arith)

pub idle : joined.syncing ≡ false
unfolding receive_all handle_message handle_one upsert_member pool_alloc free_from insert_member
    Presence.init Hashmap.init Hashmap.put Hashmap.get Hashmap.get_probe Hashmap.put_probe
    Hashmap.home Hashmap.next Hashmap.fnv1a Hashmap.strncmp_eq Hashmap.store
idle = refl

abbrev member_a : Member
member_a = record { msg = as_present (enters "a"); in_use = true; stale = false }

found_a : lookup joined (codes "a") ≡ some member_a
unfolding lookup receive_all handle_message handle_one upsert_member pool_alloc free_from
    insert_member Presence.init Hashmap.init Hashmap.put Hashmap.get Hashmap.get_probe
    Hashmap.put_probe Hashmap.home Hashmap.next Hashmap.fnv1a Hashmap.strncmp_eq Hashmap.store
found_a = refl

last_page : Presence.is_last_page (codes "s:") ≡ true
unfolding Presence.is_last_page Presence.behind_colon
last_page = refl

handle_sync-renews_example :
    lookup (handle_sync joined (enters "a" ∷ []) (codes "s:")).0 (codes "a")
    ≡ kept_as (last_naming (codes "a") (enters "a" ∷ []))
handle_sync-renews_example =
    handle_sync-renews joined-IsValid (enters "a" ∷ []) (codes "s:") (codes "a") member_a idle
      last_page (omega arith) (omega arith) found_a

-- Callbacks are numbers here.
abbrev table : Subscribers ℕ
table = Subscribers.start

few_tokens : table.next_token + 1 < 2 ^ 31
unfolding Subscribers.start
few_tokens = omega arith
