-- ===== src/Realtime/Frames.antt =====
-- The PRESENCE and SYNC frames that a channel passes to ably-c/src/realtime/presence.c, in any order.
use ably_connectors.Prelude.{ℕ, List, [], ◌∷◌, All, get_or-replicate, length-replicate}
use ably_connectors.Hashmap.Operations.{init-IsValid}
use ably_connectors.Realtime.Presence
use ably_connectors.Realtime.Presence.{
  PresenceMessage, PresenceState, Member, no_member, member_at, handle_message, handle_sync,
}
use ably_connectors.Realtime.Members.{IsValid}
use ably_connectors.Realtime.Sync.{NamesKey, handle_message-IsValid, handle_sync-IsValid}

pub data Frame : Type 0 where
  presence : List PresenceMessage → Frame
  sync : List PresenceMessage → List ℕ → Frame

abbrev pub messages : Frame → List PresenceMessage
messages (presence msgs) = msgs
messages (sync msgs serial) = msgs

abbrev pub receive : PresenceState → Frame → PresenceState
receive pres (presence msgs) = (handle_message pres msgs).0
receive pres (sync msgs serial) = (handle_sync pres msgs serial).0

unfoldable pub receive_all : PresenceState → List Frame → PresenceState
receive_all pres [] = pres
receive_all pres (frame ∷ frames) = receive_all (receive pres frame) frames

pub start_IsValid : IsValid Presence.init
unfolding Presence.init
start_IsValid =
    let (valid, _, blank) = init-IsValid {V = ℕ} 7 in
    let unused = λ (i : ℕ). get_or-replicate 128 i no_member in
    record {
      valid = valid;
      sized = length-replicate {A = Member} 128 no_member;
      forward = λ key i k e. cc (e, blank key);
      backward = λ i h. cc (h, unused i);
      normal = λ i h. cc (h, unused i);
    }

receive_from :
    (frames : List Frame) {pres : PresenceState}
    → All (λ frame. All NamesKey (messages frame)) frames
    → IsValid pres
    → IsValid (receive_all pres frames)
unfolding receive_all
receive_from [] k v = v
receive_from (presence msgs ∷ frames) k v =
    receive_from frames k.1 (handle_message-IsValid msgs k.0 v)
receive_from (sync msgs serial ∷ frames) k v =
    receive_from frames k.1 (handle_sync-IsValid msgs serial k.0 v)

-- From the start and after any sequence of PRESENCE and SYNC frames with client ids of at most 255
-- bytes, the map is valid and sends a client id to the place of a member in use with this client id,
-- every member in use is found under its client id, and has the action PRESENT.
pub receive_all-IsValid :
    (frames : List Frame)
    → All (λ frame. All NamesKey (messages frame)) frames
    → IsValid (receive_all Presence.init frames)
receive_all-IsValid frames k = receive_from frames k start_IsValid
