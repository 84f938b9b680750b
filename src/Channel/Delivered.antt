-- ===== src/Channel/Delivered.antt =====
-- What a receiver reads out of the frames of messages that were published while a channel attached:
-- ably-c/src/realtime/channel.c with the ring of realtime_client.c and the JSON frames of
-- protocol_json.c.
use ably_connectors.Prelude.{
  ℕ, ◌+◌, ◌≤◌, ◌<◌, ◌≡◌, refl, sym, ◌∙◌, arith, Option, none, some, List, [], ◌∷◌, ◌++◌, length,
  length-append, append-nil, append_assoc, map,
}
use mathlib.Core.Path.{ap₂}
use ably_connectors.Types.{ProtoFrame, message_action, non_empty}
use ably_connectors.Realtime.SendRing.{SendRing}
use ably_connectors.Realtime.SendQueue.{SendQueue, Holds}
use ably_connectors.Channel.Pending.{Queued}
use ably_connectors.Channel.Flushing.{Queues, flushed}
use ably_connectors.Channel.Flushed.{
  post-room, published, published-flushed, entries, length-entries,
}
use ably_connectors.Json.Tree.{Json}
use ably_connectors.Json.Encode.{publish_tree, json_codec}
use ably_connectors.Json.Decode.{decode_json}
use ably_connectors.Json.RoundTrip.{frame_with, message_with, encode_publish_json-decode_json}

module _ (print : Json → Option (List ℕ)) (parse : List ℕ → Option Json)
    (channel client_id : List ℕ) where
  abbrev pub tree_of : Queued → ℕ → Json
  tree_of (name, msg_data) serial =
      publish_tree channel (non_empty name) (non_empty msg_data) (non_empty client_id) none serial

  -- The tree of the message prints as a text that fits into the buffer and parses as the tree.
  pub record IsPrinted (m : Queued) (serial : ℕ) : Type 0 where
    pub text : List ℕ
    pub prints : print (tree_of m serial) ≡ some text
    pub parses : parse text ≡ some (tree_of m serial)
    pub fits : length text < 33408

  -- The frame that a receiver has of the message.
  abbrev pub read_back : Queued → Option ProtoFrame
  read_back (name, msg_data) = some (
      frame_with message_action channel
        (message_with (non_empty name) (non_empty msg_data) (non_empty client_id) none ∷ []) [])

  -- Behind the frames of `q` the queue `q'` has one for each message of `l`, and they decode to the
  -- messages in their order.
  pub record Delivers (q : SendQueue) (l : List Queued) (q' : SendQueue) : Type 0 where
    pub sent : List (List ℕ)
    pub behind : q'.frames ≡ q.frames ++ sent
    pub decoded : map (decode_json 32 parse) sent ≡ map read_back l
    pub counted : q'.serial ≡ q.serial + length l

  -- The messages print so, with serials that count up from the given one.
  abbrev pub ArePrinted : ℕ → List Queued → Type 0
  ArePrinted serial [] = Unit
  ArePrinted serial (m ∷ l) = IsPrinted m serial × ArePrinted (serial + 1) l

  flushed-Delivers :
      (l : List Queued) (q : SendQueue)
      → ArePrinted q.serial l
      → length q.frames + length l ≤ 255
      → Delivers q l (flushed (json_codec print) channel client_id q l)
  unfolding flushed json_codec
  flushed-Delivers [] q fine room = record {
    sent = [];
    behind = sym (append-nil q.frames);
    decoded = refl;
    counted = omega arith;
  }
  flushed-Delivers ((name, msg_data) ∷ l) q (p, fine) room =
      let (encodes, decodes) =
        encode_publish_json-decode_json print parse 33408 channel (non_empty name)
          (non_empty msg_data) (non_empty client_id) none q.serial p.text p.prints p.parses
          p.fits in
      let next : SendQueue = record { frames = q.frames ++ (p.text ∷ []); serial = q.serial + 1 } in
      let more =
        flushed-Delivers l next fine (omega (arith, room, length-append q.frames (p.text ∷ []))) in
      rw
        (
          encodes,
          post-room (json_codec print) channel client_id (record q { serial = q.serial + 1 }) p.text
              (omega (arith, room)),
        )
        (record {
          sent = p.text ∷ more.sent;
          behind = more.behind ∙ append_assoc q.frames (p.text ∷ []) more.sent;
          decoded = ap₂ (λ f fs. f ∷ fs) decodes more.decoded;
          counted = more.counted ∙ omega arith;
        })

  -- At most 31 messages published while the channel attaches, of which name and data are cut to 255 and
  -- 32767 bytes, each of which then prints with the serial that it gets as a text that fits and parses
  -- again, and a ring with room for all of them: when the channel is attached its queue empties, and
  -- behind the frames that wait in the ring there is one frame for each message, which decodes to a
  -- MESSAGE frame of the channel with this message, cut so, in the order of the calls.
  pub published-Delivers :
      (ms : List (Option (List ℕ) × Option (List ℕ))) (r : SendRing) (q : SendQueue)
      → Holds r q
      → length ms ≤ 31
      → ArePrinted q.serial (entries (json_codec print) channel client_id ms)
      → length q.frames + length ms ≤ 255
      → (Queues (published (json_codec print) channel client_id r ms).0 [])
        × ((q' : SendQueue) × Holds (published (json_codec print) channel client_id r ms).1 q'
            × Delivers q (entries (json_codec print) channel client_id ms) q')
  published-Delivers ms r q holds few fine room =
      let (empties, holds') =
        published-flushed (json_codec print) channel client_id ms r q holds few in
      let same = length-entries (json_codec print) channel client_id ms in
      (
        empties,
        (
          flushed (json_codec print) channel client_id q
              (entries (json_codec print) channel client_id ms),
          holds',
          flushed-Delivers (entries (json_codec print) channel client_id ms) q fine
              (omega (arith, room, same)),
        ),
      )
