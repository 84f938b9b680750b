-- ===== src/Channel/Flushed.antt =====
-- What flushing the queue of a channel means for the messages: they are sent in order, or lost.
-- ably-c/src/realtime/channel.c with the ring of realtime_client.c.
use ably_connectors.Prelude.{
  ℕ, suc, ◌+◌, ◌≤◌, ◌<◌, ◌≡◌, refl, sym, ap, ◌∙◌, arith, true, false, Option, none, some, List, [],
  ◌∷◌, ◌++◌, length, length-append, append-nil, append_assoc, ltb, inl, inr,
}
use mathlib.Core.Path.{ap₂, subst}
use ably_connectors.Types.{Codec}
use ably_connectors.Realtime.SendRing.{SendRing}
use ably_connectors.Realtime.SendQueue.{SendQueue, answer, Holds}
use ably_connectors.Channel.ChannelState.{attaching}
use ably_connectors.Channel.Pending.{
  publish, Queued, Pending, empty_pending, queue_message, flush_pending_queue,
}
use ably_connectors.Channel.Flushing.{
  Queues, empty_pending-Queues, entry, queue_message-Queues, frame_of, post, flushed,
  flush_pending_queue-flushed,
}

module _ (codec : Codec) (channel client_id : List ℕ) where
  -- The frames that the encoder makes of the messages, with serials that count up.
  abbrev pub IsEncoded : ℕ → List Queued → List (List ℕ) → Type 0
  IsEncoded serial [] [] = Unit
  IsEncoded serial [] (buf ∷ frames) = ⊥
  IsEncoded serial (m ∷ l) [] = ⊥
  IsEncoded serial (m ∷ l) (buf ∷ frames) =
      (frame_of codec channel client_id m serial ≡ some buf) × IsEncoded (serial + 1) l frames

  pub post-room :
      (q : SendQueue) (buf : List ℕ)
      → length q.frames < 255
      → post codec channel client_id q (some buf) ≡ record q { frames = q.frames ++ (buf ∷ []) }
  unfolding answer
  post-room q buf room =
      let free : ltb (length q.frames) 255 ≡ true = ground (arith, room) in rw (free, post) refl

  post-full :
      (q : SendQueue) (frame : Option (List ℕ))
      → length q.frames ≡ 255
      → post codec channel client_id q frame ≡ q
  unfolding answer
  post-full q none full = refl
  post-full q (some buf) full =
      let none_left : ltb (length q.frames) 255 ≡ false = ground (arith, full) in
      rw (none_left, post) refl

  flushed-IsEncoded :
      (l : List Queued) (sent : List (List ℕ)) (frames : List (List ℕ)) (serial : ℕ)
      → IsEncoded serial l sent
      → length frames + length l ≤ 255
      → flushed codec channel client_id (record { frames = frames; serial = serial }) l
        ≡ record { frames = frames ++ sent; serial = serial + length l }
  unfolding flushed
  flushed-IsEncoded [] [] frames serial encodes room =
      ap₂ (λ (f : List (List ℕ)) (n : ℕ). record { frames = f; serial = n })
        (sym (append-nil frames)) (omega arith)
  flushed-IsEncoded [] (buf ∷ sent) frames serial encodes room = absurd encodes
  flushed-IsEncoded (m ∷ l) [] frames serial encodes room = absurd encodes
  flushed-IsEncoded (m ∷ l) (buf ∷ sent) frames serial (here, later) room =
      rw
        (
          here,
          post-room (record { frames = frames; serial = serial + 1 }) buf (omega (arith, room)),
        )
        (flushed-IsEncoded l sent (frames ++ (buf ∷ [])) (serial + 1) later
            (omega (arith, room, length-append frames (buf ∷ [])))
          ∙ ap₂ (λ (f : List (List ℕ)) (n : ℕ). record { frames = f; serial = n })
              (append_assoc frames (buf ∷ []) sent) (omega arith))

  flushed-full :
      (l : List Queued) (frames : List (List ℕ)) (serial : ℕ)
      → length frames ≡ 255
      → flushed codec channel client_id (record { frames = frames; serial = serial }) l
        ≡ record { frames = frames; serial = serial + length l }
  unfolding flushed
  flushed-full [] frames serial full =
      ap (λ (n : ℕ). record { frames = frames; serial = n }) (omega arith)
  flushed-full (m ∷ l) frames serial full =
      rw
        (post-full (record { frames = frames; serial = serial + 1 })
          (frame_of codec channel client_id m serial) full)
        (flushed-full l frames (serial + 1) full
          ∙ ap (λ (n : ℕ). record { frames = frames; serial = n }) (omega arith))

  -- Messages published, each without an id, while the channel attaches: the queue after them.
  unfoldable pub publish_all :
      Pending → SendRing → List (Option (List ℕ) × Option (List ℕ)) → Pending
  publish_all p r [] = p
  publish_all p r ((name, msg_data) ∷ ms) =
      publish_all (publish codec channel client_id attaching p r name msg_data none).0 r ms

  abbrev pub entries : List (Option (List ℕ) × Option (List ℕ)) → List Queued
  entries [] = []
  entries ((name, msg_data) ∷ ms) = entry name msg_data ∷ entries ms

  publish_all-Queues :
      (ms : List (Option (List ℕ) × Option (List ℕ))) (p : Pending) (r : SendRing) (l : List Queued)
      → length l + length ms ≤ 31
      → Queues p l
      → Queues (publish_all p r ms) (l ++ entries ms)
  unfolding publish_all publish
  publish_all-Queues [] p r l room h = subst (λ f. Queues p f) (sym (append-nil l)) h
  publish_all-Queues ((name, msg_data) ∷ ms) p r l room h =
      elim (queue_message-Queues p l name msg_data h) [
        | inl (_, full) ↦ absurd (omega (arith, full, room))
        | inr (_, h') ↦
            subst (λ f. Queues (publish_all (queue_message p name msg_data).0 r ms) f)
              (append_assoc l (entry name msg_data ∷ []) (entries ms))
              (publish_all-Queues ms (queue_message p name msg_data).0 r
                (l ++ (entry name msg_data ∷ []))
                (omega (arith, room, length-append l (entry name msg_data ∷ []))) h')
      ]

  pub length-entries :
      (ms : List (Option (List ℕ) × Option (List ℕ))) → length (entries ms) ≡ length ms
  length-entries [] = refl
  length-entries (m ∷ ms) = ap suc (length-entries ms)

  -- The queue and the ring after `ms` was published while the channel attached, and the queue flushed.
  abbrev pub published : SendRing → List (Option (List ℕ) × Option (List ℕ)) → Pending × SendRing
  published r ms = flush_pending_queue codec channel client_id (publish_all empty_pending r ms) r

  pub published-flushed :
      (ms : List (Option (List ℕ) × Option (List ℕ))) (r : SendRing) (q : SendQueue)
      → Holds r q
      → length ms ≤ 31
      → (Queues (published r ms).0 [])
        × Holds (published r ms).1 (flushed codec channel client_id q (entries ms))
  published-flushed ms r q holds few =
      flush_pending_queue-flushed codec channel client_id (entries ms)
        (publish_all empty_pending r ms) r q
        (publish_all-Queues ms empty_pending r [] (omega (arith, few)) empty_pending-Queues) holds

  module _ (ms : List (Option (List ℕ) × Option (List ℕ))) (r : SendRing) (q : SendQueue)
      (holds : Holds r q) (few : length ms ≤ 31) where
    -- At most 31 messages published while the channel attaches, of each of which, with the serial that
    -- it gets, the encoder makes the given frame, and a ring with room for all of them: when the channel
    -- is attached the queue empties, and the frames follow those that wait in the ring, in the order of
    -- the calls and with serials that count up.
    pub published-sent :
        (sent : List (List ℕ))
        → IsEncoded q.serial (entries ms) sent
        → length q.frames + length ms ≤ 255
        → (Queues (published r ms).0 [])
          × Holds
              (published r ms).1
              (record { frames = q.frames ++ sent; serial = q.serial + length ms })
    published-sent sent encodes room =
        let same = length-entries ms in
        let flush = published-flushed ms r q holds few in
        (
          flush.0,
          subst (λ x. Holds (published r ms).1 x)
              (flushed-IsEncoded (entries ms) sent q.frames q.serial encodes
                  (omega (arith, same, room))
                ∙ ap (λ (n : ℕ). record { frames = q.frames ++ sent; serial = q.serial + n }) same)
              flush.1,
        )

    -- At most 31 messages published while the channel attaches, and a ring in which 255 frames wait:
    -- when the channel is attached the queue empties and the serials are used up, but no frame goes in.
    pub published-lost :
        length q.frames ≡ 255
        → (Queues (published r ms).0 [])
          × Holds (published r ms).1 (record { frames = q.frames; serial = q.serial + length ms })
    published-lost full =
        let flush = published-flushed ms r q holds few in
        (
          flush.0,
          subst (λ x. Holds (published r ms).1 x)
              (flushed-full (entries ms) q.frames q.serial full
                ∙ ap (λ (n : ℕ). record { frames = q.frames; serial = q.serial + n })
                    (length-entries ms))
              flush.1,
        )
