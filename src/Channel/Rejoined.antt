-- ===== src/Channel/Rejoined.antt =====
-- The presence members of a channel when it is attached: `ably_channel_on_frame` of
-- ably-c/src/realtime/channel.c with `ably_presence_handle_sync` of presence.c.
use ably_connectors.Prelude.{
  ℕ, zero, suc, ◌≡◌, refl, ap, ◌∙◌, true, false, not, ◌||◌, Option, none, some, List, [], ◌∷◌, inl,
  inr, Bool-cases, Option-cases,
}
use ably_connectors.Types.{
  success, Message, ProtoFrame, Codec, is_empty, has_flag, flag_has_presence, flag_has_backlog,
  flag_resumed,
}
use ably_connectors.Hashmap.Probe.{IsKey}
use ably_connectors.Realtime.Presence.{Member, handle_sync, is_last_page, behind_colon}
use ably_connectors.Realtime.Members.{IsValid}
use ably_connectors.Realtime.Sync.{lookup}
use ably_connectors.Realtime.Pages.{handle_sync-forgets}
use ably_connectors.Channel.ChannelState.{attached}
use ably_connectors.Channel.Listeners.{Listeners}
use ably_connectors.Channel.Site.{OwnPresence, Site, reenter, reenter_own}
use ably_connectors.Channel.Receive.{
  receive_sync, flush, deliver, deliver_all, recover_from, rt_recover_gap, confirm, sync_if,
  recover_if, reenter_if, receive_attached,
}
use ably_connectors.Channel.Reconnect.{set_state_locked-moved}

-- The member with the client id `q` that a channel knows.
abbrev pub known : Option OwnPresence → List ℕ → Option Member
known none q = none
known (some p) q = lookup p.members q

module _ {ℓ} {C : Type ℓ} where
  reenter-pres :
      (codec : Codec) (s : Site C) (p : Option OwnPresence)
      → (reenter codec s p).ch.pres ≡ s.ch.pres
  reenter-pres codec s none = refl
  reenter-pres codec s (some p) =
      elim (Bool-cases (not p.own_entered || is_empty p.own_client_id)) [
        | inl outside ↦ rw outside refl
        | inr inside ↦ rw inside refl
      ]

  module _ (react : C → Message → Listeners C → Listeners C) where
    deliver_all-pres :
        (msgs : List Message) (s : Site C) → (deliver_all react s msgs).ch.pres ≡ s.ch.pres
    unfolding deliver_all deliver
    deliver_all-pres [] s = refl
    deliver_all-pres (msg ∷ msgs) s = deliver_all-pres msgs (deliver react s msg)

    module _ (fetch : List ℕ → List ℕ → Option (List Message × List ℕ)) where
      recover_from-pres :
          (n : ℕ) (cursor : List ℕ) (s : Site C)
          → (recover_from react fetch n cursor s).ch.pres ≡ s.ch.pres
      unfolding recover_from
      recover_from-pres zero cursor s = refl
      recover_from-pres (suc n) [] s = refl
      recover_from-pres (suc n) (c ∷ cursor) s =
          elim (Option-cases (fetch s.ch.name (c ∷ cursor))) [
            | inl fails ↦ rw (fails, recover_from) refl
            | inr (page, e) ↦
                rw (e, recover_from)
                  (recover_from-pres n _ (deliver_all react s page.0) ∙ deliver_all-pres page.0 s)
          ]

      recover_if-pres :
          (s : Site C) (frame : ProtoFrame) → (recover_if react fetch s frame).ch.pres ≡ s.ch.pres
      unfolding rt_recover_gap
      recover_if-pres s frame =
          elim (Bool-cases
            (not (has_flag frame.flags flag_resumed) || has_flag frame.flags flag_has_backlog)) [
              | inl gap ↦ rw gap (recover_from-pres 50 _ s)
              | inr whole ↦ rw whole refl
            ]

      reenter_if-pres :
          (codec : Codec) (s : Site C) (frame : ProtoFrame)
          → (reenter_if react fetch codec s frame).ch.pres ≡ s.ch.pres
      unfolding reenter_own
      reenter_if-pres codec s frame = elim (Bool-cases (has_flag frame.flags flag_resumed)) [
        | inl resumed ↦ rw resumed refl
        | inr anew ↦ rw anew (reenter-pres codec s s.ch.pres)
      ]

      confirm-pres :
          (s : Site C) (frame : ProtoFrame) → (confirm react fetch s frame).ch.pres ≡ s.ch.pres
      unfolding confirm
      confirm-pres s frame =
          ap (λ (x : Site C). x.ch.pres) (set_state_locked-moved _ attached success).1

      sync_if-pres :
          (u : Site C) (frame : ProtoFrame) (p : OwnPresence)
          → u.ch.pres ≡ some p
          → has_flag frame.flags flag_has_presence ≡ true
          → (sync_if react fetch u frame).ch.pres
            ≡ some (record p {
              members = (handle_sync p.members frame.presence_msgs frame.sync_serial).0;
            })
      sync_if-pres u frame p keeps flagged =
          rw flagged (ap (λ (o : Option OwnPresence). (receive_sync u frame o).ch.pres) keeps)

      receive_attached-pres :
          (codec : Codec) (s : Site C) (frame : ProtoFrame) (p : OwnPresence)
          → s.ch.pres ≡ some p
          → has_flag frame.flags flag_has_presence ≡ true
          → (receive_attached react fetch codec s frame).ch.pres
            ≡ some (record p {
              members = (handle_sync p.members frame.presence_msgs frame.sync_serial).0;
            })
      unfolding receive_attached
      receive_attached-pres codec s frame p keeps flagged =
          let up = flush codec (confirm react fetch s frame) in
          let synced = sync_if react fetch up frame in
          let found = recover_if react fetch synced frame in
          reenter_if-pres codec found frame
          ∙ recover_if-pres synced frame
          ∙ sync_if-pres up frame p (confirm-pres s frame ∙ keeps) flagged

      -- A channel that knows its members, from no unfinished SYNC, and an ATTACHED frame that says that
      -- the channel has presence members and carries no presence message and no sync serial: once the
      -- frame is handled, nobody is a member.
      pub receive_attached-forgets :
          (codec : Codec) (s : Site C) (frame : ProtoFrame) (p : OwnPresence) (q : List ℕ)
          → s.ch.pres ≡ some p
          → IsValid p.members
          → p.members.syncing ≡ false
          → has_flag frame.flags flag_has_presence ≡ true
          → frame.presence_msgs ≡ []
          → frame.sync_serial ≡ []
          → IsKey q
          → known (receive_attached react fetch codec s frame).ch.pres q ≡ none
      unfolding is_last_page behind_colon
      receive_attached-forgets codec s frame p q keeps v idle flagged no_msgs no_serial k =
          ap (λ o. known o q) (receive_attached-pres codec s frame p keeps flagged)
          ∙ rw (no_msgs, no_serial) (handle_sync-forgets v [] [] q idle refl k tt tt)
