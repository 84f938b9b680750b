-- ===== src/Channel/Steps.antt =====
-- Everything that happens to a channel of ably-c/src/realtime/channel.c: the calls of the user, the
-- frames of the server, and the connection that is lost and found again.
use ably_connectors.Prelude.{ℕ, Bool, Option, none, some, List, [], ◌∷◌}
use ably_connectors.Types.{ConnectionState, Message, ProtoFrame, Codec}
use ably_connectors.Channel.Listeners.{Listeners, channel_subscribe, channel_unsubscribe}
use ably_connectors.Channel.Site.{Site, on_disconnect, reattach}
use ably_connectors.Channel.Receive.{on_frame}
use ably_connectors.Channel.Control.{
  attach, detach, set_options, enable_delta, presence_enter, presence_leave, presence_update,
  publish_on,
}

-- `ably_channel_set_rewind` and `ably_channel_set_occupancy_listener` are the last two.
pub data Happening {ℓ} (C : Type ℓ) : Type ℓ where
  frame_arrives : ProtoFrame → Happening C
  connection_lost connection_found : Happening C
  connection_becomes : ConnectionState → Happening C
  attaches detaches : Happening C
  sets_options : ℕ → ℕ → Happening C
  enables_delta : Bool → Happening C
  subscribes : List ℕ → C → Happening C
  unsubscribes : ℕ → Happening C
  publishes : Option (List ℕ) → Option (List ℕ) → Option (List ℕ) → Happening C
  enters : Bool → Option (List ℕ) → Option (List ℕ) → Happening C
  leaves updates : Option (List ℕ) → Happening C
  sets_rewind : ℕ → Happening C
  sets_occupancy_listener : Bool → Happening C

module _ {ℓ} {C : Type ℓ} (codec : Codec) (react : C → Message → Listeners C → Listeners C)
    (fetch : List ℕ → List ℕ → Option (List Message × List ℕ)) where
  abbrev pub with_listeners : Site C → Listeners C → Site C
  with_listeners s listeners = record s { ch = record s.ch { listeners = listeners } }

  unfoldable pub step : Site C → Happening C → Option (Site C)
  step s (frame_arrives frame) = on_frame react fetch codec s frame
  step s connection_lost = some (on_disconnect s)
  step s connection_found = some (reattach codec s)
  step s (connection_becomes state) = some (record s { conn_state = state })
  step s attaches = some (attach codec s).0
  step s detaches = some (detach codec s).0
  step s (sets_options rewind modes) = some (set_options codec s rewind modes).0
  step s (enables_delta allocated) = some (enable_delta allocated s).0
  step s (subscribes filter cb) =
      some (with_listeners s (channel_subscribe s.ch.listeners filter cb).0)
  step s (unsubscribes token) = some (with_listeners s (channel_unsubscribe s.ch.listeners token).0)
  step s (publishes name msg_data id) = some (publish_on codec s name msg_data id).0
  step s (enters allocated client_id own_data) =
      some (presence_enter codec allocated s client_id own_data).0
  step s (leaves own_data) = some (presence_leave codec s own_data).0
  step s (updates own_data) = some (presence_update codec s own_data).0
  step s (sets_rewind count) = some (record s { ch = record s.ch { rewind = count } })
  step s (sets_occupancy_listener is_set) =
      some (record s { ch = record s.ch { has_occupancy_listener = is_set } })

  -- `none` is a run that C gives no meaning.
  unfoldable pub run : Site C → List (Happening C) → Option (Site C)
  run s [] = some s
  run s (h ∷ hs) = elim (step s h) [ none ↦ none | some s' ↦ run s' hs ]
