-- ===== src/Channel/Runs.antt =====
-- Runs of the model of ably-c/src/realtime/channel.c: the theorems about a channel at concrete channels.
use ably_connectors.Prelude.{
  ℕ, ◌≡◌, ◌⊎◌, refl, arith, true, Option, none, some, List, [], ◌∷◌, All, get_or, ◌==◌,
  if◌then◌else◌, replicate,
}
use ably_connectors.Base64.{codes}
use ably_connectors.Types.{success, invalid_arg, connected, Message, Codec, or_empty}
use ably_connectors.Realtime.SendRing.{create_ring}
use ably_connectors.Realtime.SendQueue.{Holds, create_ring-Holds}
use ably_connectors.Channel.ChannelState.{attaching, attached, detached, is_attached_or_attaching}
use ably_connectors.Channel.Listeners.{
  Listeners, channel_subscribe, channel_unsubscribe, dispatch, strcmp_eq,
}
use ably_connectors.Channel.Listening.{
  interested, IsTaken, TakesFirst, dispatch-interested, channel_subscribe-channel_unsubscribe,
}
use ably_connectors.Channel.Site.{Channel, Site, channel_create, reattach}
use ably_connectors.Channel.Control.{attach, set_options}
use ably_connectors.Channel.Reconnect.{disconnects, disconnects-reattach}
use ably_connectors.Channel.Recovery.{Page}
use ably_connectors.Channel.Outcomes.{IsAllOrNothing, attach-IsAllOrNothing, set_options-reattaches}

abbrev pub quiet : ℕ → Message → Listeners ℕ → Listeners ℕ
quiet cb msg t = t

abbrev greeting : Message
greeting = record {
  id = none;
  name = some (codes "greeting");
  msg_data = some (codes "hello");
  client_id = none;
  timestamp = 0;
}

-- Two subscribers to the name "greeting", one to all names, and one to another name.
abbrev crowd : Listeners ℕ
crowd = record {
  slots =
      some (record { token = 1; cb = 10; name_filter = codes "greeting" })
      ∷ some (record { token = 2; cb = 20; name_filter = codes "farewell" })
      ∷ none
      ∷ some (record { token = 4; cb = 40; name_filter = [] })
      ∷ replicate 28 none;
  next_token = 5;
}

dispatch-interested_example :
    dispatch quiet greeting crowd ≡ (interested greeting.name crowd.slots, crowd)
dispatch-interested_example = dispatch-interested quiet (λ cb msg t. refl) greeting crowd refl

-- The two that are called.
crowd_called : interested greeting.name crowd.slots ≡ 10 ∷ 40 ∷ []
unfolding interested strcmp_eq
crowd_called = refl

abbrev pub encode_test : Codec
encode_test = record {
  encode_publish = λ channel name msg_data client_id id serial. some (serial ∷ or_empty msg_data);
  encode_attach = λ channel params. some (codes "ATTACH");
  encode_detach = λ channel. some (codes "DETACH");
  encode_presence = λ channel action client_id own_data. some (codes "PRESENCE");
  encode_heartbeat = none;
  encode_close = none;
}

abbrev room_channel : Channel ℕ
room_channel = record (channel_create (codes "room")) {
  state = attached;
  has_state_cb = true;
  channel_serial = codes "s1";
}

abbrev pub room_site : Site ℕ
room_site = record {
  ch = room_channel;
  ring = create_ring;
  conn_state = connected;
  client_id = codes "me";
  told = [];
}

disconnects-reattach_example :
    let down = disconnects 3 room_site in
    let up = reattach encode_test down in
    (down.ch.state ≡ detached)
    × (up.ch.state ≡ attaching)
    × Holds up.ring (record { frames = codes "ATTACH" ∷ []; serial = 0 })
    × (reattach encode_test up ≡ up)
disconnects-reattach_example =
    disconnects-reattach encode_test 2 room_site (codes "ATTACH")
      (record { frames = []; serial = 0 }) refl refl create_ring-Holds (omega arith)

-- A history of two pages, the second behind the cursor "s2".
abbrev two_pages : List Page
two_pages = (greeting ∷ greeting ∷ [], codes "s2") ∷ (greeting ∷ [], []) ∷ []

abbrev pub fetch_test : List ℕ → List ℕ → Option Page
fetch_test name cursor =
    if get_or cursor 1 0 == 49
    then some (greeting ∷ greeting ∷ [], codes "s2")
    else some (greeting ∷ [], [])

attach-IsAllOrNothing_example :
    IsAllOrNothing is_attached_or_attaching room_site (attach encode_test room_site)
attach-IsAllOrNothing_example = attach-IsAllOrNothing encode_test room_site

set_options-reattaches_example :
    let (s', e) = set_options encode_test room_site 5 3 in
    (e ≡ success)
    × (s'.ch.state ≡ attaching)
    × (s'.ch.rewind ≡ 5)
    × (s'.ch.channel_modes ≡ 3)
    × Holds s'.ring (record { frames = codes "DETACH" ∷ codes "ATTACH" ∷ []; serial = 0 })
set_options-reattaches_example =
    set_options-reattaches encode_test room_site 5 3 (codes "DETACH") (codes "ATTACH")
      (record { frames = []; serial = 0 }) refl refl refl refl create_ring-Holds (omega arith)

channel_subscribe-channel_unsubscribe_example :
    ((channel_subscribe crowd [] 50 ≡ (crowd, none)) × All IsTaken crowd.slots)
    ⊎ (let after = (channel_subscribe crowd [] 50).0 in
        let undone = (channel_unsubscribe after 5).0 in
        ((channel_subscribe crowd [] 50).1 ≡ some 5)
        × TakesFirst crowd.slots (record { token = 5; cb = 50; name_filter = [] }) after.slots
        × ((channel_unsubscribe after 5).1 ≡ success)
        × (undone.slots ≡ crowd.slots)
        × (channel_unsubscribe undone 5 ≡ (undone, invalid_arg)))
channel_subscribe-channel_unsubscribe_example =
    channel_subscribe-channel_unsubscribe crowd [] 50 (omega arith) (omega arith)
