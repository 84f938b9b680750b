-- ===== src/Channel/WholeRuns.antt =====
-- Runs of the model of ably-c/src/realtime/channel.c: whole runs of a channel, its queue, its payloads
-- and its presence members.
use ably_connectors.Prelude.{
  ℕ, ◌≤◌, ◌≡◌, refl, arith, true, false, Option, none, some, List, [], ◌∷◌, length, replicate,
}
use ably_connectors.Base64
use ably_connectors.Base64.{codes, decode_max_len}
use ably_connectors.Types.{
  connected, Action, attached_action, message_action, ProtoMessage, ProtoFrame, c_string,
}
use ably_connectors.Prelude.Rings.{ring_from}
use ably_connectors.Realtime.Runs.{joined, joined-IsValid, idle}
use ably_connectors.Realtime.SendRing.{SendRing, create_ring, rt_enqueue_frame}
use ably_connectors.Realtime.SendQueue.{SendQueue, Holds}
use ably_connectors.Vcdiff.Runs.{hello_world, decode-hello_world}
use ably_connectors.Channel.ChannelState.{initialized}
use ably_connectors.Channel.Listeners.{
  dispatch, dispatch_from, channel_subscribe, occupy, no_listeners,
}
use ably_connectors.Channel.Delta.{DeltaState, base, resolved, resolve, forget}
use ably_connectors.Channel.DeltaLaws.{IsRebased, resolve-IsRebased, resolve-delta}
use ably_connectors.Channel.Pending.{flush_pending_queue, flush_from, empty_pending}
use ably_connectors.Channel.Flushing.{Queues}
use ably_connectors.Channel.Flushed.{published, published-lost}
use ably_connectors.Channel.Site.{
  Site, OwnPresence, channel_create, reenter_own, on_disconnect, reattach, set_attaching,
  set_state_locked,
}
use ably_connectors.Channel.Receive.{
  receive_attached, on_frame, confirm, rt_recover_gap, recover_from, receive_messages, deliver,
}
use ably_connectors.Channel.Control.{attach}
use ably_connectors.Channel.Rejoined.{known, receive_attached-forgets}
use ably_connectors.Channel.Steps.{
  Happening, frame_arrives, connection_lost, connection_found, attaches, subscribes, step, run,
}
use ably_connectors.Channel.Tracked.{replay}
use ably_connectors.Channel.TrackedRuns.{run-replay}
use ably_connectors.Channel.Runs.{quiet, encode_test, fetch_test, room_site}

abbrev delta_on : DeltaState
delta_on = record {
  enabled = true;
  buf0 = some (codes "hello");
  buf1 = some [];
  buf_idx = false;
  last_id = [];
}

abbrev delta_message : ProtoMessage
delta_message = record {
  id = none;
  client_id = none;
  name = none;
  msg_data = some (Base64.encode hello_world);
  encoding = none;
  timestamp = 0;
  delta_format = some (codes "vcdiff");
  has_occupancy = false;
}

resolve-IsRebased_example : IsRebased delta_on (resolve delta_on delta_message)
resolve-IsRebased_example =
    resolve-IsRebased delta_on delta_message refl
      (record { out = codes "hello"; known = refl; room = omega arith })

hello_fits : decode_max_len (length (Base64.encode hello_world)) ≤ 32768
unfolding Base64.encode decode_max_len
hello_fits = omega arith

resolve-delta_example :
    (d' : DeltaState) × (resolve delta_on delta_message
      ≡ resolved (some (c_string (codes "hello world"))) d')
    × (d'.enabled ≡ true)
    × (base d' ≡ some (codes "hello world"))
resolve-delta_example =
    resolve-delta delta_on delta_message (codes "hello") hello_world (codes "hello world") refl refl
      refl refl (omega arith) hello_fits (omega arith) decode-hello_world

-- A ring in which 255 empty frames wait.
abbrev full_ring : SendRing
full_ring = record {
  send_ring = replicate 256 [];
  send_head = 255;
  send_tail = 0;
  outbound_msg_serial = 7;
}

abbrev full_queue : SendQueue
full_queue = record { frames = replicate 255 []; serial = 7 }

full_ring-Holds : Holds full_ring full_queue
unfolding ring_from
full_ring-Holds = record {
  sized = refl;
  tail = omega arith;
  head = refl;
  few = omega arith;
  held = refl;
  serial = refl;
}

abbrev hellos : List (Option (List ℕ) × Option (List ℕ))
hellos = (none, some (codes "a")) ∷ (none, some (codes "b")) ∷ []

published-lost_example :
    (Queues (published encode_test [] [] full_ring hellos).0 [])
    × Holds
        (published encode_test [] [] full_ring hellos).1
        (record { frames = replicate 255 []; serial = 9 })
published-lost_example =
    published-lost encode_test [] [] hellos full_ring full_queue full_ring-Holds (omega arith) refl

abbrev blank_frame : Action → ProtoFrame
blank_frame action = record {
  action = action;
  channel = some (codes "room");
  error_code = 0;
  error_message = none;
  flags = 0;
  connection_id = none;
  connection_key = none;
  messages = [];
  channel_serial = [];
  sync_serial = [];
  presence_msgs = [];
  details_client_id = [];
  connection_state_ttl = 0;
  channel_modes = 0;
}

-- "a" is a member, and the ATTACHED frame has the flag HAS_PRESENCE.
abbrev own : OwnPresence
own = record { members = joined; own_client_id = []; own_data = []; own_entered = false }

abbrev populated : Site ℕ
populated = record room_site { ch = record room_site.ch { pres = some own } }

receive_attached-forgets_example :
    known
      (receive_attached quiet fetch_test encode_test populated
        (record (blank_frame attached_action) { flags = 1 })).ch.pres
      (codes "a")
    ≡ none
receive_attached-forgets_example =
    receive_attached-forgets quiet fetch_test encode_test populated
      (record (blank_frame attached_action) { flags = 1 }) own (codes "a") refl joined-IsValid idle
      refl refl refl (omega arith)

-- A channel is attached, receives a message, and loses and finds its connection.
abbrev new_site : Site ℕ
new_site = record {
  ch = record (channel_create (codes "room")) { has_state_cb = true };
  ring = create_ring;
  conn_state = connected;
  client_id = [];
  told = [];
}

abbrev hello_message : ProtoMessage
hello_message = record delta_message { delta_format = none; msg_data = some (codes "hello") }

abbrev happenings : List (Happening ℕ)
happenings =
    subscribes [] 10
    ∷ attaches
    ∷ frame_arrives (blank_frame attached_action)
    ∷ frame_arrives (record (blank_frame message_action) { messages = hello_message ∷ [] })
    ∷ connection_lost
    ∷ connection_found
    ∷ []

abbrev site_or : Site ℕ → Option (Site ℕ) → Site ℕ
site_or s none = s
site_or s (some s') = s'

abbrev last_site : Site ℕ
last_site = site_or new_site (run encode_test quiet fetch_test new_site happenings)

happenings_end : run encode_test quiet fetch_test new_site happenings ≡ some last_site
unfolding run step on_frame receive_attached confirm rt_recover_gap recover_from reenter_own
    flush_pending_queue flush_from receive_messages resolve deliver dispatch dispatch_from
    on_disconnect forget reattach set_attaching attach set_state_locked channel_create
    channel_subscribe occupy no_listeners rt_enqueue_frame empty_pending create_ring
happenings_end = refl

run-replay_example : replay initialized last_site.told ≡ some last_site.ch.state
unfolding channel_create
run-replay_example =
    run-replay encode_test quiet fetch_test happenings new_site last_site refl refl refl
      happenings_end
