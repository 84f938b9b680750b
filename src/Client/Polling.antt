-- ===== src/Client/Polling.antt =====
-- The event loop integration of ably-c/src/realtime/realtime_client.c, where the caller runs the loop:
-- `ably_rt_client_connect_async` and `ably_rt_step`.
use ably_connectors.Prelude.{ℕ, Bool, Option, none, some, List, [], if◌then◌else◌}
use mathlib.Core.Option
use ably_connectors.Types.{
  AblyError, success, network, connecting, disconnected, Message, ProtoFrame, Codec,
}
use ably_connectors.Realtime.SendRing.{reset_msg_serial, drain}
use ably_connectors.Channel.Listeners.{Listeners}
use ably_connectors.Client.Url.{resume_path}
use ably_connectors.Client.State.{Client, rt_set_state_locked}
use ably_connectors.Client.Service.{send_drained, is_stale, receive_frames}

-- The results -1, 0 and 1.
pub data StepResult : Type 0 where
  gone idle worked : StepResult

-- `ably_ws_recv_once`: the frames it passes on, and its result.
pub record Arrival : Type 0 where
  pub received : List (ℕ × List ℕ)
  pub result : AblyError

abbrev pub worked_if : Option (List ℕ) → StepResult
worked_if none = idle
worked_if (some frame) = worked

module _ {ℓ} {C : Type ℓ} where
  -- The path is that of the resumed connection, built from the client before the call.
  unfoldable pub connect_async : (connects : Bool) → Client C → Client C × List ℕ × AblyError
  connect_async connects c =
      let up = rt_set_state_locked c connecting success in
      let c' = record up {
        last_activity_ms = 0;
        connection_id = [];
        ring = reset_msg_serial up.ring;
      } in
      let path = resume_path c.ws_path c.connection_key in
      if connects
      then (c', path, success)
      else (rt_set_state_locked c' disconnected network, path, network)

  module _ (codec : Codec) (react : C → Message → Listeners C → Listeners C)
      (fetch : List ℕ → List ℕ → Option (List Message × List ℕ))
      (decode : List ℕ → Option ProtoFrame) where
    abbrev pub stepped : Option (List ℕ) → ℕ → AblyError → Client C → Client C × StepResult
    stepped frame clock network c = (c, gone)
    stepped frame clock success c = (c, if is_stale c clock then gone else worked)
    stepped frame clock _ c = (c, if is_stale c clock then gone else worked_if frame)

    unfoldable pub rt_step :
        (is_open : Bool) → ℕ → Arrival → Client C → Option (Client C × StepResult)
    rt_step is_open clock arrival c =
        let (ring, frame) = drain c.ring in
        if is_open
        then Option.map (stepped frame clock arrival.result) (
            receive_frames codec react fetch decode (send_drained c (ring, frame)) arrival.received)
        else some (c, gone)
