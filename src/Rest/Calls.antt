-- ===== src/Rest/Calls.antt =====
-- The calls of ably-c/src/rest/rest_client.c over the HTTP client. cJSON's printing and parsing are
-- parameters, and so is the network.
use ably_connectors.Prelude.{
  ℕ, Bool, ◌||◌, Option, none, some, List, [], ◌∷◌, length, map, take, ltb, leb, ◌==◌,
  if◌then◌else◌,
}
use ably_connectors.Base64.{codes}
use ably_connectors.Types.{AblyError, success, internal, capacity, no_mem, http, protocol, Message}
use ably_connectors.Realtime.Presence.{PresenceMessage}
use ably_connectors.Json.Tree.{Json, as_array, children}
use ably_connectors.Json.Encode.{fitting}
use ably_connectors.Http.Exchange.{Read, Reply, request_buf_size, http_get, http_do, http_post}
use ably_connectors.Rest.Cursor.{next_cursor}
use ably_connectors.Rest.Bodies.{
  RestMessage, message_tree, batch_tree, BatchSpec, specs_tree, BatchResult, batch_result,
  history_item, presence_item, ChannelStatus, channel_status, channel_items, time_of,
}
use ably_connectors.Rest.Paths.{
  publish_path, status_path, history_path, channel_list_path, presence_path,
}

-- The items of a page and the cursor of the next one.
pub record RestPage (A : Type 0) : Type 0 where
  pub items : List A
  pub next_cursor : List ℕ

-- `ably_rest_response_t`.
pub record RestResponse : Type 0 where
  pub http_status : ℕ
  pub body : List ℕ
  pub next_cursor : List ℕ

-- What a call returns, or a run that C gives no meaning.
pub data Outcome (A : Type 0) : Type 0 where
  ok : A → Outcome A
  failed : AblyError → Outcome A
  undefined_run : Outcome A

-- The value, and the status that `ably_rest_last_http_status` answers from then on.
abbrev pub Answer : Type 0 → Type 0
Answer A = Outcome A × ℕ

-- "status < 200 || status >= 300".
abbrev pub is_refused : ℕ → Bool
is_refused status = ltb status 200 || leb 300 status

-- The error of the request, or that of a status that is no success, or what follows.
abbrev pub checked : {A : Type 0} → Reply → Outcome A → AblyError → Outcome A
checked reply value success = if is_refused reply.status then failed http else value
checked reply value err = failed err

abbrev pub value_or : {A : Type 0} → AblyError → Option A → Outcome A
value_or err none = failed err
value_or err (some a) = ok a

abbrev pub page_of : {A : Type 0} → (Json → A) → Reply → Option (List Json) → Outcome (RestPage A)
page_of read reply none = failed protocol
page_of read reply (some items) =
    ok (record { items = map read items; next_cursor = next_cursor reply.link })

abbrev pub nothing : Outcome (Unit {0})
nothing = ok tt

abbrev pub unless_zero : ℕ → Outcome ℕ
unless_zero n = if n == 0 then failed protocol else ok n

module _ (number : List ℕ → ℕ) (wire : List ℕ → Option (List Read)) (host auth_header : List ℕ)
    (print : Json → Option (List ℕ)) (parse : List ℕ → Option Json) where
  abbrev get : List ℕ → Reply
  get path = http_get number wire host auth_header path

  -- The body in `body_buf`; `last` is the status from before, which a body that cannot be made leaves.
  abbrev pub posted : List ℕ → ℕ → Option (List ℕ) → Answer (Unit {0})
  posted path last none = (failed internal, last)
  posted path last (some body) =
      let reply = http_post number wire host auth_header path body in
      (checked reply nothing reply.err, reply.status)

  abbrev pub body_text : Option (List ℕ) → Option (List ℕ)
  body_text none = none
  body_text (some text) = fitting request_buf_size text

  -- `ably_rest_publish` without an id, and `ably_rest_publish_with_id`.
  unfoldable pub rest_publish : List ℕ → RestMessage → ℕ → Answer (Unit {0})
  rest_publish channel message last =
      posted (publish_path channel) last (body_text (print (message_tree message)))

  unfoldable pub rest_publish_batch : List ℕ → List RestMessage → ℕ → Answer (Unit {0})
  rest_publish_batch channel messages last =
      posted (publish_path channel) last (body_text (print (batch_tree messages)))

  -- A page of items from the path of a request.
  abbrev pub get_page : {A : Type 0} → (Json → A) → ℕ → Option (List ℕ) → Answer (RestPage A)
  get_page read last none = (undefined_run, last)
  get_page read last (some path) =
      let reply = get path in
      (checked reply (page_of read reply (as_array (parse reply.body))) reply.err, reply.status)

  -- `ably_rest_channel_history`.
  unfoldable pub rest_history : List ℕ → ℕ → List ℕ → List ℕ → ℕ → Answer (RestPage Message)
  rest_history channel limit direction from_serial last =
      get_page history_item last (history_path channel limit direction from_serial)

  -- `ably_rest_presence_get`.
  unfoldable pub rest_presence_get : List ℕ → ℕ → List ℕ → ℕ → Answer (RestPage PresenceMessage)
  rest_presence_get channel limit client_id last =
      get_page presence_item last (presence_path channel limit client_id)

  abbrev pub items_of : Option Json → Option (List Json)
  items_of none = none
  items_of (some root) = channel_items root

  -- `ably_rest_channel_list`.
  abbrev pub get_channels : ℕ → Option (List ℕ) → Answer (RestPage ChannelStatus)
  get_channels last none = (undefined_run, last)
  get_channels last (some path) =
      let reply = get path in
      (
        checked reply (page_of channel_status reply (items_of (parse reply.body))) reply.err,
        reply.status,
      )

  unfoldable pub rest_channel_list : List ℕ → ℕ → ℕ → Answer (RestPage ChannelStatus)
  rest_channel_list prefix limit last = get_channels last (channel_list_path prefix limit)

  abbrev pub status_of : Option Json → Outcome ChannelStatus
  status_of none = failed protocol
  status_of (some root) = ok (channel_status root)

  -- `ably_rest_channel_status`.
  unfoldable pub rest_channel_status : List ℕ → Answer ChannelStatus
  rest_channel_status channel =
      let reply = get (status_path channel) in
      (checked reply (status_of (parse reply.body)) reply.err, reply.status)

  -- `ably_rest_time`.
  unfoldable pub rest_time : Answer ℕ
  rest_time =
      let reply = get (codes "/time") in
      (checked reply (unless_zero (time_of (as_array (parse reply.body)))) reply.err, reply.status)

  -- `ably_rest_request`, for which every status is an answer.
  abbrev pub response_of : Reply → AblyError → Outcome RestResponse
  response_of reply success = ok (record {
    http_status = reply.status;
    body = reply.body;
    next_cursor = next_cursor reply.link;
  })
  response_of reply err = failed err

  -- A request that fails leaves the last status as it was.
  abbrev pub status_after : ℕ → Reply → AblyError → ℕ
  status_after last reply success = reply.status
  status_after last reply err = last

  unfoldable pub rest_request : List ℕ → List ℕ → List ℕ → ℕ → Answer RestResponse
  rest_request method path body last =
      let reply = http_do number wire host auth_header method path body in
      (response_of reply reply.err, status_after last reply reply.err)

  abbrev pub results_of : ℕ → List ℕ → List BatchResult
  results_of results_max [] = []
  results_of results_max (c ∷ body) = elim (parse (c ∷ body)) [
    | none ↦ []
    | some root ↦ map batch_result (take results_max (children root))
  ]

  abbrev pub send_specs : ℕ → ℕ → Option (List ℕ) → Answer (List BatchResult)
  send_specs results_max last none = (failed no_mem, last)
  send_specs results_max last (some text) =
      let reply = http_do number wire host auth_header (codes "POST") (codes "/messages") text in
      if leb request_buf_size (length text)
      then (failed capacity, last)
      else (checked reply (ok (results_of results_max reply.body)) reply.err, reply.status)

  -- `ably_rest_batch_publish`.
  unfoldable pub rest_batch_publish : List BatchSpec → ℕ → ℕ → Answer (List BatchResult)
  rest_batch_publish specs results_max last = send_specs results_max last (print (specs_tree specs))
