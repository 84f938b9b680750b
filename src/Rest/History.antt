-- ===== src/Rest/History.antt =====
-- `ably_channel_history` of ably-c/src/realtime/channel.c: a REST client that lives for one call.
use ably_connectors.Prelude.{ℕ, Option, none, some, List, [], ◌∷◌}
use ably_connectors.Types.{Message, no_mem}
use ably_connectors.Json.Tree.{Json}
use ably_connectors.Http.Exchange.{Read}
use ably_connectors.Rest.Calls.{RestPage, Outcome, failed, rest_history}
use ably_connectors.Rest.Token.{auth_header}

-- What `ably_rest_client_create` makes of a key; without one it makes no client.
abbrev pub client_auth : List ℕ → Option (List ℕ)
client_auth [] = none
client_auth (c ∷ api_key) = auth_header (c ∷ api_key) none

module _ (number : List ℕ → ℕ) (wire : List ℕ → Option (List Read)) (host : List ℕ)
    (print : Json → Option (List ℕ)) (parse : List ℕ → Option Json) where
  abbrev pub history_with :
      List ℕ → ℕ → List ℕ → List ℕ → Option (List ℕ) → Outcome (RestPage Message)
  history_with name limit direction from_serial none = failed no_mem
  history_with name limit direction from_serial (some auth) =
      (rest_history number wire host auth print parse name limit direction from_serial 0).0

  -- With the API key of the realtime client and the name of the channel.
  unfoldable pub channel_history :
      (api_key name : List ℕ) (limit : ℕ) (direction from_serial : List ℕ)
      → Outcome (RestPage Message)
  channel_history api_key name limit direction from_serial =
      history_with name limit direction from_serial (client_auth api_key)
