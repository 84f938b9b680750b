-- ===== src/Rest/Stats.antt =====
-- `ably_rest_stats` of ably-c/src/rest/rest_client.c. The counts, which are of type double, are natural
-- numbers here.
use ably_connectors.Prelude.{ℕ, Option, some, List}
use ably_connectors.Base64.{codes}
use ably_connectors.Json.Tree.{Json}
use ably_connectors.Json.Decode.{json_str, copied, inner, int64_of}
use ably_connectors.Http.Exchange.{Read}
use ably_connectors.Rest.Paths.{stats_path}
use ably_connectors.Rest.Calls.{RestPage, Answer, get_page}

-- `ably_stats_count_t`; `amount` is the field `data`.
pub record StatsCount : Type 0 where
  pub count : ℕ
  pub amount : ℕ

-- `ably_stats_message_types_t`.
pub record StatsTypes : Type 0 where
  pub all : StatsCount
  pub messages : StatsCount
  pub presence : StatsCount

-- `ably_stats_message_traffic_t`.
pub record StatsTraffic : Type 0 where
  pub all : StatsTypes
  pub realtime : StatsTypes
  pub rest : StatsTypes
  pub webhook : StatsTypes
  pub push : StatsTypes
  pub http_event : StatsTypes
  pub shared_queue : StatsTypes

-- The unnamed structs `connections` and `channels` of `ably_stats_t`; `low` is the field `min`.
pub record StatsResource : Type 0 where
  pub peak : ℕ
  pub low : ℕ
  pub opened : ℕ
  pub refused : ℕ
  pub closed : ℕ

-- The unnamed structs `api_requests` and `token_requests` of `ably_stats_t`.
pub record StatsRequests : Type 0 where
  pub succeeded : ℕ
  pub failed : ℕ
  pub refused : ℕ

-- `ably_stats_t`.
pub record Stats : Type 0 where
  pub interval_id : List ℕ
  pub unit : List ℕ
  pub inbound : StatsTraffic
  pub outbound : StatsTraffic
  pub persisted : StatsTypes
  pub connections : StatsResource
  pub channels : StatsResource
  pub api_requests : StatsRequests
  pub token_requests : StatsRequests

-- What is missing reads as 0 at every depth.
unfoldable pub parse_stats_count : Option Json → StatsCount
parse_stats_count obj = record {
  count = int64_of (codes "count") obj;
  amount = int64_of (codes "data") obj;
}

unfoldable pub parse_stats_message_types : Option Json → StatsTypes
parse_stats_message_types obj = record {
  all = parse_stats_count (inner (codes "all") obj);
  messages = parse_stats_count (inner (codes "messages") obj);
  presence = parse_stats_count (inner (codes "presence") obj);
}

unfoldable pub parse_stats_message_traffic : Option Json → StatsTraffic
parse_stats_message_traffic obj = record {
  all = parse_stats_message_types (inner (codes "all") obj);
  realtime = parse_stats_message_types (inner (codes "realtime") obj);
  rest = parse_stats_message_types (inner (codes "rest") obj);
  webhook = parse_stats_message_types (inner (codes "webhook") obj);
  push = parse_stats_message_types (inner (codes "push") obj);
  http_event = parse_stats_message_types (inner (codes "httpEvent") obj);
  shared_queue = parse_stats_message_types (inner (codes "sharedQueue") obj);
}

abbrev pub resource_of : Option Json → StatsResource
resource_of obj = record {
  peak = int64_of (codes "peak") obj;
  low = int64_of (codes "min") obj;
  opened = int64_of (codes "opened") obj;
  refused = int64_of (codes "refused") obj;
  closed = int64_of (codes "closed") obj;
}

abbrev pub requests_of : Option Json → StatsRequests
requests_of obj = record {
  succeeded = int64_of (codes "succeeded") obj;
  failed = int64_of (codes "failed") obj;
  refused = int64_of (codes "refused") obj;
}

unfoldable pub parse_stats_item : Json → Stats
parse_stats_item obj =
    let at_key = λ (key : List ℕ). inner key (some obj) in
    record {
      interval_id = copied 32 (json_str obj (codes "intervalId"));
      unit = copied 16 (json_str obj (codes "unit"));
      inbound = parse_stats_message_traffic (at_key (codes "inbound"));
      outbound = parse_stats_message_traffic (at_key (codes "outbound"));
      persisted = parse_stats_message_types (at_key (codes "persisted"));
      connections = resource_of (at_key (codes "connections"));
      channels = resource_of (at_key (codes "channels"));
      api_requests = requests_of (at_key (codes "apiRequests"));
      token_requests = requests_of (at_key (codes "tokenRequests"));
    }

module _ (number : List ℕ → ℕ) (wire : List ℕ → Option (List Read)) (host auth_header : List ℕ)
    (print : Json → Option (List ℕ)) (parse : List ℕ → Option Json) where
  unfoldable pub rest_stats :
      (unit : List ℕ) (start_ms end_ms : ℕ) (direction : List ℕ) (limit last : ℕ)
      → Answer (RestPage Stats)
  rest_stats unit start_ms end_ms direction limit last =
      get_page number wire host auth_header print parse parse_stats_item last
        (stats_path unit start_ms end_ms direction limit)
