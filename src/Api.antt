-- ===== src/Api.antt =====
-- cmd/server/web/src/lib/api.ts: the records that the server sends, the calls that the console
-- makes, and what becomes of an answer. Byte counts, counters and codes are natural numbers.
pub mod Calls
pub mod Query
pub mod Outcomes
use http_tunnels.Prelude.{
  ℕ, String, Bool, true, false, ◌&&◌, Option, none, some, List, [], ◌∷◌, ◌++◌, leb, ◌==◌,
  if◌then◌else◌, or_default, codes, show_nat,
}
use http_tunnels.Url.{trim, utf8, Params, set, to_string}

pub record AdminSession : Type 0 where
  pub authenticated : Bool
  pub configured : Bool
  pub message : Option String

pub record TunnelRecord : Type 0 where
  pub id : String
  pub domain : String
  pub requested_subdomain : Option String
  pub state : String
  pub created_at : String
  pub connected_at : Option String
  pub disconnected_at : Option String
  pub last_activity_at : Option String
  pub total_request_bytes : ℕ
  pub total_response_bytes : ℕ
  pub request_count : ℕ
  pub remote_addr : Option String
  pub user_agent : Option String
  pub client_version : Option String

-- `Record<string, string[]>`
abbrev pub Headers : Type 0
Headers = List (String × List String)

pub record RequestResponseLog : Type 0 where
  pub id : String
  pub tunnel_id : String
  pub domain : String
  pub method : String
  pub path : String
  pub request_headers : Option Headers
  pub response_headers : Option Headers
  pub request_preview : Option String
  pub response_preview : Option String
  pub request_content_type : Option String
  pub response_content_type : Option String
  pub request_bytes : ℕ
  pub response_bytes : ℕ
  pub status_code : ℕ
  pub started_at : String
  pub completed_at : Option String
  pub duration_ms : ℕ
  pub error_message : Option String

pub record TunnelCreationLog : Type 0 where
  pub id : ℕ
  pub tunnel_id : Option String
  pub domain : Option String
  pub requested_subdomain : Option String
  pub remote_addr : Option String
  pub user_agent : Option String
  pub success : Bool
  pub error_message : Option String
  pub created_at : String

pub record DashboardSummary : Type 0 where
  pub active_tunnels : ℕ
  pub active_traffic : ℕ
  pub registered_tunnels : ℕ
  pub total_requests : ℕ
  pub data_transferred_bytes : ℕ
  pub total_request_bytes : ℕ
  pub total_response_bytes : ℕ
  pub server_version : String

pub record StatusChartPoint : Type 0 where
  pub bucket : String
  pub two_xx : ℕ
  pub three_xx : ℕ
  pub four_xx : ℕ
  pub five_xx : ℕ

pub record TrafficChartPoint : Type 0 where
  pub bucket : String
  pub inbound_bytes : ℕ
  pub outbound_bytes : ℕ

pub record DashboardResponse : Type 0 where
  pub summary : DashboardSummary
  pub active_tunnels : List TunnelRecord
  pub recent_requests : List RequestResponseLog
  pub recent_tunnel_creates : List TunnelCreationLog
  pub status_chart : List StatusChartPoint
  pub traffic_chart : List TrafficChartPoint

pub record ChartRange : Type 0 where
  pub granularity : String
  pub start_date : String
  pub end_date : String

-- `TunnelListResponse` and `RequestLogListResponse`, which have the same fields.
pub record ListResponse (A : Type 0) : Type 0 where
  pub items : List A
  pub page : ℕ
  pub page_size : ℕ
  pub total_items : ℕ
  pub total_pages : ℕ

pub record RequestActivityFilters : Type 0 where
  pub search : String
  pub subdomain : String
  pub method : String
  pub status_class : String

pub record TunnelDetailResponse : Type 0 where
  pub tunnel : TunnelRecord
  pub status_chart : List StatusChartPoint
  pub traffic_chart : List TrafficChartPoint
  pub logs : ListResponse RequestResponseLog
  pub creation_history : List TunnelCreationLog

pub record ErrorPayload : Type 0 where
  pub error : Option String
  pub message : Option String

-- A value of `string | number | undefined`.
pub data Value : Type 0 where
  undefined : Value
  str : String → Value
  num : ℕ → Value

-- `String(value).trim()` in code points; an undefined value is skipped like an empty one.
normalized : Value → List ℕ
normalized undefined = []
normalized (str s) = trim (codes s)
normalized (num n) = trim (codes (show_nat n))

-- One round of the loop of `buildQueryString`; the bytes are those that the serializer writes.
abbrev put : String → List ℕ → Params → Params
put key [] params = params
put key (c ∷ cs) params = set key (utf8 (c ∷ cs)) params

pub build_params : Params → List (String × Value) → Params
build_params params [] = params
build_params params (e ∷ values) = build_params (put e.0 (normalized e.1) params) values

abbrev pub prefixed : List ℕ → List ℕ
prefixed [] = []
prefixed (c ∷ query) = b'?' ∷ c ∷ query

unfoldable pub build_query_string : List (String × Value) → List ℕ
unfolding build_params normalized
build_query_string values = prefixed (to_string (build_params [] values))

-- An answer of `fetch`: `error_body` and `body` are what `response.json()` gives, read as an error
-- payload and as the result; `none` where it rejects (for an error also where it is null).
pub record Response (T : Type 0) : Type 0 where
  pub status : ℕ
  pub status_text : String
  pub error_body : Option ErrorPayload
  pub body : Option T

pub data Fetched (T : Type 0) : Type 0 where
  answered : Response T → Fetched T
  network_error : String → Fetched T

-- How the promise of `request` settles: `resolved none` is `undefined`.
pub data Outcome (T : Type 0) : Type 0 where
  resolved : Option T → Outcome T
  api_error : ℕ → String → Outcome T
  failed : String → Outcome T

abbrev pub error_text : Option ErrorPayload → String → String
error_text none status_text = status_text
error_text (some payload) status_text =
    or_default payload.error (or_default payload.message status_text)

module _ {T : Type 0} where
  -- `response.ok`
  abbrev pub is_ok : Response T → Bool
  is_ok r = leb 200 r.status && leb r.status 299

  pub settle : Response T → Outcome T
  settle r =
      if is_ok r
      then if r.status == 204
        then resolved none
        else elim r.body [ none ↦ failed "invalid JSON" | some t ↦ resolved (some t) ]
      else api_error r.status (error_text r.error_body r.status_text)

  pub request : Fetched T → Outcome T
  unfolding settle
  request (answered r) = settle r
  request (network_error m) = failed m
