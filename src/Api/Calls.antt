-- ===== src/Api/Calls.antt =====
-- The object `api` of cmd/server/web/src/lib/api.ts: the call that each method makes.
use http_tunnels.Prelude.{ℕ, String, Option, none, some, List, [], ◌∷◌, ◌++◌, codes}
use http_tunnels.Api.{
  ChartRange, RequestActivityFilters, Value, undefined, str, num, build_query_string,
}

-- What `fetch` is called with; the headers and credentials are the same in every call.
pub record Call : Type 0 where
  pub path : List ℕ
  pub query : List ℕ
  pub method : String
  pub body : List (String × String)

-- The first argument of `fetch`.
abbrev pub input : Call → List ℕ
input c = c.path ++ c.query

abbrev get : List ℕ → List ℕ → Call
get path query = record { path = path; query = query; method = "GET"; body = [] }

-- `range?.field`
abbrev range_field : (ChartRange → String) → Option ChartRange → Value
range_field f none = undefined
range_field f (some r) = str (f r)

unfoldable pub session : Call
session = get (codes "/api/admin/auth/session") []

unfoldable pub login : String → Call
login password = record {
  path = codes "/api/admin/auth/login";
  query = [];
  method = "POST";
  body = ("password", password) ∷ [];
}

abbrev range_values : Option ChartRange → List (String × Value)
range_values range =
    ("granularity", range_field (λ r. r.granularity) range)
    ∷ ("start_date", range_field (λ r. r.start_date) range)
    ∷ ("end_date", range_field (λ r. r.end_date) range)
    ∷ []

unfoldable pub dashboard : Option ChartRange → Call
dashboard range = get (codes "/api/admin/dashboard") (build_query_string (range_values range))

abbrev pub activity_values : ℕ → ℕ → RequestActivityFilters → List (String × Value)
activity_values page page_size filters =
    ("page", num page)
    ∷ ("pageSize", num page_size)
    ∷ ("search", str filters.search)
    ∷ ("subdomain", str filters.subdomain)
    ∷ ("method", str filters.method)
    ∷ ("statusClass", str filters.status_class)
    ∷ []

unfoldable pub list_request_activity : ℕ → ℕ → RequestActivityFilters → Call
list_request_activity page page_size filters =
    get (codes "/api/admin/request-activity")
      (build_query_string (activity_values page page_size filters))

unfoldable pub request_activity_detail : String → Call
request_activity_detail request_id =
    get (codes "/api/admin/request-activity/" ++ codes request_id) []

abbrev page_values : ℕ → ℕ → List (String × Value)
page_values page page_size = ("page", num page) ∷ ("pageSize", num page_size) ∷ []

unfoldable pub list_tunnels : ℕ → ℕ → Call
list_tunnels page page_size =
    get (codes "/api/admin/tunnels") (build_query_string (page_values page page_size))

unfoldable pub tunnel_detail : String → ℕ → ℕ → Option ChartRange → Call
tunnel_detail tunnel_id page page_size range =
    get (codes "/api/admin/tunnels/" ++ codes tunnel_id)
      (build_query_string (page_values page page_size ++ range_values range))

unfoldable delete_tunnel : String → Call
delete_tunnel tunnel_id = record {
  path = codes "/api/admin/tunnels/" ++ codes tunnel_id;
  query = [];
  method = "DELETE";
  body = [];
}
