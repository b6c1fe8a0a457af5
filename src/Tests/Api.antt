-- ===== src/Tests/Api.antt =====
-- Query strings and answers.
use http_tunnels.Prelude.{String, some, none, List, [], ◌∷◌, map, ◌≡◌, ◌↔◌, refl, codes, show_nat}
use http_tunnels.Url.{to_string, trim, set}
use http_tunnels.Url.Decode.{parse}
use http_tunnels.Url.RoundTrip.{wire}
use http_tunnels.Api.{
  Value, undefined, str, num, build_query_string, Response, answered, resolved, api_error, request,
}
use http_tunnels.Api.Query.{kept, unmarked, parse-build_query_string}
use http_tunnels.Api.Outcomes.{Delivers, Refuses, request-eq-resolved_iff, request-eq-api_error_iff}

abbrev values : List (String × Value)
values = ("page", num 2) ∷ ("search", str " a&b=c ") ∷ ("method", undefined) ∷ []

parse-build_query_string_example :
    parse (unmarked (build_query_string values)) ≡ map wire (kept values)
parse-build_query_string_example =
    parse-build_query_string values ((refl, (refl, tt)), ((refl, tt), (tt, tt)))

-- The text is trimmed and percent-encoded, and the entry that is undefined is left out.
build_query_string_test : build_query_string values ≡ codes "?page=2&search=a%26b%3Dc"
unfolding build_query_string to_string trim set show_nat
build_query_string_test = refl

abbrev accepted : Response String
accepted = record { status = 200; status_text = "OK"; error_body = none; body = some "data" }

abbrev missing : Response String
missing = record {
  status = 404;
  status_text = "Not Found";
  error_body = some (record { error = none; message = some "no such tunnel" });
  body = none;
}

request-eq-resolved_iff_example :
    (request (answered accepted) ≡ resolved (some "data")) ↔ Delivers (answered accepted) "data"
request-eq-resolved_iff_example = request-eq-resolved_iff (answered accepted) "data"

request-eq-api_error_iff_example :
    (request (answered missing) ≡ api_error 404 "no such tunnel")
    ↔ Refuses (answered missing) 404 "no such tunnel"
request-eq-api_error_iff_example = request-eq-api_error_iff (answered missing) 404 "no such tunnel"
