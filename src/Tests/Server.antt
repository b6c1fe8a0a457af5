-- ===== src/Tests/Server.antt =====
-- The server's reading of a page.
use http_tunnels.Prelude.{some, ◌≡◌, refl, ap, arith, parse_from, show_nat-parse}
use http_tunnels.Prelude.Int.{pos}
use http_tunnels.Url.Decode.{parse}
use http_tunnels.Api.Query.{unmarked}
use http_tunnels.Api.Calls
use http_tunnels.Server.{GoText, parse_pagination_params}
use http_tunnels.Server.Pagination.{read-pages}
use http_tunnels.Tests.Data.{some_filters}

-- Texts without white space, read as decimals.
abbrev go : GoText
go = record {
  trim_space = λ cs. cs;
  atoi = λ cs. some (pos (parse_from 0 cs));
  trim_space_of_digits = λ cs h. refl;
  atoi-show_nat = λ n h. ap (λ m. some (pos m)) (show_nat-parse n);
}

read-pages_example :
    (parse_pagination_params go (parse (unmarked (Calls.list_tunnels 2 10).query)) ≡ (2, 10))
    × (parse_pagination_params go
          (parse (unmarked (Calls.list_request_activity 2 10 some_filters).query))
        ≡ (2, 10))
read-pages_example =
    read-pages go 2 10 some_filters (omega arith, omega arith, omega arith, omega arith)
