-- ===== src/Server/Pagination.antt =====
-- The server shows the page that the console asks for.
use Prim.Native.Nat.{◌^◌}
use http_tunnels.Prelude.{
  ℕ, ◌+◌, ◌-◌, ◌*◌, ◌/◌, ◌≤◌, ◌<◌, String, false, some, List, [], ◌∷◌, map, ◌≡◌, refl, ap₂, arith,
  codes, show_nat, leb,
}
use http_tunnels.Prelude.Int.{ℤ, pos}
use http_tunnels.Url.{utf8}
use http_tunnels.Url.Decode.{parse}
use http_tunnels.Url.RoundTrip.{wire}
use http_tunnels.Url.Digits.{show_nat-IsDigit, show_nat-IsCons, IsCons}
use http_tunnels.Api.{RequestActivityFilters, Value, num, build_query_string}
use http_tunnels.Api.Query.{
  DistinctKeys, kept, kept-page_values, unmarked, parse-build_query_string,
}
use http_tunnels.Api.Calls
use http_tunnels.Components.Basic.Laws.{Reached, Reached-iff}
use http_tunnels.Server.{
  GoText, normalize_page, normalize_size, normalize_pagination, number_of, parse_pagination_params,
  total_pages,
}

-- A page and a size that the server takes as they are.
abbrev InLimits : ℕ → ℕ → Type 0
InLimits page page_size = (1 ≤ page) × (page < 2 ^ 63) × (1 ≤ page_size) × (page_size ≤ 100)

small : (n : ℕ) → n ≤ 100 → n < 2 ^ 63
small n h = omega arith

normalize_page_of_limits : (n : ℕ) → 1 ≤ n → normalize_page (pos n) ≡ n
unfolding normalize_page
normalize_page_of_limits n h = ground arith

normalize_size_of_limits : (n : ℕ) → 1 ≤ n → n ≤ 100 → normalize_size (pos n) ≡ n
unfolding normalize_size
normalize_size_of_limits n h k = ground arith

module _ (go : GoText) where
  number_of-IsCons :
      (d : ℤ) (cs : List ℕ) (n : ℕ)
      → IsCons cs
      → go.atoi cs ≡ some (pos n)
      → number_of go d cs ≡ pos n
  unfolding number_of
  number_of-IsCons d [] n h e = absurd h
  number_of-IsCons d (c ∷ cs) n h e = rw (e, number_of)

  number_of-show_nat :
      (d : ℤ) (n : ℕ) → n < 2 ^ 63 → number_of go d (go.trim_space (codes (show_nat n))) ≡ pos n
  number_of-show_nat d n h =
      rw (go.trim_space_of_digits (codes (show_nat n)) (show_nat-IsDigit n))
        (number_of-IsCons d (codes (show_nat n)) n (show_nat-IsCons n) (go.atoi-show_nat n h))

  parse_pagination_params-page :
      (page page_size : ℕ) (rest : List (List ℕ × List ℕ))
      → InLimits page page_size
      → parse_pagination_params go (
          (utf8 (codes "page"), codes (show_nat page))
          ∷ (utf8 (codes "pageSize"), codes (show_nat page_size))
          ∷ rest)
        ≡ (page, page_size)
  unfolding parse_pagination_params normalize_pagination
  parse_pagination_params-page page page_size rest h =
      rw
        (
          number_of-show_nat (pos 1) page (h.1),
          number_of-show_nat (pos 10) page_size (small page_size h.3),
        )
        (ap₂ (λ a b. (a, b)) (normalize_page_of_limits page h.0)
          (normalize_size_of_limits page_size h.2 h.3))

  read-page_values :
      (page page_size : ℕ) (values : List (String × Value))
      → DistinctKeys (("page", num page) ∷ ("pageSize", num page_size) ∷ values)
      → InLimits page page_size
      → parse_pagination_params go (
          parse (
            unmarked
              (build_query_string (("page", num page) ∷ ("pageSize", num page_size) ∷ values))))
        ≡ (page, page_size)
  read-page_values page page_size values d h =
      rw (parse-build_query_string _ d, kept-page_values page page_size values)
        (parse_pagination_params-page page page_size (map wire (kept values)) h)

  -- A page and a size in the server's limits arrive as they were asked for, through the query
  -- string, its encoding and its parser: for the list of tunnels, and for the request activity
  -- whatever the filters hold.
  pub read-pages :
      (page page_size : ℕ) (filters : RequestActivityFilters)
      → InLimits page page_size
      → (parse_pagination_params go (parse (unmarked (Calls.list_tunnels page page_size).query))
          ≡ (page, page_size))
        × (parse_pagination_params go
              (parse (unmarked (Calls.list_request_activity page page_size filters).query))
            ≡ (page, page_size))
  unfolding Calls.list_tunnels Calls.list_request_activity
  read-pages page page_size filters h = (
    read-page_values page page_size [] ((refl, tt), (tt, tt)) h,
    read-page_values page page_size _ distinct h,
  )
    where
      distinct : DistinctKeys (Calls.activity_values page page_size filters)
      distinct = ground arith

-- The quotient, rounded up.
div-round_up : (n d : ℕ) → 1 ≤ d → 1 ≤ n → n ≤ (n + d - 1) / d * d
div-round_up n d h k = grind arith

div-lt : (i n d q : ℕ) → 1 ≤ d → i < n → n ≤ q * d → i / d < q
div-lt i n d q h k l = grind arith

-- For sizes of at least 1, every item of a list is on a page that clicks on the page controls reach
-- from the first one, where the number of pages is the one that the server computes.
Reached-total_pages :
    (total_items page_size i : ℕ)
    → 1 ≤ page_size
    → i < total_items
    → Reached (total_pages total_items page_size) (i / page_size + 1)
unfolding total_pages
Reached-total_pages total_items page_size i h k =
    let some_items : leb total_items 0 ≡ false = ground arith in
    let below =
      div-lt i total_items page_size ((total_items + page_size - 1) / page_size) h k
        (div-round_up total_items page_size h (omega arith)) in
    rw some_items ((Reached-iff _ (i / page_size + 1)).1 (omega arith, omega arith))
