-- ===== src/Server.antt =====
-- The other side of the calls: what internal/server/app.go makes of the page that a list is asked
-- for. `strings.TrimSpace` and `strconv.Atoi` are Go's: a parameter, with what the code relies on.
pub mod Pagination
pub mod Auth
use Prim.Native.Nat.{◌^◌}
use http_tunnels.Prelude.{
  ℕ, ◌+◌, ◌-◌, ◌/◌, ◌<◌, String, Bool, true, false, Option, none, some, List, [], ◌∷◌, ◌≡◌, All,
  if◌then◌else◌, ltb, leb, ◌==◌, same_text, codes, show_nat,
}
use http_tunnels.Prelude.Int.{ℤ, pos, negsuc}
use http_tunnels.Url.{utf8}
use http_tunnels.Url.Digits.{IsDigit}

pub record GoText : Type 0 where
  pub trim_space : List ℕ → List ℕ
  pub atoi : List ℕ → Option ℤ
  -- A text without white space stays, and a decimal print is read back, within 64 bits.
  pub trim_space_of_digits : (cs : List ℕ) → All IsDigit cs → trim_space cs ≡ cs
  pub atoi-show_nat : (n : ℕ) → n < 2 ^ 63 → atoi (codes (show_nat n)) ≡ some (pos n)

-- `r.URL.Query().Get(key)`: the first value, or an empty text.
query_get : List ℕ → List (List ℕ × List ℕ) → List ℕ
query_get key [] = []
query_get key ((k, v) ∷ params) = if same_text k key then v else query_get key params

pub normalize_page : ℤ → ℕ
normalize_page (pos n) = if ltb n 1 then 1 else n
normalize_page (negsuc n) = 1

pub normalize_size : ℤ → ℕ
normalize_size (pos n) = if leb n 0 then 10 else if ltb 100 n then 100 else n
normalize_size (negsuc n) = 10

-- `normalizePagination`
pub normalize_pagination : ℤ → ℤ → ℕ × ℕ
unfolding normalize_page normalize_size
normalize_pagination page page_size = (normalize_page page, normalize_size page_size)

module _ (go : GoText) where
  -- A parameter's number: the default where it is missing, blank or no number.
  number_of : ℤ → List ℕ → ℤ
  number_of default [] = default
  number_of default (c ∷ cs) = elim (go.atoi (c ∷ cs)) [ none ↦ default | some n ↦ n ]

  pub parse_pagination_params : List (List ℕ × List ℕ) → ℕ × ℕ
  unfolding number_of query_get utf8
  parse_pagination_params params =
      normalize_pagination
        (number_of (pos 1) (go.trim_space (query_get (utf8 (codes "page")) params)))
        (number_of (pos 10) (go.trim_space (query_get (utf8 (codes "pageSize")) params)))

-- `totalPages`: the quotient, rounded up. The code divides floating-point numbers, which gives the
-- same below 2^45 items and for sizes up to 100.
pub total_pages : ℕ → ℕ → ℕ
total_pages total_items page_size =
    if leb total_items 0 then 1 else (total_items + page_size - 1) / page_size
