-- ===== src/Api/Query.antt =====
-- What a server reads from the query strings of `buildQueryString`.
use http_tunnels.Prelude.{
  ℕ, String, codes, show_nat, false, List, [], ◌∷◌, ◌++◌, map, ◌≡◌, refl, ap, ◌∙◌, sym, All,
  All-append, str_eq, if◌then◌else◌, ◌==◌,
}
use mathlib.Core.List.{append_assoc, append-nil}
use http_tunnels.Url.{trim, utf8, Params, set, to_string}
use http_tunnels.Url.Decode.{parse}
use http_tunnels.Url.RoundTrip.{utf8-AreBytes, wire, HasBytes, parse-to_string}
use http_tunnels.Url.Digits.{
  IsCons, show_nat-IsDigit, show_nat-IsCons, trim_of_digits, utf8_of_digits,
}
use http_tunnels.Api.{
  Value, undefined, str, num, normalized, put, build_params, prefixed, build_query_string,
}

-- No two entries have the same key, as in an object.
abbrev pub DistinctKeys : List (String × Value) → Type 0
DistinctKeys [] = Unit
DistinctKeys ((k, v) ∷ values) = All (λ e. str_eq k e.0 ≡ false) values × DistinctKeys values

-- The parameter of an entry, if its trimmed text is not empty.
abbrev keep : String → List ℕ → Params → Params
keep k [] rest = rest
keep k (c ∷ cs) rest = (k, utf8 (c ∷ cs)) ∷ rest

-- The text of a value, empty for none.
abbrev pub text_of : Value → List ℕ
text_of undefined = []
text_of (str s) = codes s
text_of (num n) = codes (show_nat n)

normalized-text_of : (v : Value) → normalized v ≡ trim (text_of v)
unfolding normalized trim
normalized-text_of undefined = refl
normalized-text_of (str s) = refl
normalized-text_of (num n) = refl

-- The parameters that a query string is to carry: the entries whose trimmed text is not empty, in
-- order, with that text.
pub kept : List (String × Value) → Params
kept [] = []
kept ((k, v) ∷ values) = keep k (trim (text_of v)) (kept values)

abbrev IsFresh : String → Params → Type 0
IsFresh k params = All (λ p. str_eq p.0 k ≡ false) params

set_of_IsFresh :
    (k : String) (v : List ℕ) (params : Params)
    → IsFresh k params
    → set k v params ≡ params ++ (k, v) ∷ []
unfolding set
set_of_IsFresh k v [] h = refl
set_of_IsFresh k v ((j, w) ∷ params) h = rw h.0 (ap ((j, w) ∷◌) (set_of_IsFresh k v params h.1))

-- The keys of the parameters so far and of the entries to come are different.
abbrev AreApart : Params → List (String × Value) → Type 0
AreApart params values = All (λ e. IsFresh e.0 params) values

AreApart-append :
    (k : String) (v : List ℕ) (params : Params) (values : List (String × Value))
    → AreApart params values
    → All (λ e. str_eq k e.0 ≡ false) values
    → AreApart (params ++ (k, v) ∷ []) values
AreApart-append k v params [] h d = tt
AreApart-append k v params (e ∷ values) h d = (
  All-append (λ p. str_eq p.0 e.0 ≡ false) params ((k, v) ∷ []) h.0 (d.0, tt),
  AreApart-append k v params values h.1 d.1,
)

put-kept :
    (n : List ℕ) (k : String) (values : List (String × Value)) (params : Params)
    → ((ps : Params) → AreApart ps values → build_params ps values ≡ ps ++ kept values)
    → All (λ e. str_eq k e.0 ≡ false) values
    → IsFresh k params × AreApart params values
    → build_params (put k n params) values ≡ params ++ keep k n (kept values)
put-kept [] k values params rest d h = rest params h.1
put-kept (c ∷ cs) k values params rest d h = rw (set_of_IsFresh k (utf8 (c ∷ cs)) params h.0) (
    rest (params ++ (k, utf8 (c ∷ cs)) ∷ []) (AreApart-append k (utf8 (c ∷ cs)) params values h.1 d)
    ∙ append_assoc params ((k, utf8 (c ∷ cs)) ∷ []) (kept values))

AreApart-cons :
    (k : String) (v : Value) (values : List (String × Value)) (params : Params)
    → AreApart params ((k, v) ∷ values)
    → IsFresh k params × AreApart params values
AreApart-cons k v values params h = h

build_params-kept :
    (values : List (String × Value)) (params : Params)
    → DistinctKeys values
    → AreApart params values
    → build_params params values ≡ params ++ kept values
unfolding build_params kept
build_params-kept [] params d h = sym (append-nil params)
build_params-kept ((k, v) ∷ values) params d h =
    rw (normalized-text_of v)
      (put-kept (trim (text_of v)) k values params (λ ps. build_params-kept values ps d.1) d.0 h)

AreApart-nil : (values : List (String × Value)) → AreApart [] values
AreApart-nil [] = tt
AreApart-nil (e ∷ values) = (tt, AreApart-nil values)

kept-HasBytes : (values : List (String × Value)) → All HasBytes (kept values)
unfolding kept
kept-HasBytes [] = tt
kept-HasBytes ((k, v) ∷ values) =
    keep-HasBytes (trim (text_of v)) k (kept values) (kept-HasBytes values)
  where
    keep-HasBytes :
        (n : List ℕ) (k : String) (rest : Params) → All HasBytes rest → All HasBytes (keep k n rest)
    keep-HasBytes [] k rest h = h
    keep-HasBytes (c ∷ cs) k rest h = (utf8-AreBytes (c ∷ cs), h)

-- The query without its question mark.
abbrev pub unmarked : List ℕ → List ℕ
unmarked [] = []
unmarked (c ∷ query) = if c == b'?' then query else c ∷ query

unmarked-prefixed : (query : List ℕ) → unmarked (prefixed query) ≡ query
unmarked-prefixed [] = refl
unmarked-prefixed (c ∷ query) = refl

-- For an object, whose keys are distinct, a form decoder reads from its query string exactly the
-- entries whose trimmed text is not empty, in order, each with the UTF-8 bytes of that text.
pub parse-build_query_string :
    (values : List (String × Value))
    → DistinctKeys values
    → parse (unmarked (build_query_string values)) ≡ map wire (kept values)
unfolding build_query_string
parse-build_query_string values d =
    rw
      (
        unmarked-prefixed (to_string (build_params [] values)),
        build_params-kept values [] d (AreApart-nil values),
      )
      (parse-to_string (kept values) (kept-HasBytes values))

keep_of_IsCons :
    (k : String) (cs : List ℕ) (rest : Params) → IsCons cs → keep k cs rest ≡ (k, utf8 cs) ∷ rest
keep_of_IsCons k [] rest h = absurd h
keep_of_IsCons k (c ∷ cs) rest h = refl

-- A number is kept, as its decimal print.
kept-num :
    (k : String) (n : ℕ) (values : List (String × Value))
    → kept ((k, num n) ∷ values) ≡ (k, codes (show_nat n)) ∷ kept values
unfolding kept
kept-num k n values = rw (
  trim_of_digits (codes (show_nat n)) (show_nat-IsDigit n),
  keep_of_IsCons k (codes (show_nat n)) (kept values) (show_nat-IsCons n),
  utf8_of_digits (codes (show_nat n)) (show_nat-IsDigit n),
)

pub kept-page_values :
    (page page_size : ℕ) (values : List (String × Value))
    → kept (("page", num page) ∷ ("pageSize", num page_size) ∷ values)
      ≡ ("page", codes (show_nat page)) ∷ ("pageSize", codes (show_nat page_size)) ∷ kept values
kept-page_values page page_size values =
    kept-num "page" page (("pageSize", num page_size) ∷ values)
    ∙ ap (("page", codes (show_nat page)) ∷◌) (kept-num "pageSize" page_size values)
