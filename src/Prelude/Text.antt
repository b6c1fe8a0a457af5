-- ===== src/Prelude/Text.antt =====
-- Text: the code points of a string, and the decimal print of a number.
use Prim.Native.Nat.{ℕ, zero, suc, ◌+◌, ◌-◌, ◌*◌, ◌/◌, ◌%◌, ◌<◌}
use Prim.Native.Char.{code}
use Prim.Native.String.{String}
use Prim.Native.String
use mathlib.Core.Path.{◌≡◌, refl, ap, ◌∙◌}
use mathlib.Core.Bool.{Bool, true, false, ◌&&◌, false≢true}
use mathlib.Core.Option.{Option, none, some}
use mathlib.Core.Logic.{inl, inr}
use mathlib.Core.List.{List, [], ◌∷◌, ◌++◌, map}
use native.Mathlib.Omega.{arith}
use text.Mathlib.TextLemmas.{nil-append, cons-append}
use http_tunnels.Prelude.Tests.{ltb, leb, ◌==◌, Bool-cases, if◌then◌else◌}

-- `a + b` on strings.
infixl 66 ◌^^◌
abbrev pub ◌^^◌ : String → String → String
s ^^ t = String.◌++◌ s t

abbrev pub codes : String → List ℕ
codes String.[] = []
codes (String.◌∷◌ c s) = code c ∷ codes s

pub codes-append : (s t : String) → codes (s ^^ t) ≡ codes s ++ codes t
codes-append String.[] t = rw nil-append
codes-append (String.◌∷◌ c s) t = rw cons-append (ap (code c ∷◌) (codes-append s t))

-- The string is truthy: it is not empty.
abbrev pub nonempty : String → Bool
nonempty String.[] = false
nonempty (String.◌∷◌ c s) = true

-- `s || d`
abbrev pub or_text : String → String → String
or_text String.[] d = d
or_text (String.◌∷◌ c s) d = String.◌∷◌ c s

pub or_text_of_nonempty : (v d : String) → nonempty v ≡ true → or_text v d ≡ v
or_text_of_nonempty String.[] d h = absurd (false≢true h)
or_text_of_nonempty (String.◌∷◌ c v) d h = refl

-- `value || d` for an optional text
abbrev pub or_else : Option String → String → String
or_else none d = d
or_else (some s) d = or_text s d

-- The optional text is truthy.
abbrev pub present : Option String → Bool
present none = false
present (some s) = nonempty s

abbrev pub same_text : List ℕ → List ℕ → Bool
same_text [] [] = true
same_text (x ∷ xs) (y ∷ ys) = x == y && same_text xs ys
same_text _ _ = false

-- `toLowerCase`, for a comparison with a text of the letters "a" to "z" other than "k": no
-- letter beyond ASCII has such a lower case.
abbrev pub lower_case : String → List ℕ
lower_case s = map (λ c. if leb b'A' c && leb c b'Z' then c + 32 else c) (codes s)

abbrev pub digit : ℕ → String
digit zero = "0"
digit (suc zero) = "1"
digit (suc (suc zero)) = "2"
digit (suc (suc (suc zero))) = "3"
digit (suc (suc (suc (suc zero)))) = "4"
digit (suc (suc (suc (suc (suc zero))))) = "5"
digit (suc (suc (suc (suc (suc (suc zero)))))) = "6"
digit (suc (suc (suc (suc (suc (suc (suc zero))))))) = "7"
digit (suc (suc (suc (suc (suc (suc (suc (suc zero)))))))) = "8"
digit other = "9"

-- `String(n)`. The fuel falls by one for each digit, and a number has fewer digits than `n + 1`.
unfoldable pub show_fuel : ℕ → ℕ → String
show_fuel zero n = ""
show_fuel (suc f) n =
    let more = show_fuel f (n / 10) ^^ digit (n % 10) in if ltb n 10 then digit n else more

unfoldable pub show_nat : ℕ → String
unfolding show_fuel
show_nat n = show_fuel (suc n) n

-- Reading a decimal text from the left.
abbrev pub parse_from : ℕ → List ℕ → ℕ
parse_from acc [] = acc
parse_from acc (c ∷ cs) = parse_from (acc * 10 + (c - b'0')) cs

digit-parse : (acc n : ℕ) → n < 10 → parse_from acc (codes (digit n)) ≡ acc * 10 + n
digit-parse acc zero h = omega arith
digit-parse acc (suc zero) h = omega arith
digit-parse acc (suc (suc zero)) h = omega arith
digit-parse acc (suc (suc (suc zero))) h = omega arith
digit-parse acc (suc (suc (suc (suc zero)))) h = omega arith
digit-parse acc (suc (suc (suc (suc (suc zero))))) h = omega arith
digit-parse acc (suc (suc (suc (suc (suc (suc zero)))))) h = omega arith
digit-parse acc (suc (suc (suc (suc (suc (suc (suc zero))))))) h = omega arith
digit-parse acc (suc (suc (suc (suc (suc (suc (suc (suc zero)))))))) h = omega arith
digit-parse acc (suc (suc (suc (suc (suc (suc (suc (suc (suc m))))))))) h = omega arith

parse_from-append :
    (acc : ℕ) (xs ys : List ℕ) → parse_from acc (xs ++ ys) ≡ parse_from (parse_from acc xs) ys
parse_from-append acc [] ys = refl
parse_from-append acc (x ∷ xs) ys = parse_from-append (acc * 10 + (x - b'0')) xs ys

show_fuel-parse : (f n : ℕ) → n < f → parse_from 0 (codes (show_fuel f n)) ≡ n
unfolding show_fuel
show_fuel-parse zero n h = elim h [ ]
show_fuel-parse (suc f) n h = elim (Bool-cases (ltb n 10)) [
  | inl small ↦ rw small (digit-parse 0 n (ground arith) ∙ omega arith)
  | inr large ↦
      rw (large, codes-append, parse_from-append, show_fuel-parse f (n / 10) (ground arith))
        (digit-parse (n / 10) (n % 10) (omega arith) ∙ omega arith)
]

-- Reading the decimal print of a number gives the number back.
pub show_nat-parse : (n : ℕ) → parse_from 0 (codes (show_nat n)) ≡ n
unfolding show_nat
show_nat-parse n = show_fuel-parse (suc n) n (omega arith)
