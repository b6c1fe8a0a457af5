-- ===== src/Format.antt =====
-- cmd/server/web/src/lib/format.ts: how the console prints sizes, counts, dates and durations.
-- `Intl` and `Date` are the platform's: a parameter. A JavaScript number is a fraction here, or one
-- of the values that are not finite; a division by 1024 is exact in both. Status codes and counts
-- are natural numbers, times are whole milliseconds.
pub mod Bytes
pub mod Durations
pub mod Classes
use http_tunnels.Prelude.{
  ℕ, zero, suc, ◌+◌, ◌*◌, ◌/◌, String, Bool, true, false, not, ◌&&◌, ◌||◌, Option, none, some, List,
  ltb, leb, if◌then◌else◌, or_default, nonempty, show_nat, ◌^^◌, codes,
}
use http_tunnels.Prelude.Int.{ℤ, pos, negsuc, ◌-ℤ◌, floor_div, opposite}

-- `numer / denom`, not negative.
pub record Fraction : Type 0 where
  pub numer : ℕ
  pub denom : ℕ

abbrev pub whole : ℕ → Fraction
whole n = record { numer = n; denom = 1 }

-- A value of type `number`; `below x` is `-x`.
pub data Number : Type 0 where
  nan pos_infinity neg_infinity : Number
  finite : Fraction → Number
  below : Fraction → Number

abbrev pub divide : Fraction → ℕ → Fraction
divide x d = record x { denom = x.denom * d }

-- `x >= n` and `x < n`
abbrev pub at_least : Fraction → ℕ → Bool
at_least x n = leb (n * x.denom) x.numer

-- `Math.round` of a value that is not negative
abbrev pub round : Fraction → ℕ
round x = (2 * x.numer + x.denom) / (2 * x.denom)

-- The formatters of `Intl`, the parser of `Date` (`none` is an invalid date), `Date.now()`,
-- and `JSON.stringify(headers, null, 2)`.
pub record Platform : Type 0 where
  pub format_decimal : Fraction → String
  pub format_integer : ℕ → String
  pub format_date : ℤ → String
  pub format_relative : ℤ → String → String
  pub parse_date : String → Option ℤ
  pub now : ℤ
  pub stringify : List (String × List String) → String

abbrev pub unit_name : ℕ → String
unit_name zero = "B"
unit_name (suc zero) = "KB"
unit_name (suc (suc zero)) = "MB"
unit_name (suc (suc (suc zero))) = "GB"
unit_name other = "TB"

-- The loop of `formatBytes`, by recursion on the units that are left.
pub scale : ℕ → Fraction → ℕ → Fraction × ℕ
scale zero size unit_index = (size, unit_index)
scale (suc left) size unit_index =
    let more = scale left (divide size 1024) (suc unit_index) in
    if at_least size 1024 then more else (size, unit_index)

pub format_status_class : ℕ → String
format_status_class code =
    if leb 200 code && ltb code 300
    then "2XX"
    else if leb 300 code && ltb code 400
    then "3XX"
    else if leb 400 code && ltb code 500
    then "4XX"
    else if leb 500 code && ltb code 600
    then "5XX"
    else "Other"

module _ (p : Platform) where
  open p use {format_decimal, format_integer, format_date, format_relative, parse_date, now}

  print_size : Fraction × ℕ → String
  print_size (size, unit_index) = format_decimal size ^^ " " ^^ unit_name unit_index

  -- The number is finite and above zero, the guard of `formatBytes` and `formatDurationMs`.
  positive : Number → Option Fraction
  positive nan = none
  positive pos_infinity = none
  positive neg_infinity = none
  positive (finite x) = if leb x.numer 0 then none else some x
  positive (below x) = none

  unfoldable pub format_bytes : Number → String
  unfolding scale print_size positive
  format_bytes value = elim (positive value) [ none ↦ "0 B" | some x ↦ print_size (scale 4 x 0) ]

  unfoldable pub format_count : Option ℕ → String
  format_count value = format_integer (or_default value 0)

  unfoldable pub format_date_time : Option String → String
  format_date_time value =
      if not (nonempty (or_default value ""))
      then "—"
      else elim (parse_date (or_default value "")) [ none ↦ "—" | some t ↦ format_date t ]

  -- `formatDurationFrom` once the minutes are known.
  since_minutes : ℕ → String
  since_minutes minutes =
      if ltb minutes 1
      then "just now"
      else if ltb minutes 60
      then format_relative (opposite minutes) "minute"
      else let hours = minutes / 60 in
        if ltb hours 24
        then format_relative (opposite hours) "hour"
        else let days = hours / 24 in
          if ltb days 30
          then format_relative (opposite days) "day"
          else let months = days / 30 in
            if ltb months 12
            then format_relative (opposite months) "month"
            else format_relative (opposite (months / 12)) "year"

  elapsed : ℤ → String
  elapsed (pos minutes) = since_minutes minutes
  elapsed (negsuc _) = "just now"

  unfoldable pub format_duration_from : Option String → String
  unfolding elapsed since_minutes
  format_duration_from value =
      if not (nonempty (or_default value ""))
      then "—"
      else elim (parse_date (or_default value "")) [
        | none ↦ "—"
        | some t ↦ elapsed (floor_div (now -ℤ t) (1000 * 60))
      ]

  print_duration : Fraction → String
  print_duration x =
      if not (at_least x 1000)
      then show_nat (round x) ^^ " ms"
      else if not (at_least x 60_000)
      then format_decimal (divide x 1000) ^^ " s"
      else format_decimal (divide x 60_000) ^^ " min"

  unfoldable pub format_duration_ms : Number → String
  unfolding positive print_duration
  format_duration_ms value = elim (positive value) [ none ↦ "0 ms" | some x ↦ print_duration x ]
