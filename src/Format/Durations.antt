-- ===== src/Format/Durations.antt =====
-- The unit that `formatDurationFrom` chooses.
use http_tunnels.Prelude.{
  ℕ, ◌+◌, ◌*◌, ◌/◌, ◌≤◌, ◌<◌, String, true, some, ◌≡◌, Bool-cases, inl, inr, ◌⊎◌, arith, ltb,
  nonempty,
}
use http_tunnels.Prelude.Int.{ℤ, pos, ◌-ℤ◌, opposite}
use http_tunnels.Format.{Platform, since_minutes, format_duration_from}

pub data TimeUnit : Type 0 where
  minute hour day month year : TimeUnit

abbrev unit_text : TimeUnit → String
unit_text minute = "minute"
unit_text hour = "hour"
unit_text day = "day"
unit_text month = "month"
unit_text year = "year"

-- A month counts as 30 days and a year as twelve months.
abbrev minutes_in : TimeUnit → ℕ
minutes_in minute = 1
minutes_in hour = 60
minutes_in day = 1440
minutes_in month = 43_200
minutes_in year = 518_400

-- The largest count of a unit that is printed in it.
abbrev InRange : TimeUnit → ℕ → Type 0
InRange minute n = n < 60
InRange hour n = n < 24
InRange day n = n < 30
InRange month n = n < 12
InRange year n = Unit

-- `n` whole units have passed, and not `n + 1`.
pub record Passed (ms n : ℕ) (u : TimeUnit) : Type 0 where
  pub some_time : 1 ≤ n
  pub in_range : InRange u n
  pub from : n * (minutes_in u * 60_000) ≤ ms
  pub until : ms < (n + 1) * (minutes_in u * 60_000)

module _ (p : Platform) where
  -- What is printed when `ms` milliseconds have passed.
  abbrev pub IsPhrase : ℕ → String → Type 0
  IsPhrase ms s =
      ((ms < 60_000) × (s ≡ "just now"))
      ⊎ ((u : TimeUnit) × (n : ℕ) × Passed ms n u
          × (s ≡ p.format_relative (opposite n) (unit_text u)))

  since_minutes-IsPhrase : (ms : ℕ) → IsPhrase ms (since_minutes p (ms / 60_000))
  unfolding since_minutes
  since_minutes-IsPhrase ms = elim (Bool-cases (ltb (ms / 60_000) 1)) [
    | inl now ↦ inl (ground arith, rw now)
    | inr later ↦ inr (elim (Bool-cases (ltb (ms / 60_000) 60)) [
      | inl few ↦ (minute, ms / 60_000, ground arith, rw (later, few))
      | inr hours ↦ elim (Bool-cases (ltb (ms / 60_000 / 60) 24)) [
        | inl few ↦ (hour, ms / 60_000 / 60, ground arith, rw (later, hours, few))
        | inr days ↦ elim (Bool-cases (ltb (ms / 60_000 / 60 / 24) 30)) [
          | inl few ↦ (day, ms / 60_000 / 60 / 24, ground arith, rw (later, hours, days, few))
          | inr months ↦ elim (Bool-cases (ltb (ms / 60_000 / 60 / 24 / 30) 12)) [
            | inl few ↦ (
              month,
              ms / 60_000 / 60 / 24 / 30,
              ground arith,
              rw (later, hours, days, months, few),
            )
            | inr years ↦ (
              year,
              ms / 60_000 / 60 / 24 / 30 / 12,
              ground arith,
              rw (later, hours, days, months, years),
            )
          ]
        ]
      ]
    ])
  ]

  -- For a date `ms` milliseconds ago the text is "just now" below a minute, and else the largest
  -- of minutes, hours, days, months of 30 days and years of 360 days of which a whole one has
  -- passed, with the number of whole ones, negated.
  pub format_duration_from-IsPhrase :
      (value : String) (t : ℤ) (ms : ℕ)
      → nonempty value ≡ true
      → p.parse_date value ≡ some t
      → p.now -ℤ t ≡ pos ms
      → IsPhrase ms (format_duration_from p (some value))
  unfolding format_duration_from
  format_duration_from-IsPhrase value t ms given parsed ago =
      rw (given, parsed, ago) (since_minutes-IsPhrase ms)
