-- ===== src/Format/Bytes.antt =====
-- The unit that `formatBytes` chooses.
use http_tunnels.Prelude.{
  ℕ, zero, suc, ◌+◌, ◌*◌, ◌≤◌, ◌<◌, ◌≡◌, refl, ap, ◌∙◌, Bool-cases, inl, inr, ◌⊎◌, arith, ◌^^◌,
  lt→leb,
}
use http_tunnels.Format.{
  Fraction, finite, divide, at_least, Platform, unit_name, scale, print_size, format_bytes,
}

-- 1024 to the power of the unit's index.
abbrev unit_bytes : ℕ → ℕ
unit_bytes zero = 1
unit_bytes (suc i) = 1024 * unit_bytes i

-- The size is printed in unit `i`: at least one of it unless it is bytes, and too small for the
-- next unit unless there is none.
pub record Fits (x : Fraction) (i : ℕ) : Type 0 where
  pub known : i ≤ 4
  pub reaches : (i ≡ 0) ⊎ (unit_bytes i * x.denom ≤ x.numer)
  pub below_next : (i ≡ 4) ⊎ (x.numer < unit_bytes (suc i) * x.denom)

abbrev pub scaled : Fraction → ℕ → Fraction
scaled x i = record x { denom = x.denom * unit_bytes i }

-- What the loop returns from `size` at index `i`, with `left` units to go: `steps` divisions.
record IsScaled (left i : ℕ) (size : Fraction) (r : Fraction × ℕ) : Type 0 where
  steps : ℕ
  within : steps ≤ left
  index : r.1 ≡ i + steps
  result : r.0 ≡ scaled size steps
  reached : (steps ≡ 0) ⊎ (unit_bytes steps * size.denom ≤ size.numer)
  stopped : (steps ≡ left) ⊎ (size.numer < 1024 * unit_bytes steps * size.denom)

fraction_eq :
    (n d e : ℕ)
    → d ≡ e
    → ◌≡◌ {A = Fraction} (record { numer = n; denom = d }) (record { numer = n; denom = e })
fraction_eq n d e h = ap (λ k. record { numer = n; denom = k }) h

-- One more division, for what the loop has reached and where it stops.
reached_units :
    {left i : ℕ} {size : Fraction} {r : Fraction × ℕ} (s : IsScaled left i size r)
    → (unit_bytes s.steps ≡ 1) ⊎ (unit_bytes s.steps * size.denom ≤ size.numer)
reached_units s = elim s.reached [ inl z ↦ inl (ap unit_bytes z) | inr h ↦ inr h ]

reached_more : (n d u : ℕ) → 1024 * d ≤ n → (u ≡ 1) ⊎ (u * (d * 1024) ≤ n) → 1024 * u * d ≤ n
reached_more n d u h (inl one) = rw one (omega arith)
reached_more n d u h (inr k) = omega arith

stopped_more :
    {left i : ℕ} (size : Fraction) {r : Fraction × ℕ} (s : IsScaled left i (divide size 1024) r)
    → (suc s.steps ≡ suc left) ⊎ (size.numer < 1024 * (1024 * unit_bytes s.steps) * size.denom)
stopped_more size s = elim s.stopped [ inl z ↦ inl (ap suc z) | inr h ↦ inr (omega arith) ]

scale-IsScaled : (left i : ℕ) (size : Fraction) → IsScaled left i size (scale left size i)
unfolding scale
scale-IsScaled zero i size = record {
  steps = 0;
  within = omega arith;
  index = omega arith;
  result = fraction_eq size.numer size.denom (size.denom * 1) (omega arith);
  reached = inl refl;
  stopped = inl refl;
}
scale-IsScaled (suc left) i size = elim (Bool-cases (at_least size 1024)) [
  | inl large ↦
      let r = scale-IsScaled left (suc i) (divide size 1024) in
      rw large (record {
        steps = suc r.steps;
        within = omega (arith, r.within);
        index = omega (arith, r.index);
        result =
            r.result
            ∙ fraction_eq size.numer (size.denom * 1024 * unit_bytes r.steps)
                (size.denom * (1024 * unit_bytes r.steps)) (omega arith);
        reached = inr (
            reached_more size.numer size.denom (unit_bytes r.steps) (ground arith)
              (reached_units r));
        stopped = stopped_more size r;
      })
  | inr small ↦ rw small (record {
    steps = 0;
    within = omega arith;
    index = omega arith;
    result = fraction_eq size.numer size.denom (size.denom * 1) (omega arith);
    reached = inl refl;
    stopped = inr (ground arith);
  })
]

module _ (p : Platform) (x : Fraction) where
  print_size_at :
      (r : Fraction × ℕ) (i : ℕ)
      → r.1 ≡ i
      → r.0 ≡ scaled x i
      → print_size p r ≡ p.format_decimal (scaled x i) ^^ " " ^^ unit_name i
  unfolding print_size
  print_size_at r i e f = rw (e, f)

  -- A finite size above zero is printed in the largest unit of "B", "KB", "MB", "GB" and "TB" that
  -- it reaches, as the exact quotient by that unit.
  pub format_bytes-Fits :
      0 < x.numer
      → (i : ℕ) × Fits x i
        × (format_bytes p (finite x) ≡ p.format_decimal (scaled x i) ^^ " " ^^ unit_name i)
  unfolding format_bytes
  format_bytes-Fits h =
      let s = scale-IsScaled 4 0 x in
      (
        s.steps,
        record { known = s.within; reaches = s.reached; below_next = s.stopped },
        rw (lt→leb x.numer 0 h, format_bytes)
            (print_size_at (scale 4 x 0) s.steps (s.index ∙ omega arith) s.result),
      )
