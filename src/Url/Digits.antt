-- ===== src/Url/Digits.antt =====
-- A decimal print passes through `trim`, UTF-8 and the serializer unchanged.
use http_tunnels.Prelude.{
  ℕ, zero, suc, ◌≤◌, ◌%◌, ◌/◌, List, [], ◌∷◌, ◌++◌, ◌≡◌, refl, Bool-cases, inl, inr, arith, All,
  All-append, codes, codes-append, digit, show_fuel, show_nat, ltb,
}
use mathlib.Core.List.{reverse, reverse-cons, reverse-reverse}
use http_tunnels.Url.{is_space, trim_start, trim, utf8}

abbrev pub IsDigit : ℕ → Type 0
IsDigit c = (b'0' ≤ c) × (c ≤ b'9')

digit-IsDigit : (n : ℕ) → All IsDigit (codes (digit n))
digit-IsDigit zero = omega arith
digit-IsDigit (suc zero) = omega arith
digit-IsDigit (suc (suc zero)) = omega arith
digit-IsDigit (suc (suc (suc zero))) = omega arith
digit-IsDigit (suc (suc (suc (suc zero)))) = omega arith
digit-IsDigit (suc (suc (suc (suc (suc zero))))) = omega arith
digit-IsDigit (suc (suc (suc (suc (suc (suc zero)))))) = omega arith
digit-IsDigit (suc (suc (suc (suc (suc (suc (suc zero))))))) = omega arith
digit-IsDigit (suc (suc (suc (suc (suc (suc (suc (suc zero)))))))) = omega arith
digit-IsDigit (suc (suc (suc (suc (suc (suc (suc (suc (suc n))))))))) = omega arith

show_fuel-IsDigit : (f n : ℕ) → All IsDigit (codes (show_fuel f n))
unfolding show_fuel
show_fuel-IsDigit zero n = tt
show_fuel-IsDigit (suc f) n = elim (Bool-cases (ltb n 10)) [
  | inl small ↦ rw small (digit-IsDigit n)
  | inr large ↦
      rw (large, codes-append)
        (All-append IsDigit (codes (show_fuel f (n / 10))) (codes (digit (n % 10)))
          (show_fuel-IsDigit f (n / 10)) (digit-IsDigit (n % 10)))
]

pub show_nat-IsDigit : (n : ℕ) → All IsDigit (codes (show_nat n))
unfolding show_nat
show_nat-IsDigit n = show_fuel-IsDigit (suc n) n

abbrev pub IsCons : List ℕ → Type 0
IsCons [] = ⊥
IsCons (c ∷ cs) = Unit

digit-IsCons : (n : ℕ) → IsCons (codes (digit n))
digit-IsCons zero = tt
digit-IsCons (suc zero) = tt
digit-IsCons (suc (suc zero)) = tt
digit-IsCons (suc (suc (suc zero))) = tt
digit-IsCons (suc (suc (suc (suc zero)))) = tt
digit-IsCons (suc (suc (suc (suc (suc zero))))) = tt
digit-IsCons (suc (suc (suc (suc (suc (suc zero)))))) = tt
digit-IsCons (suc (suc (suc (suc (suc (suc (suc zero))))))) = tt
digit-IsCons (suc (suc (suc (suc (suc (suc (suc (suc zero)))))))) = tt
digit-IsCons (suc (suc (suc (suc (suc (suc (suc (suc (suc n))))))))) = tt

IsCons-append : (xs ys : List ℕ) → IsCons ys → IsCons (xs ++ ys)
IsCons-append [] ys h = h
IsCons-append (x ∷ xs) ys h = tt

pub show_nat-IsCons : (n : ℕ) → IsCons (codes (show_nat n))
unfolding show_nat
show_nat-IsCons n = elim (Bool-cases (ltb n 10)) [
  | inl small ↦ rw small (digit-IsCons n)
  | inr large ↦
      rw (large, codes-append)
        (IsCons-append (codes (show_fuel n (n / 10))) (codes (digit (n % 10)))
          (digit-IsCons (n % 10)))
]

trim_start_of_digits : (cs : List ℕ) → All IsDigit cs → trim_start cs ≡ cs
unfolding trim_start is_space
trim_start_of_digits [] h = refl
trim_start_of_digits (c ∷ cs) h = ground arith

All-reverse : (cs : List ℕ) → All IsDigit cs → All IsDigit (reverse cs)
All-reverse [] h = tt
All-reverse (c ∷ cs) h =
    rw (reverse-cons c cs) (All-append IsDigit (reverse cs) (c ∷ []) (All-reverse cs h.1) (h.0, tt))

pub trim_of_digits : (cs : List ℕ) → All IsDigit cs → trim cs ≡ cs
unfolding trim
trim_of_digits cs h =
    rw (trim_start_of_digits cs h, trim_start_of_digits (reverse cs) (All-reverse cs h))
      (reverse-reverse cs)

pub utf8_of_digits : (cs : List ℕ) → All IsDigit cs → utf8 cs ≡ cs
unfolding utf8
utf8_of_digits [] h = refl
utf8_of_digits (c ∷ cs) h = ground (arith, utf8_of_digits cs h.1)
