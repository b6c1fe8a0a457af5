-- ===== src/Prelude/Lists.antt =====
-- Lists measured by the native numbers, and predicates on them.
use Prim.Native.Nat.{ℕ, suc, ◌+◌}
use mathlib.Core.Path.{◌≡◌, ap, sym, ◌∙◌}
use mathlib.Core.Logic.{◌⊎◌, inl, inr}
use mathlib.Core.Bool.{Bool}
use mathlib.Core.List.{List, [], ◌∷◌, ◌++◌, append_assoc}
use native.Mathlib.Omega.{arith}
use http_tunnels.Prelude.Tests.{if◌then◌else◌}

module _ {ℓ} {A : Type ℓ} where
  abbrev pub length : List A → ℕ
  length [] = 0
  length (x ∷ xs) = suc (length xs)

  -- Two parts of a run, one after the other.
  pub append-glue :
      (w a more d m later left : List A)
      → w ++ a ≡ d ++ m
      → m ++ more ≡ later ++ left
      → w ++ (a ++ more) ≡ (d ++ later) ++ left
  append-glue w a more d m later left first second =
      sym (append_assoc w a more)
      ∙ ap (◌++ more) first
      ∙ append_assoc d m more
      ∙ ap (d ++◌) second
      ∙ sym (append_assoc d later left)

  pub length-append : (xs ys : List A) → length (xs ++ ys) ≡ length xs + length ys
  length-append [] ys = omega arith
  length-append (x ∷ xs) ys = omega (arith, length-append xs ys)

-- `x` is an element of the list.
abbrev pub In : {A : Type 0} → A → List A → Type 0
In x [] = ⊥
In x (y ∷ ys) = (y ≡ x) ⊎ In x ys

-- `filter` by a Boolean test.
abbrev pub select {ℓ} : {A : Type ℓ} → (A → Bool) → List A → List A
select p [] = []
select p (x ∷ xs) = if p x then x ∷ select p xs else select p xs

module _ {ℓ κ} {A : Type ℓ} {B : Type κ} where
  abbrev pub flat_map : (A → List B) → List A → List B
  flat_map f [] = []
  flat_map f (x ∷ xs) = f x ++ flat_map f xs

module _ {ℓ κ} {A : Type ℓ} where
  abbrev pub All : (A → Type κ) → List A → Type κ
  All P [] = Unit
  All P (x ∷ xs) = P x × All P xs

  pub All-append : (P : A → Type κ) (xs ys : List A) → All P xs → All P ys → All P (xs ++ ys)
  All-append P [] ys hx hy = hy
  All-append P (x ∷ xs) ys hx hy = (hx.0, All-append P xs ys hx.1 hy)

In-append_left : {A : Type 0} (x : A) (xs ys : List A) → In x xs → In x (xs ++ ys)
In-append_left x [] ys m = elim m [ ]
In-append_left x (y ∷ xs) ys (inl e) = inl e
In-append_left x (y ∷ xs) ys (inr m) = inr (In-append_left x xs ys m)

pub In-append_right : {A : Type 0} (x : A) (xs ys : List A) → In x ys → In x (xs ++ ys)
In-append_right x [] ys m = m
In-append_right x (y ∷ xs) ys m = inr (In-append_right x xs ys m)

pub In-append-cases : {A : Type 0} (x : A) (xs ys : List A) → In x (xs ++ ys) → In x xs ⊎ In x ys
In-append-cases x [] ys m = inr m
In-append-cases x (y ∷ xs) ys (inl e) = inl (inl e)
In-append-cases x (y ∷ xs) ys (inr m) = elim (In-append-cases x xs ys m) [
  | inl h ↦ inl (inr h)
  | inr h ↦ inr h
]
