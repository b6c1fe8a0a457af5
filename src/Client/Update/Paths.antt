-- ===== src/Client/Update/Paths.antt =====
-- The paths of the executable, of its replacement and of its backup differ.
use http_tunnels.Prelude.{
  ℕ, String, false, List, [], ◌∷◌, ◌++◌, ◌≡◌, ◌≢◌, inl, inr, ap, sym, ◌∙◌, str_eq, eq_iff, ◌^^◌,
  codes, codes-append, Bool-cases,
}
use mathlib.Core.List.{append-nil}

abbrev pub second_code : List ℕ → ℕ
second_code (a ∷ b ∷ cs) = b
second_code _ = 0

append-cancel : (xs ys zs : List ℕ) → xs ++ ys ≡ xs ++ zs → ys ≡ zs
append-cancel [] ys zs h = h
append-cancel (x ∷ xs) ys zs h = append-cancel xs ys zs cc

differ_of_codes : (s t : String) → codes s ≢ codes t → str_eq s t ≡ false
differ_of_codes s t h = elim (Bool-cases (str_eq s t)) [
  | inl e ↦ absurd (h (ap codes ((eq_iff s t).0 e)))
  | inr e ↦ e
]

pub longer : (s t : String) → codes t ≢ [] → str_eq s (s ^^ t) ≡ false
longer s t h = differ_of_codes s (s ^^ t) λ e. h (
    append-cancel (codes s) (codes t) []
      (sym (codes-append s t) ∙ sym e ∙ sym (append-nil (codes s))))

pub differ_of_suffix : (s t u : String) → codes t ≢ codes u → str_eq (s ^^ t) (s ^^ u) ≡ false
differ_of_suffix s t u h = differ_of_codes (s ^^ t) (s ^^ u) λ e.
    h (append-cancel (codes s) (codes t) (codes u) (sym (codes-append s t) ∙ e ∙ codes-append s u))
