-- ===== src/Format/Classes.antt =====
-- Status classes.
use http_tunnels.Prelude.{
  ℕ, ◌/◌, String, ◌≡◌, ◌&&◌, arith, leb, if◌then◌else◌, show_nat, ◌^^◌, refl,
}
use http_tunnels.Format.{format_status_class}

-- The first digit of a code from 200 to 599, with "XX" behind it.
abbrev class_name : ℕ → String
class_name code =
    if leb 2 (code / 100) && leb (code / 100) 5 then show_nat (code / 100) ^^ "XX" else "Other"

two : show_nat 2 ^^ "XX" ≡ "2XX"
unfolding show_nat
two = refl

three : show_nat 3 ^^ "XX" ≡ "3XX"
unfolding show_nat
three = refl

four : show_nat 4 ^^ "XX" ≡ "4XX"
unfolding show_nat
four = refl

five : show_nat 5 ^^ "XX" ≡ "5XX"
unfolding show_nat
five = refl

-- `formatStatusClass` names every code by its hundreds digit if that is 2, 3, 4 or 5, and all
-- others, 1xx and 0 among them, "Other".
format_status_class-digit : (code : ℕ) → format_status_class code ≡ class_name code
unfolding format_status_class
format_status_class-digit code = ground (arith, two, three, four, five)
