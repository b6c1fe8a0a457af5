-- ===== src/Mobile/Laws.antt =====
-- The hook follows the window.
use http_tunnels.Prelude.{
  ℕ, Bool, true, false, some, List, [], ◌∷◌, ◌≡◌, refl, arith, ltb, ap, ◌∙◌, sym, Bool-cases, inl,
  inr,
}
use http_tunnels.Mobile.{
  Mobile, unmounted, mount, mobile_step, use_is_mobile, matches, differs, resize, resize_all,
  last_width, mobile_breakpoint,
}

-- The hook listens, and holds whether the width is below the breakpoint.
abbrev at_width : ℕ → Mobile
at_width width = record { is_mobile = some (ltb width mobile_breakpoint); listening = true }

-- The query matches exactly below the breakpoint.
matches-ltb : (width : ℕ) → matches width ≡ ltb width mobile_breakpoint
matches-ltb width = ground arith

differs-false : (a b : Bool) → differs a b ≡ false → a ≡ b
differs-false true true h = refl
differs-false true false h = cc
differs-false false true h = cc
differs-false false false h = refl

resize-at_width : (from to : ℕ) → resize from to (at_width from) ≡ at_width to
unfolding resize mobile_step
resize-at_width from to = elim (Bool-cases (differs (matches from) (matches to))) [
  | inl h ↦ rw h refl
  | inr h ↦ rw h (
      ap (λ b. record { is_mobile = some b; listening = true })
        (sym (matches-ltb from) ∙ differs-false _ _ h ∙ matches-ltb to))
]

resize_all-at_width :
    (widths : List ℕ) (from : ℕ)
    → resize_all from widths (at_width from) ≡ at_width (last_width from widths)
unfolding resize_all
resize_all-at_width [] from = refl
resize_all-at_width (to ∷ widths) from =
    rw (resize-at_width from to) (resize_all-at_width widths to)

-- Once mounted, the hook returns, behind any changes of the window's width, whether the last width
-- is below 768: the changes that the media query does not report leave that as it was.
use_is_mobile-ltb :
    (width : ℕ) (widths : List ℕ)
    → use_is_mobile (resize_all width widths (mobile_step width unmounted mount))
      ≡ ltb (last_width width widths) 768
unfolding mobile_step
use_is_mobile-ltb width widths = ap use_is_mobile (resize_all-at_width widths width)
