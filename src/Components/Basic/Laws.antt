-- ===== src/Components/Basic/Laws.antt =====
-- Turning pages, and the breadcrumbs.
use http_tunnels.Prelude.{
  ℕ, zero, suc, ◌+◌, ◌≤◌, ◌<◌, max, String, List, [], ◌∷◌, ◌≡◌, ◌↔◌, inl, inr, refl, ap, arith, In,
  or_default,
}
use mathlib.Core.List.{append-nil}
use http_tunnels.Dom.{clicks, targets, targets_of, kids}
use http_tunnels.Components.Basic.{
  pagination_controls, BreadcrumbEntry, crumbs, crumb_nodes, page_header,
}

-- A click on the controls at `page` asks for the page `next` alone.
abbrev pub Turns : ℕ → ℕ → ℕ → Type 0
Turns total page next = In (next ∷ []) (clicks (pagination_controls page total (λ n. n)))

-- The pages that clicks lead to from the first one, where each page asked for is shown.
pub data Reached (total : ℕ) : ℕ → Type 0 where
  start : Reached total 1
  turn : {page next : ℕ} → Reached total page → Turns total page next → Reached total next

Turns-bounds :
    (total page next : ℕ)
    → 1 ≤ page
    → page ≤ max total 1
    → Turns total page next
    → (1 ≤ next) × (next ≤ max total 1)
unfolding pagination_controls
Turns-bounds total page next low high t = ground arith

Reached-bounds : {total n : ℕ} → Reached total n → (1 ≤ n) × (n ≤ max total 1)
Reached-bounds start = omega arith
Reached-bounds {total} {n} (turn {page} r t) =
    let (low, high) = Reached-bounds r in Turns-bounds total page n low high t

Turns-suc : (total page : ℕ) → 1 ≤ page → page < total → Turns total page (page + 1)
unfolding pagination_controls
Turns-suc total page low high = inr (inl (ground arith))

Reached-complete : (total n : ℕ) → suc n ≤ max total 1 → Reached total (suc n)
Reached-complete total zero h = start
Reached-complete total (suc n) h =
    let e : suc n + 1 ≡ suc (suc n) = omega arith in
    rw (← e) (
      turn (Reached-complete total n (omega arith))
        (Turns-suc total (suc n) (omega arith) (omega arith)))

-- Clicks on the page controls lead from the first page to exactly the pages from 1 to the number
-- of pages, or to 1 alone if there is none.
pub Reached-iff : (total n : ℕ) → Reached total n ↔ ((1 ≤ n) × (n ≤ max total 1))
Reached-iff total zero = ((λ r. Reached-bounds r), λ h. absurd (omega arith))
Reached-iff total (suc n) = ((λ r. Reached-bounds r), λ h. Reached-complete total n h.1)

-- The places that breadcrumbs lead to: those of all but the last, "#" where one has none.
abbrev crumb_targets : List BreadcrumbEntry → List String
crumb_targets [] = []
crumb_targets (crumb ∷ []) = []
crumb_targets (crumb ∷ next ∷ rest) = or_default crumb.href "#" ∷ crumb_targets (next ∷ rest)

targets_of-crumbs :
    (A : Type 0) (entries : List BreadcrumbEntry)
    → targets_of {A = A} (kids (crumbs entries)) ≡ crumb_targets entries
unfolding crumbs crumb_nodes
targets_of-crumbs A [] = refl
targets_of-crumbs A (crumb ∷ []) = refl
targets_of-crumbs A (crumb ∷ next ∷ rest) =
    ap (or_default crumb.href "#" ∷◌) (targets_of-crumbs A (next ∷ rest))

-- A page header without actions leads where its breadcrumbs lead: to the place of each but the
-- last, in order.
targets-page_header :
    (A : Type 0) (title description : String) (entries : List BreadcrumbEntry)
    → targets {A = A} (page_header title description entries []) ≡ crumb_targets entries
unfolding page_header
targets-page_header A title description entries = simp append-nil (targets_of-crumbs A entries)
