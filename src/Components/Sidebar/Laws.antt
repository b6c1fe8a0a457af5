-- ===== src/Components/Sidebar/Laws.antt =====
-- Which entry of the navigation is highlighted.
use http_tunnels.Prelude.{
  ℕ, zero, suc, ◌++◌, ap, ◌∙◌, codes, codes-append, String, true, false, List, [], ◌∷◌, ◌≡◌, sym,
  arith, select, eq_iff, str_eq, starts_with, Bool-cases, inl, inr, ◌^^◌,
}
use text.Mathlib.TextLemmas.{append_assoc}
use text.Mathlib.TextEquality.{starts_with_iff}
use http_tunnels.Components.Sidebar.{MenuItem, menu_items, is_active, item}
use http_tunnels.Components.Tables.{tunnel_path, request_path}

-- At most one element.
abbrev IsSingle : {A : Type 0} → List A → Type 0
IsSingle [] = Unit
IsSingle (x ∷ []) = Unit
IsSingle (x ∷ y ∷ xs) = ⊥

abbrev nth : ℕ → List ℕ → ℕ
nth i [] = 0
nth zero (c ∷ cs) = c
nth (suc i) (c ∷ cs) = nth i cs

-- A path that starts with a text has its characters.
prefix_codes :
    (p t : String) → starts_with p t ≡ true → (u : String) × (codes p ≡ codes t ++ codes u)
prefix_codes p t h =
    let (u, e) = (starts_with_iff p t).0 h in (u, ap codes (sym e) ∙ codes-append t u)

tunnels_not_requests :
    (p : String)
    → starts_with p "/admin/tunnels" ≡ true
    → starts_with p "/admin/request-activity" ≡ true
    → ⊥
tunnels_not_requests p a b =
    let (u, e) = prefix_codes p "/admin/tunnels" a in
    let (v, f) = prefix_codes p "/admin/request-activity" b in omega (arith, ap (nth 7) (sym e ∙ f))

-- At every path at most one entry of the navigation is highlighted.
is_active-IsSingle : (pathname : String) → IsSingle (select (is_active pathname) menu_items)
is_active-IsSingle pathname = elim (Bool-cases (str_eq pathname "/admin")) [
  | inl root ↦ rw ((eq_iff pathname "/admin").0 root) tt
  | inr other ↦ elim (Bool-cases (starts_with pathname "/admin/tunnels")) [
    | inr no_tunnels ↦ elim (Bool-cases (starts_with pathname "/admin/request-activity")) [
      | inl requests ↦ rw (other, no_tunnels, requests) tt
      | inr no_requests ↦ rw (other, no_tunnels, no_requests) tt
    ]
    | inl tunnels ↦ elim (Bool-cases (starts_with pathname "/admin/request-activity")) [
      | inl requests ↦ absurd (tunnels_not_requests pathname tunnels requests)
      | inr no_requests ↦ rw (other, tunnels, no_requests) tt
    ]
  ]
]

module _ (t id : String) where
  starts_with-append : starts_with ((t ^^ "/") ^^ id) t ≡ true
  starts_with-append =
      (starts_with_iff ((t ^^ "/") ^^ id) t).1 ("/" ^^ id, sym (append_assoc t "/" id))

longer_than_root : (p : String) → nth 6 (codes p) ≡ b'/' → str_eq p "/admin" ≡ false
longer_than_root p h = elim (Bool-cases (str_eq p "/admin")) [
  | inl root ↦ absurd (omega (arith, ap (λ q. nth 6 (codes q)) ((eq_iff p "/admin").0 root)))
  | inr other ↦ other
]

abbrev tunnels_entry : MenuItem
tunnels_entry = item "Active Subdomain" "/admin/tunnels" "ActivityIcon"

abbrev requests_entry : MenuItem
requests_entry = item "Request Activity" "/admin/request-activity" "FileClockIcon"

-- On the page of a tunnel the list of tunnels is highlighted, on the page of a request the list of
-- requests, and nothing else.
select-is_active :
    (id : String)
    → (select (is_active (tunnel_path id)) menu_items ≡ tunnels_entry ∷ [])
      × (select (is_active (request_path id)) menu_items ≡ requests_entry ∷ [])
select-is_active id = (tunnels, requests)
  where
    tunnel_starts : starts_with (tunnel_path id) "/admin/tunnels" ≡ true
    tunnel_starts = starts_with-append "/admin/tunnels" id

    request_starts : starts_with (request_path id) "/admin/request-activity" ≡ true
    request_starts = starts_with-append "/admin/request-activity" id

    tunnel_not_request : starts_with (tunnel_path id) "/admin/request-activity" ≡ false
    tunnel_not_request =
        elim (Bool-cases (starts_with (tunnel_path id) "/admin/request-activity")) [
          | inl h ↦ absurd (tunnels_not_requests (tunnel_path id) tunnel_starts h)
          | inr h ↦ h
        ]

    request_not_tunnel : starts_with (request_path id) "/admin/tunnels" ≡ false
    request_not_tunnel = elim (Bool-cases (starts_with (request_path id) "/admin/tunnels")) [
      | inl h ↦ absurd (tunnels_not_requests (request_path id) h request_starts)
      | inr h ↦ h
    ]

    tunnel_longer : str_eq (tunnel_path id) "/admin" ≡ false
    tunnel_longer = longer_than_root (tunnel_path id) (rw codes-append)

    request_longer : str_eq (request_path id) "/admin" ≡ false
    request_longer = longer_than_root (request_path id) (rw codes-append)

    tunnels : select (is_active (tunnel_path id)) menu_items ≡ tunnels_entry ∷ []
    tunnels = rw (tunnel_longer, tunnel_starts, tunnel_not_request)

    requests : select (is_active (request_path id)) menu_items ≡ requests_entry ∷ []
    requests = rw (request_longer, request_not_tunnel, request_starts)
