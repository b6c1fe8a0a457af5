-- ===== src/Pages/Layout/Laws.antt =====
-- The gate in front of the console, and the login page behind it.
use http_tunnels.Prelude.{
  String, Bool, true, false, Option, none, some, ◌≡◌, ◌↔◌, ap, arith, ◌⊎◌, inl, inr, nonempty,
  or_text_of_nonempty, Bool-cases, In,
}
use http_tunnels.Dom.{Node}
use http_tunnels.Hooks.{Query, navigate, Screen, redirect, shown}
use http_tunnels.Api.{AdminSession}
use http_tunnels.Components.Sidebar.{SidebarEvent}
use http_tunnels.Pages.Login.{
  LoginState, session_fetched, login_step, redirect_to, is_authenticated, is_configured, login_page,
}
use http_tunnels.Pages.Layout.{admin_layout, frame}

abbrev pub IsRedirect : {A : Type 0} → Screen A → Type 0
IsRedirect (redirect to from) = Unit
IsRedirect (shown n) = ⊥

module _ {A : Type 0} (on_toggle : SidebarEvent → A) (pathname : String) (is_collapsed : Bool)
    (q : Query AdminSession) (outlet : Node A) where
  -- Once the session has loaded, the layout renders the page of the route, in its frame, exactly for a
  -- configured server and an authenticated user; else it redirects to the login page.
  pub admin_layout-gate :
      q.is_loading ≡ false
      → ((is_configured q.result ≡ true)
          × (is_authenticated q.result ≡ true)
          × (admin_layout on_toggle pathname is_collapsed q outlet
              ≡ shown (frame on_toggle pathname is_collapsed outlet)))
        ⊎ (((is_configured q.result ≡ false) ⊎ (is_authenticated q.result ≡ false))
            × (from : Option String) × (admin_layout on_toggle pathname is_collapsed q outlet
                ≡ redirect "/admin/auth/login" from))
  unfolding admin_layout
  admin_layout-gate h = elim (Bool-cases (is_configured q.result)) [
    | inr unset ↦ inr (inl unset, none, rw (h, unset))
    | inl set ↦ elim (Bool-cases (is_authenticated q.result)) [
      | inl known ↦ inl (set, known, rw (h, set, known))
      | inr stranger ↦ inr (inr stranger, some pathname, rw (h, set, stranger))
    ]
  ]

  pub IsRedirect-both_iff :
      (s : LoginState) (is_pending : Bool)
      → (IsRedirect (admin_layout on_toggle pathname is_collapsed q outlet)
          × IsRedirect (login_page s q is_pending))
        ↔ ((q.is_loading ≡ false)
            × (is_authenticated q.result ≡ true)
            × (is_configured q.result ≡ false))
  unfolding admin_layout login_page
  IsRedirect-both_iff s is_pending = (
    λ (a, b). (ground arith, ground arith, ground arith),
    λ (l, k, c). (rw (l, c) tt, rw (l, k) tt),
  )

-- A user without a session who opens a page of the console, of a configured server and at a path
-- that is not empty, comes back to that page: once the session has loaded, the redirect to the
-- login carries the path, and the login goes on there.
login-returns :
    {A : Type 0} (on_toggle : SidebarEvent → A) (pathname : String) (is_collapsed : Bool)
    (q : Query AdminSession) (outlet : Node A) (s : LoginState)
    → q.is_loading ≡ false
    → is_configured q.result ≡ true
    → is_authenticated q.result ≡ false
    → nonempty pathname ≡ true
    → (from : Option String) × (admin_layout on_toggle pathname is_collapsed q outlet
        ≡ redirect "/admin/auth/login" from)
      × In (navigate pathname) (login_step from s session_fetched).1
unfolding admin_layout login_step redirect_to
login-returns on_toggle pathname is_collapsed q outlet s loaded set stranger path = (
  some pathname,
  rw (loaded, set, stranger),
  inr (inl (ap navigate (or_text_of_nonempty pathname "/admin" path))),
)
