-- ===== src/Server/Auth/Console.antt =====
-- The console behind the server's sessions.
use Prim.Native.Nat.{◌^◌}
use http_tunnels.Prelude.{
  ℕ, ◌+◌, ◌≤◌, ◌<◌, String, Bool, true, some, ◌≡◌, refl, arith, ap, ◌∙◌, le→leb, str_eq,
}
use http_tunnels.Dom.{Node}
use http_tunnels.Hooks.{shown}
use http_tunnels.Api.{AdminSession}
use http_tunnels.Components.Sidebar.{SidebarEvent}
use http_tunnels.Pages.Login.{LoginState, login_page}
use http_tunnels.Pages.Layout.{admin_layout, frame}
use http_tunnels.Pages.Layout.Laws.{IsRedirect, IsRedirect-both_iff}
use http_tunnels.Pages.Tunnels.Laws.{arrived}
use http_tunnels.Server.Auth.{
  GoAuth, Config, session_value, is_admin_authenticated, AdminRequest, session_answer, session_api,
  validate_admin_configuration, admin_session_ttl,
}
use http_tunnels.Server.Auth.Laws.{is_admin_authenticated-session_value}

module _ (go : GoAuth) (config : Config) {A : Type 0} (on_toggle : SidebarEvent → A)
    (pathname : String) (is_collapsed : Bool) (outlet : Node A) where
  -- With a session that this server answers, the layout and the login page do not redirect to each
  -- other, whatever the cookie.
  pub session_api-IsRedirect :
      (now : ℕ) (r : AdminRequest) (session : AdminSession) (s : LoginState) (is_pending : Bool)
      → session_api go config now r ≡ session_answer session
      → ¬ (
          IsRedirect (admin_layout on_toggle pathname is_collapsed (arrived session) outlet)
          × IsRedirect (login_page s (arrived session) is_pending))
  unfolding session_api validate_admin_configuration
  session_api-IsRedirect now r session s is_pending answer loop =
      let (_, _, unset) =
        (IsRedirect-both_iff on_toggle pathname is_collapsed (arrived session) outlet s
            is_pending).0
          loop in
      absurd (ground (arith, answer, unset))

  -- A user who has logged in at a time sees the console until 24 hours later: with the cookie of that
  -- login the session that the server answers makes the layout render the page of the route.
  pub session_api-shown :
      (login now : ℕ) (r : AdminRequest)
      → login + admin_session_ttl < 2 ^ 63
      → now ≤ login + admin_session_ttl
      → str_eq r.method "GET" ≡ true
      → r.cookie ≡ some (session_value go config (login + admin_session_ttl))
      → (session : AdminSession) × (session_api go config now r ≡ session_answer session)
        × (admin_layout on_toggle pathname is_collapsed (arrived session) outlet
            ≡ shown (frame on_toggle pathname is_collapsed outlet))
  unfolding session_api validate_admin_configuration admin_layout
  session_api-shown login now r h k method cookie =
      let known : is_admin_authenticated go config now r.cookie ≡ true =
        ap (is_admin_authenticated go config now) cookie
        ∙ is_admin_authenticated-session_value go config now (login + admin_session_ttl) h
        ∙ le→leb now (login + admin_session_ttl) k in
      (
        record { authenticated = true; configured = true; message = some "" },
        rw (method, known) refl,
        refl,
      )
