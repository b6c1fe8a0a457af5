-- ===== src/Pages/Layout.antt =====
-- admin-layout.tsx of cmd/server/web/src/pages: the frame around the console's pages, and the gate
-- in front of them.
pub mod Laws
use http_tunnels.Prelude.{
  String, Bool, false, not, Option, none, some, List, [], ◌∷◌, if◌then◌else◌,
}
use http_tunnels.Dom.{Node, text, el, prop, kids, box, label, lift}
use http_tunnels.Hooks.{Query, Screen, redirect, shown}
use http_tunnels.Api.{AdminSession}
use http_tunnels.Components.Basic.{page_loading}
use http_tunnels.Components.Sidebar.{SidebarEvent, app_sidebar}
use http_tunnels.Pages.Login.{is_authenticated, is_configured}

module _ {A : Type 0} where
  -- `outlet` is the page of the route; `on_toggle` stands for the sidebar's own action.
  pub frame : (SidebarEvent → A) → String → Bool → Node A → Node A
  frame on_toggle pathname is_collapsed outlet = box "SidebarProvider" (
      lift on_toggle (app_sidebar pathname is_collapsed)
      ∷ box "SidebarInset" (
          box "div" (
            box "SidebarTrigger" []
            ∷ el "Separator" (prop "orientation" "vertical" ∷ []) (kids [])
            ∷ box "div" (
                label "span" "HTTP Tunnels Admin"
                ∷ label "span" "Observe active connections and request-response analytics."
                ∷ [])
            ∷ [])
          ∷ box "div" (outlet ∷ [])
          ∷ [])
      ∷ [])

  unfoldable pub admin_layout :
      (SidebarEvent → A) → String → Bool → Query AdminSession → Node A → Screen A
  unfolding frame
  admin_layout on_toggle pathname is_collapsed query outlet =
      if query.is_loading
      then shown page_loading
      else if not (is_configured query.result)
      then redirect "/admin/auth/login" none
      else if not (is_authenticated query.result)
      then redirect "/admin/auth/login" (some pathname)
      else shown (frame on_toggle pathname is_collapsed outlet)
