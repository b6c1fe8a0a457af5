-- ===== src/Tests/Pages.antt =====
-- The pages, the deletion, and the gate in front of the console.
use http_tunnels.Prelude.{
  String, true, false, Option, none, some, List, [], ◌∷◌, ◌≡◌, ◌↔◌, ◌⊎◌, refl, In,
}
use http_tunnels.Dom.{Node, text}
use http_tunnels.Hooks.{mutate_delete, redirect, shown}
use http_tunnels.Components.Sidebar.{SidebarEvent}
use http_tunnels.Pages.Deletion.{
  DeleteEvent, select, confirmed, delete_run, deleting_id, click_action, DialogPrimitive,
}
use http_tunnels.Pages.Deletion.Laws.{click_action-unmarked}
use http_tunnels.Pages.Deletion.Traces.{IsConfirmed, delete_run-IsConfirmed}
use http_tunnels.Pages.Login.{is_authenticated, is_configured}
use http_tunnels.Pages.Layout.{admin_layout, frame}
use http_tunnels.Pages.Layout.Laws.{admin_layout-gate}
use http_tunnels.Tests.Data.{one, two, session_query, stranger}

abbrev deletion : List DeleteEvent
deletion = select two ∷ confirmed ∷ []

delete_run-IsConfirmed_example :
    In (mutate_delete "t2") (delete_run "Tunnel deleted." none deletion).1
    ↔ IsConfirmed none deletion "t2"
delete_run-IsConfirmed_example = delete_run-IsConfirmed "Tunnel deleted." deletion none "t2"

-- The dialog of components/ui closes behind a click on its action.
abbrev closing : DialogPrimitive
closing = record { after_action = false ∷ [] }

click_action-unmarked_example :
    ((delete_run "Tunnel deleted." (some one) (click_action closing)).1 ≡ mutate_delete "t1" ∷ [])
    × (deleting_id true (delete_run "Tunnel deleted." (some one) (click_action closing)).0 ≡ none)
click_action-unmarked_example = click_action-unmarked "Tunnel deleted." closing one refl

abbrev outlet : Node SidebarEvent
outlet = text "the page"

admin_layout-gate_example :
    ((is_configured (some stranger) ≡ true)
      × (is_authenticated (some stranger) ≡ true)
      × (admin_layout (λ e. e) "/admin/tunnels" false (session_query stranger) outlet
          ≡ shown (frame (λ e. e) "/admin/tunnels" false outlet)))
    ⊎ (((is_configured (some stranger) ≡ false) ⊎ (is_authenticated (some stranger) ≡ false))
        × (from : Option String) × (admin_layout
              (λ e. e)
              "/admin/tunnels"
              false
              (session_query stranger)
              outlet
            ≡ redirect "/admin/auth/login" from))
admin_layout-gate_example =
    admin_layout-gate (λ e. e) "/admin/tunnels" false (session_query stranger) outlet refl
