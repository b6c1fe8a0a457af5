-- ===== src/Pages/Tunnels.antt =====
-- tunnels-page.tsx of cmd/server/web/src/pages: the list of active tunnels, page by page.
pub mod Laws
pub mod Runs
use http_tunnels.Prelude.{ℕ, String, Bool, none, List, [], ◌∷◌}
use http_tunnels.Dom.{Node, box}
use http_tunnels.Hooks.{Query, Key, key_text, number, Effect, loaded}
use http_tunnels.Format.{Platform}
use http_tunnels.Api.{TunnelRecord, ListResponse}
use http_tunnels.Api.Calls.{Call}
use http_tunnels.Api.Calls
use http_tunnels.Components.Basic.{crumb_to, crumb_here, page_header, pagination_controls}
use http_tunnels.Components.Tables.{tunnel_table}
use http_tunnels.Pages.Deletion.{
  DeleteEvent, select, Selected, delete_step, deleting_id, delete_dialog,
}

abbrev pub page_size : ℕ
page_size = 10

pub record TunnelsState : Type 0 where
  pub page : ℕ
  pub selected : Selected

abbrev pub initial : TunnelsState
initial = record { page = 1; selected = none }

pub data TunnelsEvent : Type 0 where
  set_page : ℕ → TunnelsEvent
  delete : DeleteEvent → TunnelsEvent

pub tunnels_step : TunnelsState → TunnelsEvent → TunnelsState × List Effect
tunnels_step s (set_page n) = (record s { page = n }, [])
tunnels_step s (delete e) =
    let (selected, effects) = delete_step "Tunnel deleted." s.selected e in
    (record s { selected = selected }, effects)

unfoldable pub tunnels_key : TunnelsState → Key
tunnels_key s = key_text "tunnels" ∷ number s.page ∷ number page_size ∷ []

unfoldable pub tunnels_call : TunnelsState → Call
tunnels_call s = Calls.list_tunnels s.page page_size

module _ (p : Platform) where
  tunnels_content : TunnelsState → Bool → ListResponse TunnelRecord → Node TunnelsEvent
  tunnels_content s is_pending list = box "div" (
      page_header "Active Tunnels"
        "Currently connected tunnel domains with data transfer metrics, request counts, and admin actions."
        (crumb_to "Admin" "/admin" ∷ crumb_here "Active Tunnels" ∷ []) []
      ∷ box "div" (
          tunnel_table p "Connected tunnels"
            "Each row shows a currently connected tunnel domain, its request count, transferred bytes, and lifetime."
            list.items (λ tunnel. delete (select tunnel)) (deleting_id is_pending s.selected)
          ∷ pagination_controls list.page list.total_pages set_page
          ∷ [])
      ∷ delete_dialog delete s.selected is_pending
      ∷ [])

  pub tunnels_page : TunnelsState → Query (ListResponse TunnelRecord) → Bool → Node TunnelsEvent
  unfolding tunnels_content
  tunnels_page s query is_pending =
      loaded query "The tunnel list could not be loaded." (tunnels_content s is_pending)
