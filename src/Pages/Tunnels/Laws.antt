-- ===== src/Pages/Tunnels/Laws.antt =====
-- The page of tunnels as a whole: what can be clicked.
use http_tunnels.Prelude.{Bool, false, none, some, ◌++◌, ◌≡◌}
use mathlib.Core.List.{append-nil}
use http_tunnels.Dom.{clicks}
use http_tunnels.Hooks.{Query}
use http_tunnels.Format.{Platform}
use http_tunnels.Api.{TunnelRecord, ListResponse}
use http_tunnels.Components.Basic.{page_header, pagination_controls}
use http_tunnels.Components.Tables.Laws.{deletable, clicks-tunnel_table}
use http_tunnels.Pages.Deletion.{select, deleting_id}
use http_tunnels.Pages.Deletion.Laws.{confirmations, clicks-delete_dialog}
use http_tunnels.Pages.Tunnels.{TunnelsState, set_page, delete, tunnels_page}

-- The list has arrived.
abbrev pub arrived : {A : Type 0} → A → Query A
arrived d = record { is_loading = false; is_error = false; error_message = none; result = some d }

module _ (p : Platform) where
  -- The clicks that the page takes once the list has arrived are, in order: one for each tunnel
  -- listed that is not marked as being deleted, which selects that tunnel; those of the page
  -- controls; and the confirmation, if a tunnel is selected and no deletion is pending.
  pub clicks-tunnels_page :
      (s : TunnelsState) (list : ListResponse TunnelRecord) (is_pending : Bool)
      → clicks (tunnels_page p s (arrived list) is_pending)
        ≡ deletable p (λ t. delete (select t)) (deleting_id is_pending s.selected) list.items
          ++ clicks (pagination_controls list.page list.total_pages set_page)
          ++ confirmations delete s.selected is_pending
  unfolding tunnels_page page_header
  clicks-tunnels_page s list is_pending = simp append-nil (
      rw (
        clicks-delete_dialog delete s.selected is_pending,
        clicks-tunnel_table p (λ t. delete (select t)) (deleting_id is_pending s.selected),
      ))
