-- ===== src/Pages/TunnelDetail/Laws.antt =====
-- The page of a tunnel: what can be clicked.
use http_tunnels.Prelude.{
  String, Bool, true, false, Option, some, List, [], ◌∷◌, ◌≡◌, refl, if◌then◌else◌, nonempty,
}
use mathlib.Core.List.{append-nil}
use http_tunnels.Dom.{Node, clicks}
use http_tunnels.Hooks.{shown}
use http_tunnels.Format.{Platform}
use http_tunnels.Api.{TunnelRecord, TunnelDetailResponse}
use http_tunnels.Components.Basic.{page_header, delete_tunnel_dialog, tunnel_state_badge}
use http_tunnels.Components.Logs.Laws.{clicks-request_log_list, clicks-recent_creation_list}
use http_tunnels.Components.Charts.Laws.{clicks-status_chart_card, clicks-traffic_chart_card}
use http_tunnels.Components.RangePicker.{
  apply, preset_last_7_days, preset_last_30_days, chart_range_picker,
}
use http_tunnels.Pages.Tunnels.Laws.{arrived}
use http_tunnels.Pages.TunnelDetail.{
  DetailState, DetailEvent, set_delete_open, confirmed, pick_range, detail_item, detail_content,
  tunnel_detail_page,
}

-- The confirmation, in the open dialog while no deletion is pending.
abbrev confirmations_of : String → Bool → Bool → List (List DetailEvent)
confirmations_of id false is_pending = []
confirmations_of id true is_pending = if is_pending then [] else (confirmed id ∷ []) ∷ []

module _ (p : Platform) where
  clicks-dialog :
      (t : Option TunnelRecord) (b : Bool) (f : Bool → List DetailEvent) (id : String)
      (is_pending : Bool)
      → clicks (delete_tunnel_dialog t b f (confirmed id ∷ []) is_pending)
        ≡ confirmations_of id b is_pending
  unfolding delete_tunnel_dialog
  clicks-dialog t false f id is_pending = refl
  clicks-dialog t true f id true = refl
  clicks-dialog t true f id false = refl

  -- For a route with an id, once its tunnel has arrived, the page takes these clicks: the button
  -- that opens the dialog, the three of the range picker, and, in the open dialog while no deletion
  -- is pending, the confirmation, which deletes the tunnel shown.
  pub clicks-tunnel_detail_page :
      (id : String) (s : DetailState) (d : TunnelDetailResponse) (is_pending : Bool)
      → nonempty id ≡ true
      → (n : Node DetailEvent) × (tunnel_detail_page p (some id) s (arrived d) is_pending ≡ shown n)
        × (clicks n
            ≡ (set_delete_open true ∷ [])
              ∷ (pick_range apply ∷ [])
              ∷ (pick_range preset_last_7_days ∷ [])
              ∷ (pick_range preset_last_30_days ∷ [])
              ∷ confirmations_of d.tunnel.id s.delete_open is_pending)
  unfolding tunnel_detail_page page_header chart_range_picker detail_item tunnel_state_badge
  clicks-tunnel_detail_page id s d is_pending h = (
    detail_content p s is_pending d,
    rw h,
    simp
        (
          clicks-status_chart_card DetailEvent,
          clicks-traffic_chart_card DetailEvent,
          clicks-recent_creation_list p DetailEvent,
          append-nil,
        )
        (rw (
          clicks-request_log_list p DetailEvent d.logs.items _ _ _ refl refl,
          clicks-dialog (some d.tunnel) s.delete_open _ d.tunnel.id is_pending,
        )),
  )
