-- ===== src/Pages/Dashboard/Laws.antt =====
-- The dashboard as a whole: what can be clicked.
use http_tunnels.Prelude.{Bool, List, [], ◌∷◌, ◌++◌, ◌≡◌, refl, map}
use mathlib.Core.List.{append-nil}
use http_tunnels.Dom.{clicks, clicks_of, kids, clicks_of-map_nil}
use http_tunnels.Format.{Platform}
use http_tunnels.Api.{DashboardResponse}
use http_tunnels.Components.Basic.{page_header, metric_card}
use http_tunnels.Components.Tables.Laws.{deletable, clicks-tunnel_table}
use http_tunnels.Components.Tables.Requests.{clicks-recent_request_table}
use http_tunnels.Components.Logs.Laws.{clicks-recent_creation_list}
use http_tunnels.Components.Charts.Laws.{clicks-status_chart_card, clicks-traffic_chart_card}
use http_tunnels.Components.RangePicker.{
  apply, preset_last_7_days, preset_last_30_days, chart_range_picker,
}
use http_tunnels.Pages.Deletion.{select, deleting_id}
use http_tunnels.Pages.Deletion.Laws.{confirmations, clicks-delete_dialog}
use http_tunnels.Pages.Tunnels.Laws.{arrived}
use http_tunnels.Pages.Dashboard.{
  DashboardState, DashboardEvent, delete, pick_range, Metric, metrics, dashboard_page,
}

metrics_inert :
    (ms : List Metric)
    → clicks_of {A = DashboardEvent}
        (kids (map (λ m. metric_card m.title m.value m.description m.icon) ms))
      ≡ []
unfolding metric_card
metrics_inert ms =
    clicks_of-map_nil (λ m. metric_card m.title m.value m.description m.icon) ms (λ m. refl)

module _ (p : Platform) where
  -- The clicks that the dashboard takes once its data has arrived are, in order: the three of the
  -- range picker; one for each active tunnel that is not marked as being deleted, which selects that
  -- tunnel; and the confirmation, if a tunnel is selected and no deletion is pending.
  pub clicks-dashboard_page :
      (s : DashboardState) (d : DashboardResponse) (is_pending : Bool)
      → clicks (dashboard_page p s (arrived d) is_pending)
        ≡ (pick_range apply ∷ [])
            ∷ (pick_range preset_last_7_days ∷ [])
            ∷ (pick_range preset_last_30_days ∷ [])
            ∷ deletable p
                (λ t. delete (select t))
                (deleting_id is_pending s.selected)
                d.active_tunnels
          ++ confirmations delete s.selected is_pending
  unfolding dashboard_page page_header chart_range_picker
  clicks-dashboard_page s d is_pending =
      simp
        (
          append-nil,
          clicks-status_chart_card DashboardEvent,
          clicks-traffic_chart_card DashboardEvent,
          clicks-recent_creation_list p DashboardEvent,
          clicks-recent_request_table p DashboardEvent,
        )
        (rw
          (
            metrics_inert (metrics p d.summary),
            clicks-delete_dialog delete s.selected is_pending,
            clicks-tunnel_table p (λ t. delete (select t)) (deleting_id is_pending s.selected),
          )
          refl)
