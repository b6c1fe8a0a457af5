-- ===== src/Pages/Dashboard.antt =====
-- dashboard-page.tsx of cmd/server/web/src/pages: metrics, charts over a chosen range, the active
-- tunnels and the latest activity.
pub mod Laws
pub mod Runs
use http_tunnels.Prelude.{String, Bool, none, some, List, [], ◌∷◌, map, or_text}
use mathlib.Core.List.{foldl}
use http_tunnels.Dom.{Node, box, label, lift}
use http_tunnels.Hooks.{Query, Key, key_text, range, Effect, loaded}
use http_tunnels.Format.{Platform, finite, whole, format_bytes, format_count}
use http_tunnels.Api.{ChartRange, DashboardResponse, DashboardSummary}
use http_tunnels.Api.Calls.{Call}
use http_tunnels.Api.Calls
use http_tunnels.Components.Basic.{crumb_to, crumb_here, page_header, metric_card}
use http_tunnels.Components.Tables.{tunnel_table, recent_request_table}
use http_tunnels.Components.Logs.{recent_creation_list}
use http_tunnels.Components.Charts.{status_chart_card, traffic_chart_card}
use http_tunnels.Components.RangePicker.{
  Calendar, Picker, new_picker, PickerEvent, pick, chart_range_picker,
}
use http_tunnels.Pages.Deletion.{
  DeleteEvent, select, Selected, delete_step, deleting_id, delete_dialog,
}

-- The range picker is a child with a state of its own.
pub record DashboardState : Type 0 where
  pub selected : Selected
  pub chart_range : ChartRange
  pub picker : Picker

pub data DashboardEvent : Type 0 where
  delete : DeleteEvent → DashboardEvent
  pick_range : PickerEvent → DashboardEvent

pub record Metric : Type 0 where
  pub title : String
  pub value : String
  pub description : String
  pub icon : String

abbrev metric : String → String → String → String → Metric
metric title value description icon = record {
  title = title;
  value = value;
  description = description;
  icon = icon;
}

module _ (c : Calendar) where
  -- `defaultRange`: the last seven days.
  pub default_range : ChartRange
  default_range = record { granularity = "day"; start_date = c.day_text 6; end_date = c.day_text 0 }

  unfoldable pub dashboard_initial : DashboardState
  unfolding default_range
  dashboard_initial = record {
    selected = none;
    chart_range = default_range;
    picker = new_picker default_range;
  }

  pub dashboard_step : DashboardState → DashboardEvent → DashboardState × List Effect
  dashboard_step s (delete e) =
      let (selected, effects) =
        delete_step "Tunnel deleted and active connection closed." s.selected e in
      (record s { selected = selected }, effects)
  dashboard_step s (pick_range e) =
      let (picker, ranges) = pick c s.picker e in
      (record s { picker = picker; chart_range = foldl (λ _ r. r) s.chart_range ranges }, [])

unfoldable pub dashboard_key : DashboardState → Key
dashboard_key s = key_text "dashboard" ∷ range s.chart_range ∷ []

unfoldable pub dashboard_call : DashboardState → Call
dashboard_call s = Calls.dashboard (some s.chart_range)

module _ (p : Platform) where
  unfoldable pub metrics : DashboardSummary → List Metric
  metrics summary =
      metric "Active connections" (format_count p (some summary.active_tunnels))
        "Currently connected tunnel clients." "NetworkIcon"
      ∷ metric "Active traffic" (format_count p (some summary.active_traffic))
          "In-flight requests across all active tunnels right now." "ZapIcon"
      ∷ metric "Recorded requests" (format_count p (some summary.total_requests))
          "Total request-response log entries stored." "ActivityIcon"
      ∷ metric "Transferred data" (format_bytes p (finite (whole summary.data_transferred_bytes)))
          "Inbound and outbound bytes tracked in analytics." "ArrowUpDownIcon"
      ∷ metric "Inbound data" (format_bytes p (finite (whole summary.total_request_bytes)))
          "Total request bytes from clients." "ArrowDownIcon"
      ∷ metric "Outbound data" (format_bytes p (finite (whole summary.total_response_bytes)))
          "Total response bytes to clients." "ArrowUpIcon"
      ∷ metric "Registered tunnel identities" (format_count p (some summary.registered_tunnels))
          "Known tunnel domains retained in analytics history." "RouterIcon"
      ∷ metric "Server version" (or_text summary.server_version "dev")
          "Current running server build version." "ActivityIcon"
      ∷ []

  dashboard_content : DashboardState → Bool → DashboardResponse → Node DashboardEvent
  dashboard_content s is_pending d = box "div" (
      page_header "Dashboard"
        "Monitor active connections, recent request-response traffic, and tunnel creation analytics."
        (crumb_to "Admin" "/admin" ∷ crumb_here "Dashboard" ∷ []) []
      ∷ box "div" (
          box "div"
            (map (λ m. metric_card m.title m.value m.description m.icon) (metrics d.summary))
          ∷ box "div" (
              label "h2" "Traffic overview"
              ∷ lift pick_range (chart_range_picker s.picker)
              ∷ box "div"
                  (status_chart_card d.status_chart ∷ traffic_chart_card d.traffic_chart ∷ [])
              ∷ [])
          ∷ tunnel_table p "Active connections"
              "Connected or registered tunnel subdomains that the admin can inspect or remove."
              d.active_tunnels (λ tunnel. delete (select tunnel))
              (deleting_id is_pending s.selected)
          ∷ box "div" (
              recent_request_table p d.recent_requests
              ∷ recent_creation_list p d.recent_tunnel_creates
              ∷ [])
          ∷ [])
      ∷ delete_dialog delete s.selected is_pending
      ∷ [])

  pub dashboard_page : DashboardState → Query DashboardResponse → Bool → Node DashboardEvent
  unfolding dashboard_content
  dashboard_page s query is_pending =
      loaded query "The dashboard data could not be loaded." (dashboard_content s is_pending)
