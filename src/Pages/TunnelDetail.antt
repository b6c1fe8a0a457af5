-- ===== src/Pages/TunnelDetail.antt =====
-- tunnel-detail-page.tsx of cmd/server/web/src/pages: one tunnel, its charts and its latest logs.
pub mod Laws
use http_tunnels.Prelude.{
  ℕ, ◌+◌, String, Bool, true, false, Option, none, some, List, [], ◌∷◌, ◌++◌, or_else, or_default,
  nonempty, show_nat, if◌then◌else◌,
}
use mathlib.Core.List.{foldl}
use http_tunnels.Dom.{Node, text, el, on_click, kids, box, label, link, lift}
use http_tunnels.Hooks.{
  Query, Key, key_text, number, range, Effect, toast_success, toast_error, mutate_delete, navigate,
  loaded, Screen, redirect, shown,
}
use http_tunnels.Format.{
  Platform, finite, whole, format_bytes, format_date_time, format_duration_from,
}
use http_tunnels.Api.{TunnelRecord, ChartRange, TunnelDetailResponse}
use http_tunnels.Api.Calls.{Call}
use http_tunnels.Api.Calls
use http_tunnels.Components.Basic.{
  crumb_to, crumb_here, page_header, tunnel_state_badge, titled_card, delete_tunnel_dialog,
}
use http_tunnels.Components.Logs.{request_log_list, recent_creation_list}
use http_tunnels.Components.Charts.{status_chart_card, traffic_chart_card}
use http_tunnels.Components.RangePicker.{
  Calendar, Picker, new_picker, PickerEvent, pick, chart_range_picker,
}
use http_tunnels.Pages.Deletion.{refresh_lists}

abbrev recent_log_limit : ℕ
recent_log_limit = 5

pub record DetailState : Type 0 where
  pub delete_open : Bool
  pub chart_range : ChartRange
  pub picker : Picker

-- `defaultRange`: the last seven days.
detail_range : Calendar → ChartRange
detail_range c = record { granularity = "day"; start_date = c.day_text 6; end_date = c.day_text 0 }

unfoldable detail_initial : Calendar → DetailState
unfolding detail_range
detail_initial c = record {
  delete_open = false;
  chart_range = detail_range c;
  picker = new_picker (detail_range c);
}

pub data DetailEvent : Type 0 where
  set_delete_open : Bool → DetailEvent
  confirmed : String → DetailEvent
  succeeded : DetailEvent
  failed : String → DetailEvent
  pick_range : PickerEvent → DetailEvent

unfoldable detail_step : Calendar → DetailState → DetailEvent → DetailState × List Effect
detail_step c s (set_delete_open opened) = (record s { delete_open = opened }, [])
detail_step c s (confirmed id) = (s, mutate_delete id ∷ [])
detail_step c s succeeded = (
  record s { delete_open = false },
  toast_success "Tunnel deleted." ∷ refresh_lists ++ navigate "/admin/tunnels" ∷ [],
)
detail_step c s (failed error) = (s, toast_error error ∷ [])
detail_step c s (pick_range e) =
    let (picker, ranges) = pick c s.picker e in
    (record s { picker = picker; chart_range = foldl (λ _ r. r) s.chart_range ranges }, [])

-- The key names the tunnel, so another tunnel's data is never shown.
unfoldable pub detail_key : String → DetailState → Key
detail_key id s =
    key_text "tunnel-detail" ∷ key_text id ∷ number recent_log_limit ∷ range s.chart_range ∷ []

unfoldable pub detail_call : String → DetailState → Call
detail_call id s = Calls.tunnel_detail id 1 recent_log_limit (some s.chart_range)

module _ {A : Type 0} where
  pub detail_item : String → List (Node A) → Node A
  detail_item name value = box "div" (label "span" name ∷ box "div" value ∷ [])

  abbrev text_item : String → String → Node A
  text_item name value = detail_item name (text value ∷ [])

module _ (p : Platform) where
  details : TunnelRecord → Node DetailEvent
  details tunnel = box "div" (
      text_item "Tunnel subdomain" tunnel.domain
      ∷ text_item "Created when" (format_date_time p (some tunnel.created_at))
      ∷ text_item "How long active" (format_duration_from p (some tunnel.created_at))
      ∷ text_item "Total data transferred" (
          format_bytes p
            (finite (whole (tunnel.total_request_bytes + tunnel.total_response_bytes))))
      ∷ text_item "Requests recorded" (show_nat tunnel.request_count)
      ∷ text_item "Last activity" (format_date_time p tunnel.last_activity_at)
      ∷ detail_item "Connection state" (tunnel_state_badge tunnel.state ∷ [])
      ∷ text_item "Connected since" (format_date_time p tunnel.connected_at)
      ∷ text_item "Client version" (or_else tunnel.client_version "unknown")
      ∷ text_item "Remote address" (or_else tunnel.remote_addr "unknown")
      ∷ text_item "User agent" (or_else tunnel.user_agent "unknown")
      ∷ [])

  detail_content : DetailState → Bool → TunnelDetailResponse → Node DetailEvent
  unfolding details
  detail_content s is_pending d = box "div" (
      page_header d.tunnel.domain "Tunnel details, analytics charts, and request-response logging."
        (crumb_to "Admin" "/admin"
          ∷ crumb_to "Active Subdomain" "/admin/tunnels"
          ∷ crumb_here d.tunnel.domain
          ∷ [])
        (el "Button" (on_click (set_delete_open true ∷ []) ∷ []) (kids (text "Delete tunnel" ∷ []))
          ∷ [])
      ∷ box "div" (
          titled_card "Tunnel details"
            (text "Core tunnel metadata stored in the server-side SQLite database." ∷ [])
            (details d.tunnel ∷ [])
          ∷ box "div" (
              label "h2" "Traffic analytics"
              ∷ lift pick_range (chart_range_picker s.picker)
              ∷ box "div"
                  (status_chart_card d.status_chart ∷ traffic_chart_card d.traffic_chart ∷ [])
              ∷ [])
          ∷ request_log_list p d.logs.items "Request and response logs"
              (text "Recent request-response logs only. If you want to see more detail, go into "
                ∷ link "/admin/request-activity" (text "Request Activity" ∷ [])
                ∷ text "."
                ∷ [])
              (text
                  "Send traffic through this tunnel to populate the recent analytics view. If you want to see more detail, go into Request Activity."
                ∷ [])
          ∷ recent_creation_list p d.creation_history
          ∷ [])
      ∷ delete_tunnel_dialog (some d.tunnel) s.delete_open (λ opened. set_delete_open opened ∷ [])
          (confirmed d.tunnel.id ∷ []) is_pending
      ∷ [])

  -- The route's parameter may be missing; the page then leaves for the list.
  pub tunnel_detail_page :
      Option String → DetailState → Query TunnelDetailResponse → Bool → Screen DetailEvent
  unfolding detail_content
  tunnel_detail_page tunnel_id s query is_pending =
      if nonempty (or_default tunnel_id "")
      then shown
          (loaded query "The tunnel detail view could not be loaded." (detail_content s is_pending))
      else redirect "/admin/tunnels" none
