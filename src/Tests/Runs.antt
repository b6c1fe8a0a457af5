-- ===== src/Tests/Runs.antt =====
-- A session of the dashboard.
use http_tunnels.Prelude.{List, [], ◌∷◌}
use http_tunnels.Api.Calls
use http_tunnels.Components.RangePicker.{preset_last_30_days, pick_start}
use http_tunnels.Pages.Deletion.{select, confirmed}
use http_tunnels.Pages.Dashboard.{DashboardState, DashboardEvent, pick_range, dashboard_initial}
use http_tunnels.Pages.Dashboard
use http_tunnels.Tests.Data.{calendar, one}

abbrev before : List DashboardEvent
before = pick_range preset_last_30_days ∷ Dashboard.delete (select one) ∷ []

abbrev after : List DashboardEvent
after = pick_range (pick_start "2026-01-01") ∷ Dashboard.delete confirmed ∷ []

abbrev start : DashboardState
start = dashboard_initial calendar
