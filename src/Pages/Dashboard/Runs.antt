-- ===== src/Pages/Dashboard/Runs.antt =====
-- Sequences of events on the dashboard: its deletion and its range picker.
use http_tunnels.Prelude.{List, [], ◌∷◌, ◌++◌}
use http_tunnels.Prelude.{String}
use http_tunnels.Hooks.{Effect}
use http_tunnels.Api.{ChartRange}
use http_tunnels.Api.Calls
use http_tunnels.Components.RangePicker.{Calendar, PickerEvent}
use http_tunnels.Pages.Deletion.{DeleteEvent}
use http_tunnels.Pages.Dashboard.{
  DashboardState, DashboardEvent, delete, pick_range, dashboard_step,
}

-- The events of each of the two among those of the page.
abbrev deletions_of : List DashboardEvent → List DeleteEvent
deletions_of [] = []
deletions_of (delete e ∷ es) = e ∷ deletions_of es
deletions_of (pick_range e ∷ es) = deletions_of es

abbrev pub picks_of : List DashboardEvent → List PickerEvent
picks_of [] = []
picks_of (delete e ∷ es) = picks_of es
picks_of (pick_range e ∷ es) = e ∷ picks_of es

-- The last of the ranges, if there is one.
abbrev last_range : ChartRange → List ChartRange → ChartRange
last_range r [] = r
last_range r (q ∷ qs) = last_range q qs

abbrev message : String
message = "Tunnel deleted and active connection closed."

module _ (c : Calendar) where
  -- All that a sequence of events leads to.
  pub dashboard_run : DashboardState → List DashboardEvent → DashboardState × List Effect
  dashboard_run s [] = (s, [])
  dashboard_run s (e ∷ es) =
      let (s', now) = dashboard_step c s e in
      let (s'', later) = dashboard_run s' es in (s'', now ++ later)
