-- ===== src/Components/Tables/Requests.antt =====
-- The tables of requests: nothing to click but their menus, and a link to each request.
use http_tunnels.Prelude.{List, [], ◌∷◌, map, ◌≡◌, refl, ap}
use mathlib.Core.List.{append-nil}
use http_tunnels.Dom.{clicks, kids, targets, targets_of, clicks_of-map_nil}
use http_tunnels.Format.{Platform}
use http_tunnels.Api.{RequestResponseLog}
use http_tunnels.Components.Basic.{http_status_badge}
use http_tunnels.Components.Tables.{
  request_path, activity_row, request_activity_table, recent_row, recent_request_table,
}

module _ (p : Platform) (A : Type 0) where
  clicks-activity_row : (log : RequestResponseLog) → clicks {A = A} (activity_row p log) ≡ []
  unfolding activity_row http_status_badge
  clicks-activity_row log = refl

  clicks-recent_row : (log : RequestResponseLog) → clicks {A = A} (recent_row p log) ≡ []
  unfolding recent_row http_status_badge
  clicks-recent_row log = refl

  pub clicks-request_activity_table :
      (logs : List RequestResponseLog) → clicks {A = A} (request_activity_table p logs) ≡ []
  unfolding request_activity_table http_status_badge
  clicks-request_activity_table [] = refl
  clicks-request_activity_table (l ∷ ls) =
      rw (clicks_of-map_nil (activity_row p) ls clicks-activity_row) refl

  pub clicks-recent_request_table :
      (logs : List RequestResponseLog) → clicks {A = A} (recent_request_table p logs) ≡ []
  unfolding recent_request_table
  clicks-recent_request_table logs =
      rw (clicks_of-map_nil (recent_row p) logs clicks-recent_row) refl

  flat_map-targets :
      (logs : List RequestResponseLog)
      → targets_of {A = A} (kids (map (activity_row p) logs)) ≡ map (λ l. request_path l.id) logs
  unfolding activity_row http_status_badge
  flat_map-targets [] = refl
  flat_map-targets (l ∷ ls) = ap (request_path l.id ∷◌) (flat_map-targets ls)

  -- The table of the request activity links to the page of each of its requests, in order, and to
  -- nothing else.
  pub targets-request_activity_table :
      (logs : List RequestResponseLog)
      → targets {A = A} (request_activity_table p logs) ≡ map (λ l. request_path l.id) logs
  unfolding request_activity_table http_status_badge
  targets-request_activity_table [] = refl
  targets-request_activity_table (l ∷ ls) = simp append-nil (rw (flat_map-targets ls) refl)
