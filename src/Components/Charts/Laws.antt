-- ===== src/Components/Charts/Laws.antt =====
-- The charts hold nothing to click, and draw the fields of their points.
use http_tunnels.Prelude.{ℕ, String, List, [], map, ◌≡◌, refl, show_nat, ◌^^◌}
use http_tunnels.Dom.{
  text, clicks, clicks_of, kids, clicks_of-map_nil, values_of, values_in, values_in-map_nil,
}
use http_tunnels.Api.{StatusChartPoint, TrafficChartPoint}
use http_tunnels.Components.Charts.{
  status_chart_card, traffic_chart_card, slice_from, Series, status_config, traffic_config,
}

-- The variable that the chart container defines for a series.
abbrev color_of : Series → String
color_of s = "var(--color-" ^^ s.key ^^ ")"

module _ (A : Type 0) where
  texts_inert :
      (values : List ℕ) → clicks_of {A = A} (kids (map (λ v. text (show_nat v)) values)) ≡ []
  texts_inert values = clicks_of-map_nil (λ v. text (show_nat v)) values (λ v. refl)

  ticks_inert :
      (values : List String)
      → clicks_of {A = A} (kids (map (λ v. text (slice_from 5 v)) values)) ≡ []
  ticks_inert values = clicks_of-map_nil (λ v. text (slice_from 5 v)) values (λ v. refl)

  pub clicks-status_chart_card :
      (points : List StatusChartPoint) → clicks {A = A} (status_chart_card points) ≡ []
  unfolding status_chart_card
  clicks-status_chart_card points = simp (texts_inert, ticks_inert)

  pub clicks-traffic_chart_card :
      (points : List TrafficChartPoint) → clicks {A = A} (traffic_chart_card points) ≡ []
  unfolding traffic_chart_card
  clicks-traffic_chart_card points = simp (texts_inert, ticks_inert)

  texts_without :
      (tag name : String) (values : List ℕ)
      → values_in {A = A} tag name (kids (map (λ v. text (show_nat v)) values)) ≡ []
  texts_without tag name values =
      values_in-map_nil tag name (λ v. text (show_nat v)) values (λ v. refl)

  ticks_without :
      (tag name : String) (values : List String)
      → values_in {A = A} tag name (kids (map (λ v. text (slice_from 5 v)) values)) ≡ []
  ticks_without tag name values =
      values_in-map_nil tag name (λ v. text (slice_from 5 v)) values (λ v. refl)

  -- Each chart draws one area for each series of its configuration, in that order, and fills it with
  -- the colour that the configuration defines for the series.
  pub values_of-chart_cards :
      (points : List StatusChartPoint) (traffic : List TrafficChartPoint)
      → (values_of {A = A} "Area" "dataKey" (status_chart_card points)
          ≡ map (λ s. s.key) status_config)
        × (values_of {A = A} "Area" "fill" (status_chart_card points) ≡ map color_of status_config)
        × (values_of {A = A} "Area" "dataKey" (traffic_chart_card traffic)
            ≡ map (λ s. s.key) traffic_config)
        × (values_of {A = A} "Area" "fill" (traffic_chart_card traffic)
            ≡ map color_of traffic_config)
  unfolding status_chart_card traffic_chart_card
  values_of-chart_cards points traffic = (
    simp (texts_without, ticks_without) refl,
    simp (texts_without, ticks_without) refl,
    simp (texts_without, ticks_without) refl,
    simp (texts_without, ticks_without) refl,
  )
