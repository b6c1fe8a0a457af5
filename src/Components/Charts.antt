-- ===== src/Components/Charts.antt =====
-- The chart cards: charts/status-chart-card.tsx and charts/traffic-chart-card.tsx of
-- cmd/server/web/src/components. An `Area` holds the values that the chart library reads from the
-- points by its `dataKey`, and the axis the labels of its ticks.
pub mod Laws
use http_tunnels.Prelude.{
  ℕ, zero, suc, String, List, [], ◌∷◌, ◌++◌, map, show_nat, ◌^^◌, Option, none, some, if◌then◌else◌,
  str_eq,
}
use http_tunnels.Dom.{Node, text, el, prop, kids, box, label}
use http_tunnels.Format.{Platform, finite, whole, format_bytes}
use http_tunnels.Api.{StatusChartPoint, TrafficChartPoint}
use http_tunnels.Components.Basic.{titled_card}

-- An entry of `chartConfig`.
pub record Series : Type 0 where
  pub key : String
  pub label : String
  pub color : String

abbrev series : String → String → String → Series
series key name color = record { key = key; label = name; color = color }

abbrev pub status_config : List Series
status_config =
    series "twoXX" "2XX" "var(--chart-1)"
    ∷ series "threeXX" "3XX" "var(--chart-2)"
    ∷ series "fourXX" "4XX" "var(--chart-3)"
    ∷ series "fiveXX" "5XX" "var(--chart-4)"
    ∷ []

abbrev pub traffic_config : List Series
traffic_config =
    series "inboundBytes" "Inbound" "var(--chart-2)"
    ∷ series "outboundBytes" "Outbound" "var(--chart-5)"
    ∷ []

-- `value.slice(5)` on a text
abbrev pub slice_from : ℕ → String → String
slice_from zero s = s
slice_from (suc n) String.[] = ""
slice_from (suc n) (String.◌∷◌ c s) = slice_from n s

module _ {A : Type 0} where
  abbrev area : String → String → List ℕ → Node A
  area key opacity values =
      el "Area"
        (prop "dataKey" key
          ∷ prop "type" "natural"
          ∷ prop "fill" ("var(--color-" ^^ key ^^ ")")
          ∷ prop "fillOpacity" opacity
          ∷ prop "stroke" ("var(--color-" ^^ key ^^ ")")
          ∷ [])
        (kids (map (λ v. text (show_nat v)) values))

  abbrev axis : List String → Node A
  axis buckets =
      el "XAxis" (prop "dataKey" "bucket" ∷ [])
        (kids (map (λ bucket. text (slice_from 5 bucket)) buckets))

  abbrev config_node : Series → Node A
  config_node s =
      el "Series" (prop "key" s.key ∷ prop "color" s.color ∷ []) (kids (text s.label ∷ []))

  abbrev chart : List Series → List (Node A) → Node A
  chart config parts = box "ChartContainer" (map config_node config ++ box "AreaChart" parts ∷ [])

  pub status_chart_card : List StatusChartPoint → Node A
  status_chart_card points =
      titled_card "Status code classes"
        (text "Request volume grouped by 2XX, 3XX, 4XX, and 5XX responses." ∷ [])
        (chart status_config (
            box "CartesianGrid" []
            ∷ axis (map (λ p. p.bucket) points)
            ∷ box "ChartTooltip" []
            ∷ area "twoXX" "0.4" (map (λ p. p.two_xx) points)
            ∷ area "threeXX" "0.35" (map (λ p. p.three_xx) points)
            ∷ area "fourXX" "0.3" (map (λ p. p.four_xx) points)
            ∷ area "fiveXX" "0.25" (map (λ p. p.five_xx) points)
            ∷ [])
          ∷ [])

  pub traffic_chart_card : List TrafficChartPoint → Node A
  traffic_chart_card points =
      titled_card "Inbound and outbound traffic"
        (text "Bytes transferred through the tunnel over the last 7 days." ∷ [])
        (chart traffic_config (
            box "CartesianGrid" []
            ∷ axis (map (λ p. p.bucket) points)
            ∷ box "ChartTooltip" []
            ∷ area "inboundBytes" "0.4" (map (λ p. p.inbound_bytes) points)
            ∷ area "outboundBytes" "0.25" (map (λ p. p.outbound_bytes) points)
            ∷ [])
          ∷ [])

  -- The formatter of the traffic chart's tooltip.
  unfoldable pub tooltip_row : Platform → ℕ → String → Node A
  tooltip_row p value name =
      box "div" (label "span" name ∷ label "span" (format_bytes p (finite (whole value))) ∷ [])
