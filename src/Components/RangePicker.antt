-- ===== src/Components/RangePicker.antt =====
-- chart-range-picker.tsx of cmd/server/web/src/components: the picker's own state, the changes that
-- it reports, and what it shows. The clock and date-fns are a parameter.
pub mod Laws
use http_tunnels.Prelude.{ℕ, String, List, [], ◌∷◌, ◌++◌}
use http_tunnels.Dom.{Node, text, el, prop, on_click, on_change, kids, box, label}
use http_tunnels.Api.{ChartRange}

-- `day_text n` is `format(subDays(new Date(), n), "yyyy-MM-dd")`, and for 0 `format(new Date(), …)`.
pub record Calendar : Type 0 where
  pub day_text : ℕ → String

-- The three calls of `useState`, whose first values are those of the property `value`.
pub record Picker : Type 0 where
  pub start_date : String
  pub end_date : String
  pub granularity : String

unfoldable pub new_picker : ChartRange → Picker
new_picker value = record {
  start_date = value.start_date;
  end_date = value.end_date;
  granularity = value.granularity;
}

pub data PickerEvent : Type 0 where
  pick_granularity pick_start pick_end : String → PickerEvent
  apply preset_last_7_days preset_last_30_days : PickerEvent

abbrev pub days : Calendar → ℕ → ChartRange
days c n = record { granularity = "day"; start_date = c.day_text n; end_date = c.day_text 0 }

module _ (c : Calendar) where
  preset : ℕ → Picker → Picker × List ChartRange
  preset n s = (record s { start_date = c.day_text n; end_date = c.day_text 0 }, days c n ∷ [])

  -- The new state, and the ranges that `onChange` is called with.
  pub pick : Picker → PickerEvent → Picker × List ChartRange
  unfolding preset
  pick s (pick_granularity g) = (record s { granularity = g }, [])
  pick s (pick_start d) = (record s { start_date = d }, [])
  pick s (pick_end d) = (record s { end_date = d }, [])
  pick s apply = (
    s,
    record { granularity = s.granularity; start_date = s.start_date; end_date = s.end_date } ∷ [],
  )
  pick s preset_last_7_days = preset 6 s
  pick s preset_last_30_days = preset 29 s

  -- A session of the picker: its last state, and all that it reported.
  unfoldable pub pick_all : Picker → List PickerEvent → Picker × List ChartRange
  pick_all s [] = (s, [])
  pick_all s (e ∷ es) =
      let (s', now) = pick s e in let (s'', later) = pick_all s' es in (s'', now ++ later)

abbrev option : String → String → Node PickerEvent
option value name = el "SelectItem" (prop "value" value ∷ []) (kids (text name ∷ []))

abbrev date_input : String → (String → PickerEvent) → Node PickerEvent
date_input value event =
    el "input" (prop "type" "date" ∷ prop "value" value ∷ on_change (λ d. event d ∷ []) ∷ [])
      (kids [])

abbrev button : String → PickerEvent → Node PickerEvent
button name event = el "Button" (on_click (event ∷ []) ∷ []) (kids (text name ∷ []))

unfoldable pub chart_range_picker : Picker → Node PickerEvent
chart_range_picker s = box "div" (
    el "Select" (prop "value" s.granularity ∷ on_change (λ g. pick_granularity g ∷ []) ∷ []) (
      kids (
        box "SelectTrigger"
          (el "SelectValue" (prop "placeholder" "Granularity" ∷ []) (kids []) ∷ [])
        ∷ box "SelectContent"
            (option "hour" "Hour" ∷ option "day" "Day" ∷ option "week" "Week" ∷ [])
        ∷ []))
    ∷ box "div" (
        date_input s.start_date pick_start
        ∷ label "span" "to"
        ∷ date_input s.end_date pick_end
        ∷ [])
    ∷ button "Apply" apply
    ∷ button "Last 7 days" preset_last_7_days
    ∷ button "Last 30 days" preset_last_30_days
    ∷ [])
