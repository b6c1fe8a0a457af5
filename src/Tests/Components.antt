-- ===== src/Tests/Components.antt =====
-- The range picker.
use http_tunnels.Prelude.{List, [], ◌∷◌, ◌≡◌, ◌↔◌, refl}
use http_tunnels.Components.RangePicker.{
  PickerEvent, pick_granularity, preset_last_7_days, apply, days, pick_all,
}
use http_tunnels.Components.RangePicker.Laws.{apply-after-preset_iff}
use http_tunnels.Tests.Data.{calendar, hourly_picker}

abbrev edits : List PickerEvent
edits = preset_last_7_days ∷ pick_granularity "month" ∷ []

apply-after-preset_iff_example :
    ((pick_all calendar hourly_picker (preset_last_7_days ∷ apply ∷ [])).1
      ≡ days calendar 6 ∷ days calendar 6 ∷ [])
    ↔ (hourly_picker.granularity ≡ "day")
apply-after-preset_iff_example =
    apply-after-preset_iff calendar preset_last_7_days hourly_picker 6 refl
