-- ===== src/Components/RangePicker/Laws.antt =====
-- What the picker reports.
use http_tunnels.Prelude.{ℕ, List, [], ◌∷◌, ◌++◌, ◌≡◌, ◌↔◌, refl, ap, ◌∙◌, All}
use mathlib.Core.List.{append_assoc}
use http_tunnels.Api.{ChartRange}
use http_tunnels.Components.RangePicker.{
  Calendar, Picker, PickerEvent, pick_granularity, pick_start, pick_end, apply, preset_last_7_days,
  preset_last_30_days, days, pick, pick_all,
}

-- The range that the picker's fields show.
abbrev pub displayed : Picker → ChartRange
displayed s = record {
  granularity = s.granularity;
  start_date = s.start_date;
  end_date = s.end_date;
}

-- The event is a preset, of the days from `n` days ago.
abbrev IsPreset : PickerEvent → ℕ → Type 0
IsPreset preset_last_7_days n = n ≡ 6
IsPreset preset_last_30_days n = n ≡ 29
IsPreset _ n = ⊥

-- A report agrees with the fields: in its dates, or in all.
abbrev SameDates : Picker → ChartRange → Type 0
SameDates s r = (s.start_date ≡ r.start_date) × (s.end_date ≡ r.end_date)

abbrev LastAgrees : Picker → List ChartRange → Type 0
LastAgrees s [] = Unit
LastAgrees s (r ∷ []) = SameDates s r
LastAgrees s (r ∷ q ∷ rs) = LastAgrees s (q ∷ rs)

-- The event changes a field and reports nothing.
abbrev pub IsEdit : PickerEvent → Type 0
IsEdit apply = ⊥
IsEdit preset_last_7_days = ⊥
IsEdit preset_last_30_days = ⊥
IsEdit _ = Unit

module _ (c : Calendar) where
  -- After each event that reports a range, the date fields show the dates that it reported.
  pick-SameDates : (s : Picker) (e : PickerEvent) → LastAgrees (pick c s e).0 (pick c s e).1
  unfolding pick
  pick-SameDates s (pick_granularity g) = tt
  pick-SameDates s (pick_start d) = tt
  pick-SameDates s (pick_end d) = tt
  pick-SameDates s apply = (refl, refl)
  pick-SameDates s preset_last_7_days = (refl, refl)
  pick-SameDates s preset_last_30_days = (refl, refl)

  pick_all-append :
      (es fs : List PickerEvent) (s : Picker)
      → pick_all c s (es ++ fs) ≡ (
        (pick_all c (pick_all c s es).0 fs).0,
        (pick_all c s es).1 ++ (pick_all c (pick_all c s es).0 fs).1,
      )
  unfolding pick_all
  pick_all-append [] fs s = refl
  pick_all-append (e ∷ es) fs s = rw (pick_all-append es fs (pick c s e).0, append_assoc)

  pick_all-edits : (es : List PickerEvent) (s : Picker) → All IsEdit es → (pick_all c s es).1 ≡ []
  unfolding pick pick_all
  pick_all-edits [] s h = refl
  pick_all-edits (pick_granularity g ∷ es) s h =
      pick_all-edits es (record s { granularity = g }) h.1
  pick_all-edits (pick_start d ∷ es) s h = pick_all-edits es (record s { start_date = d }) h.1
  pick_all-edits (pick_end d ∷ es) s h = pick_all-edits es (record s { end_date = d }) h.1
  pick_all-edits (apply ∷ es) s h = absurd h.0
  pick_all-edits (preset_last_7_days ∷ es) s h = absurd h.0
  pick_all-edits (preset_last_30_days ∷ es) s h = absurd h.0

  -- A session that ends with "Apply" reports, last, what the fields show.
  pick_all-apply :
      (es : List PickerEvent) (s : Picker)
      → (pick_all c s (es ++ apply ∷ [])).1
        ≡ (pick_all c s es).1 ++ displayed (pick_all c s es).0 ∷ []
  unfolding pick pick_all
  pick_all-apply es s = ap (λ r. r.1) (pick_all-append es (apply ∷ []) s)

  pub pick_all-apply-edits :
      (es edits : List PickerEvent) (s : Picker)
      → All IsEdit edits
      → (pick_all c s (es ++ apply ∷ edits)).1
        ≡ (pick_all c s es).1 ++ displayed (pick_all c s es).0 ∷ []
  unfolding pick pick_all
  pick_all-apply-edits es edits s h =
      ap (λ r. r.1) (pick_all-append es (apply ∷ edits) s)
      ∙ ap (λ more. (pick_all c s es).1 ++ displayed (pick_all c s es).0 ∷ more)
          (pick_all-edits edits (pick_all c s es).0 h)

  -- A preset reports a range of days and leaves the granularity field as it is: "Apply" right
  -- behind it repeats its report exactly when that field already shows "day".
  pub apply-after-preset_iff :
      (e : PickerEvent) (s : Picker) (n : ℕ)
      → IsPreset e n
      → ((pick_all c s (e ∷ apply ∷ [])).1 ≡ days c n ∷ days c n ∷ []) ↔ (s.granularity ≡ "day")
  unfolding pick pick_all
  apply-after-preset_iff preset_last_7_days s n q = rw q (λ h. cc, λ g. cc)
  apply-after-preset_iff preset_last_30_days s n q = rw q (λ h. cc, λ g. cc)
  apply-after-preset_iff _ s n q = absurd q
