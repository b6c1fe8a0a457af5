-- ===== src/Pages/Activity/Laws.antt =====
-- The filters of the request activity.
use http_tunnels.Prelude.{
  [], ◌∷◌, String, true, ◌≡◌, refl, sym, ◌⊎◌, inl, inr, or_text, or_text_of_nonempty, nonempty,
  eq_iff, str_eq, Bool-cases,
}
use mathlib.Core.List.{append-nil}
use http_tunnels.Dom.{clicks}
use http_tunnels.Format.{Platform}
use http_tunnels.Api.{ListResponse, RequestResponseLog}
use http_tunnels.Components.Basic.{page_header, pagination_controls}
use http_tunnels.Components.Tables.Requests.{clicks-request_activity_table}
use http_tunnels.Pages.Tunnels.Laws.{arrived}
use http_tunnels.Pages.Activity.{
  activity_page, ActivityState, ActivityEvent, edit_search, edit_subdomain, pick_method,
  pick_status_class, submit, reset, set_page, activity_step, choice,
}

-- No event changes the filters of the request without going back to the first page: the event
-- keeps the filters, or its state shows page 1.
activity_step-first_page :
    (s : ActivityState) (e : ActivityEvent)
    → ((activity_step s e).applied ≡ s.applied) ⊎ ((activity_step s e).page ≡ 1)
unfolding activity_step
activity_step-first_page s (edit_search v) = inl refl
activity_step-first_page s (edit_subdomain v) = inl refl
activity_step-first_page s (pick_method v) = inl refl
activity_step-first_page s (pick_status_class v) = inl refl
activity_step-first_page s submit = inr refl
activity_step-first_page s reset = inr refl
activity_step-first_page s (set_page n) = inl refl

or_text-choice : (v : String) → nonempty v ≡ true → or_text (choice v) "all" ≡ v
or_text-choice v h = elim (Bool-cases (str_eq v "all")) [
  | inl all ↦ rw all (sym ((eq_iff v "all").0 all))
  | inr other ↦ rw other (or_text_of_nonempty v "all" h)
]

-- Each of the two selects shows the choice that was picked, "all" too, which stands for no filter.
pick-shown :
    (s : ActivityState) (v : String)
    → nonempty v ≡ true
    → (or_text (activity_step s (pick_method v)).draft.method "all" ≡ v)
      × (or_text (activity_step s (pick_status_class v)).draft.status_class "all" ≡ v)
unfolding activity_step
pick-shown s v h = (or_text-choice v h, or_text-choice v h)

module _ (p : Platform) where
  -- The clicks that the page takes once the list has arrived are the button that resets the
  -- filters and those of the page controls.
  pub clicks-activity_page :
      (s : ActivityState) (list : ListResponse RequestResponseLog)
      → clicks (activity_page p s (arrived list))
        ≡ (reset ∷ []) ∷ clicks (pagination_controls list.page list.total_pages set_page)
  unfolding activity_page page_header
  clicks-activity_page s list =
      simp (append-nil, clicks-request_activity_table p ActivityEvent) refl
