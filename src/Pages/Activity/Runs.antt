-- ===== src/Pages/Activity/Runs.antt =====
-- Sequences of events on the page of the request activity.
use http_tunnels.Prelude.{List, [], ◌∷◌, ◌++◌, ◌≡◌, refl, ap, ◌∙◌, All}
use http_tunnels.Api.Calls
use http_tunnels.Pages.Activity.{
  ActivityState, ActivityEvent, edit_search, edit_subdomain, pick_method, pick_status_class, submit,
  reset, set_page, activity_step, activity_call, page_size,
}

pub activity_run : ActivityState → List ActivityEvent → ActivityState
activity_run s [] = s
activity_run s (e ∷ es) = activity_run (activity_step s e) es

-- An edit of the draft.
abbrev IsEdit : ActivityEvent → Type 0
IsEdit submit = ⊥
IsEdit reset = ⊥
IsEdit (set_page n) = ⊥
IsEdit e = Unit

activity_run-append :
    (xs ys : List ActivityEvent) (s : ActivityState)
    → activity_run s (xs ++ ys) ≡ activity_run (activity_run s xs) ys
unfolding activity_run
activity_run-append [] ys s = refl
activity_run-append (x ∷ xs) ys s = activity_run-append xs ys (activity_step s x)

activity_call-edits :
    (es : List ActivityEvent) (s : ActivityState)
    → All IsEdit es
    → activity_call (activity_run s es) ≡ activity_call s
unfolding activity_run activity_step activity_call
activity_call-edits [] s h = refl
activity_call-edits (edit_search v ∷ es) s h = activity_call-edits es _ h.1
activity_call-edits (edit_subdomain v ∷ es) s h = activity_call-edits es _ h.1
activity_call-edits (pick_method v ∷ es) s h = activity_call-edits es _ h.1
activity_call-edits (pick_status_class v ∷ es) s h = activity_call-edits es _ h.1
activity_call-edits (submit ∷ es) s h = absurd h.0
activity_call-edits (reset ∷ es) s h = absurd h.0
activity_call-edits (set_page n ∷ es) s h = absurd h.0

-- What the page asks the server for does not depend on what is being edited: from "Apply filters"
-- on, while there are only edits of the draft, it is the first page under the draft as it was
-- applied.
pub activity_run-submit :
    (es edits : List ActivityEvent) (s : ActivityState)
    → All IsEdit edits
    → activity_call (activity_run s (es ++ submit ∷ edits))
      ≡ Calls.list_request_activity 1 page_size (activity_run s es).draft
unfolding activity_run activity_step activity_call
activity_run-submit es edits s h =
    ap activity_call (activity_run-append es (submit ∷ edits) s)
    ∙ activity_call-edits edits (activity_step (activity_run s es) submit) h
