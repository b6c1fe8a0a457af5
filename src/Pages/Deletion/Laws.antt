-- ===== src/Pages/Deletion/Laws.antt =====
-- What a session of the deletion can send to the server, and what its dialog shows.
use http_tunnels.Prelude.{
  String, Bool, if◌then◌else◌, true, false, none, some, List, [], ◌∷◌, ◌≡◌, refl, arith, In, inl,
  inr,
}
use http_tunnels.Dom.{clicks}
use http_tunnels.Components.Basic.{delete_tunnel_dialog}
use http_tunnels.Hooks.{mutate_delete}
use http_tunnels.Api.{TunnelRecord}
use http_tunnels.Pages.Deletion.{
  DeleteEvent, select, open_changed, confirmed, succeeded, failed, Selected, delete_step,
  delete_run, deleting_id, DialogPrimitive, click_action, delete_dialog,
}

module _ (message : String) where
  -- A step that sends a deletion is a confirmation, with the tunnel of that id selected.
  pub delete_step-mutate_delete :
      (selected : Selected) (e : DeleteEvent) (id : String)
      → In (mutate_delete id) (delete_step message selected e).1
      → (t : TunnelRecord) × (t.id ≡ id) × (selected ≡ some t) × (confirmed ≡ e)
  unfolding delete_step
  delete_step-mutate_delete none confirmed id m = elim m [ ]
  delete_step-mutate_delete (some t) confirmed id m =
      (t, elim m [ inl e ↦ cc | inr n ↦ absurd n ], refl, refl)
  delete_step-mutate_delete selected (select t) id m = elim m [ ]
  delete_step-mutate_delete selected (open_changed b) id m = elim m [ ]
  delete_step-mutate_delete selected succeeded id m = absurd (ground arith)
  delete_step-mutate_delete selected (failed error) id m = absurd (ground arith)

  -- If the dialog's action closes the dialog behind its handler, then a click on it sends the deletion of the
  -- selected tunnel and at once selects nothing: while the deletion is pending no row is marked as
  -- being deleted.
  pub click_action-unmarked :
      (d : DialogPrimitive) (t : TunnelRecord)
      → d.after_action ≡ false ∷ []
      → ((delete_run message (some t) (click_action d)).1 ≡ mutate_delete t.id ∷ [])
        × (deleting_id true (delete_run message (some t) (click_action d)).0 ≡ none)
  unfolding delete_run delete_step click_action deleting_id
  click_action-unmarked d t closes = rw closes (refl, refl)

-- The dialog's confirmation: to be clicked with a tunnel selected and no deletion pending.
abbrev pub confirmations : {A : Type 0} → (DeleteEvent → A) → Selected → Bool → List (List A)
confirmations on_delete none is_pending = []
confirmations on_delete (some t) is_pending =
    if is_pending then [] else (on_delete confirmed ∷ []) ∷ []

pub clicks-delete_dialog :
    {A : Type 0} (on_delete : DeleteEvent → A) (selected : Selected) (is_pending : Bool)
    → clicks (delete_dialog on_delete selected is_pending)
      ≡ confirmations on_delete selected is_pending
unfolding delete_dialog delete_tunnel_dialog
clicks-delete_dialog on_delete none is_pending = refl
clicks-delete_dialog on_delete (some t) true = refl
clicks-delete_dialog on_delete (some t) false = refl
