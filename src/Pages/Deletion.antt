-- ===== src/Pages/Deletion.antt =====
-- The deletion of a tunnel, which tunnels-page.tsx and dashboard-page.tsx of
-- cmd/server/web/src/pages write in the same way: a selected tunnel, the dialog that asks, and the
-- mutation. The toast of the success is the page's.
pub mod Laws
pub mod Traces
use http_tunnels.Prelude.{
  String, Bool, true, false, Option, none, some, List, [], ◌∷◌, ◌++◌, if◌then◌else◌, is_some,
}
use http_tunnels.Dom.{Node}
use http_tunnels.Hooks.{Effect, toast_success, toast_error, invalidate, mutate_delete, key_text}
use http_tunnels.Api.{TunnelRecord}
use http_tunnels.Components.Basic.{delete_tunnel_dialog}

pub data DeleteEvent : Type 0 where
  select : TunnelRecord → DeleteEvent
  open_changed : Bool → DeleteEvent
  confirmed : DeleteEvent
  succeeded : DeleteEvent
  failed : String → DeleteEvent

-- `selectedTunnel`
abbrev pub Selected : Type 0
Selected = Option TunnelRecord

abbrev pub refresh_lists : List Effect
refresh_lists = invalidate (key_text "dashboard" ∷ []) ∷ invalidate (key_text "tunnels" ∷ []) ∷ []

abbrev confirm : Selected → List Effect
confirm none = []
confirm (some tunnel) = mutate_delete tunnel.id ∷ []

unfoldable pub delete_step : String → Selected → DeleteEvent → Selected × List Effect
delete_step message selected (select tunnel) = (some tunnel, [])
delete_step message selected (open_changed opened) = (if opened then selected else none, [])
delete_step message selected confirmed = (selected, confirm selected)
delete_step message selected succeeded = (none, toast_success message ∷ refresh_lists)
delete_step message selected (failed error) = (selected, toast_error error ∷ [])

-- All that a sequence of events leads to.
unfoldable pub delete_run : String → Selected → List DeleteEvent → Selected × List Effect
delete_run message selected [] = (selected, [])
delete_run message selected (e ∷ es) =
    let (selected', now) = delete_step message selected e in
    let (selected'', later) = delete_run message selected' es in (selected'', now ++ later)

abbrev id_of : Selected → Option String
id_of none = none
id_of (some tunnel) = some tunnel.id

-- `deleteMutation.isPending ? selectedTunnel?.id : undefined`
pub deleting_id : Bool → Selected → Option String
deleting_id is_pending selected = if is_pending then id_of selected else none

module _ {A : Type 0} where
  pub delete_dialog : (DeleteEvent → A) → Selected → Bool → Node A
  delete_dialog on_delete selected is_pending =
      delete_tunnel_dialog selected (is_some selected)
        (λ opened. on_delete (open_changed opened) ∷ []) (on_delete confirmed ∷ []) is_pending

-- What the dialog primitive of components/ui/alert-dialog adds to a click on its action: the calls
-- of `onOpenChange` that it makes behind the handler.
pub record DialogPrimitive : Type 0 where
  pub after_action : List Bool

abbrev open_changes : List Bool → List DeleteEvent
open_changes [] = []
open_changes (b ∷ bs) = open_changed b ∷ open_changes bs

-- A click on the action of the dialog.
pub click_action : DialogPrimitive → List DeleteEvent
click_action d = confirmed ∷ open_changes d.after_action
