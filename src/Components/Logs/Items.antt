-- ===== src/Components/Logs/Items.antt =====
-- The parts of the list of logs.
use http_tunnels.Prelude.{
  String, List, [], ◌∷◌, ◌++◌, map, ◌≡◌, refl, ap, ◌∙◌, Bool-cases, inl, inr, present,
}
use mathlib.Core.List.{append-nil}
use http_tunnels.Dom.{Node, kids, values_of, values_in}
use http_tunnels.Format.{Platform}
use http_tunnels.Api.{RequestResponseLog}
use http_tunnels.Components.Basic.{http_status_badge}
use http_tunnels.Components.Logs.{metadata_item, payload_section, log_item, request_log_list}

module _ (p : Platform) (A : Type 0) where
  values_of-log_item :
      (log : RequestResponseLog)
      → values_of {A = A} "AccordionItem" "value" (log_item p log) ≡ log.id ∷ []
  unfolding log_item metadata_item payload_section http_status_badge
  values_of-log_item log = elim (Bool-cases (present log.error_message)) [
    | inl e ↦ rw e refl
    | inr e ↦ rw e refl
  ]

  values_in-log_items :
      (logs : List RequestResponseLog)
      → values_in {A = A} "AccordionItem" "value" (kids (map (log_item p) logs))
        ≡ map (λ l. l.id) logs
  values_in-log_items [] = refl
  values_in-log_items (l ∷ ls) = rw (values_of-log_item l, values_in-log_items ls) refl

  -- The list of logs has one part to unfold for each log, in order, under the log's id, where its
  -- descriptions hold none.
  pub values_of-request_log_list :
      (logs : List RequestResponseLog) (title : String)
      (description empty_description : List (Node A))
      → values_in "AccordionItem" "value" (kids description) ≡ []
      → values_in "AccordionItem" "value" (kids empty_description) ≡ []
      → values_of "AccordionItem" "value"
          (request_log_list p logs title description empty_description)
        ≡ map (λ l. l.id) logs
  unfolding request_log_list
  values_of-request_log_list [] title description empty_description h k = rw k refl
  values_of-request_log_list (l ∷ ls) title description empty_description h k =
      rw h (ap (λ r. (r ++ []) ++ []) (values_in-log_items (l ∷ ls)) ∙ append-nil _ ∙ append-nil _)
