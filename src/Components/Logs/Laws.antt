-- ===== src/Components/Logs/Laws.antt =====
-- The logs hold nothing to click but the parts of their accordion.
use http_tunnels.Prelude.{String, List, [], ◌∷◌, ◌≡◌, Bool-cases, inl, inr, present}
use http_tunnels.Dom.{Node, clicks, clicks_of, kids, clicks_of-map_nil}
use http_tunnels.Format.{Platform}
use http_tunnels.Api.{RequestResponseLog, TunnelCreationLog}
use http_tunnels.Components.Basic.{http_status_badge}
use http_tunnels.Components.Logs.{
  metadata_item, payload_section, log_item, request_log_list, creation_item, recent_creation_list,
}

module _ (p : Platform) (A : Type 0) where
  clicks-log_item : (log : RequestResponseLog) → clicks {A = A} (log_item p log) ≡ []
  unfolding log_item metadata_item payload_section http_status_badge
  clicks-log_item log = elim (Bool-cases (present log.error_message)) [
    | inl e ↦ rw e
    | inr e ↦ rw e
  ]

  clicks-creation_item : (log : TunnelCreationLog) → clicks {A = A} (creation_item p log) ≡ []
  unfolding creation_item
  clicks-creation_item log = elim (Bool-cases (present log.error_message)) [
    | inl e ↦ rw e
    | inr e ↦ rw e
  ]

  pub clicks-recent_creation_list :
      (logs : List TunnelCreationLog) → clicks {A = A} (recent_creation_list p logs) ≡ []
  unfolding recent_creation_list
  clicks-recent_creation_list logs =
      rw (clicks_of-map_nil (creation_item p) logs clicks-creation_item)

  pub clicks-request_log_list :
      (logs : List RequestResponseLog) (title : String)
      (description empty_description : List (Node A))
      → clicks_of (kids description) ≡ []
      → clicks_of (kids empty_description) ≡ []
      → clicks (request_log_list p logs title description empty_description) ≡ []
  unfolding request_log_list metadata_item payload_section http_status_badge
  clicks-request_log_list [] title description empty_description h k = rw k
  clicks-request_log_list (l ∷ ls) title description empty_description h k =
      let rest = clicks_of-map_nil (log_item p) ls clicks-log_item in
      elim (Bool-cases (present l.error_message)) [
        | inl e ↦ rw (h, e, rest)
        | inr e ↦ rw (h, e, rest)
      ]
