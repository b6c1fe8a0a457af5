-- ===== src/Components/Logs.antt =====
-- The logs: request-log-list.tsx, request-log-detail-card.tsx and recent-creation-list.tsx of
-- cmd/server/web/src/components.
pub mod Laws
pub mod Items
use http_tunnels.Prelude.{
  ℕ, ◌+◌, String, Bool, Option, none, some, List, [], ◌∷◌, ◌++◌, map, if◌then◌else◌, or_default,
  or_else, present, show_nat,
}
use http_tunnels.Dom.{Node, text, el, prop, kids, box, label, when}
use http_tunnels.Format.{
  Platform, finite, whole, format_bytes, format_date_time, format_duration_ms, format_status_class,
}
use http_tunnels.Api.{Headers, RequestResponseLog, TunnelCreationLog}
use http_tunnels.Components.Basic.{badge, card, titled_card, http_status_badge}

module _ {A : Type 0} where
  pub metadata_item : String → String → Node A
  metadata_item name value = box "div" (label "span" name ∷ label "span" value ∷ [])

  -- The message of a log that has one.
  abbrev error_box : Option String → List (Node A)
  error_box message = when (present message) (label "div" (or_default message "") ∷ [])

module _ (p : Platform) {A : Type 0} where
  pub payload_section : String → Option String → Option Headers → Option String → Node A
  payload_section title content_type headers preview = box "div" (
      box "div"
        (label "h3" title ∷ label "p" (or_else content_type "No content-type captured") ∷ [])
      ∷ label "pre" (p.stringify (or_default headers []))
      ∷ box "div" (
          label "span" "Preview"
          ∷ label "pre" (or_else preview "No text preview available for this payload.")
          ∷ [])
      ∷ [])

  -- What both views of a log end with: its times, its sizes and its two payloads.
  abbrev metadata : RequestResponseLog → Node A
  metadata log = box "div" (
      metadata_item "Started" (format_date_time p (some log.started_at))
      ∷ metadata_item "Completed" (format_date_time p log.completed_at)
      ∷ metadata_item "Request size" (format_bytes p (finite (whole log.request_bytes)))
      ∷ metadata_item "Response size" (format_bytes p (finite (whole log.response_bytes)))
      ∷ [])

  abbrev payloads : RequestResponseLog → Node A
  payloads log = box "div" (
      payload_section "Request" log.request_content_type log.request_headers log.request_preview
      ∷ payload_section "Response" log.response_content_type log.response_headers
          log.response_preview
      ∷ [])

  abbrev duration_and_size : RequestResponseLog → List (Node A)
  duration_and_size log =
      label "span" (format_duration_ms p (finite (whole log.duration_ms)))
      ∷ label "span" (format_bytes p (finite (whole (log.request_bytes + log.response_bytes))))
      ∷ []

  log_item : RequestResponseLog → Node A
  log_item log = el "AccordionItem" (prop "value" log.id ∷ []) (
      kids (
        box "AccordionTrigger" (
          box "div" (
            box "div" (label "span" log.method ∷ label "span" log.path ∷ [])
            ∷ box "div" (
                http_status_badge log.status_code
                ∷ label "span" (format_status_class log.status_code)
                ∷ duration_and_size log)
            ∷ [])
          ∷ [])
        ∷ box "AccordionContent" (
            box "div"
              (metadata log ∷ error_box log.error_message ++ box "Separator" [] ∷ payloads log ∷ [])
            ∷ [])
        ∷ []))

  -- `title` is the default; the descriptions are the caller's.
  pub request_log_list : List RequestResponseLog → String → List (Node A) → List (Node A) → Node A
  unfolding log_item
  request_log_list [] title description empty_description =
      titled_card title
        (text "Detailed logs will appear here when the tunnel starts receiving traffic." ∷ [])
        (box "Empty" (
            box "EmptyHeader" (
              box "EmptyMedia" (box "FileTextIcon" [] ∷ [])
              ∷ label "EmptyTitle" "No request logs yet"
              ∷ box "EmptyDescription" empty_description
              ∷ [])
            ∷ [])
          ∷ [])
  request_log_list (l ∷ ls) title description empty_description =
      titled_card title description
        (el "Accordion" (prop "type" "multiple" ∷ []) (kids (map log_item (l ∷ ls))) ∷ [])

  unfoldable pub request_log_detail_card : RequestResponseLog → String → String → Node A
  request_log_detail_card log title description = titled_card title (text description ∷ []) (
      box "div" (
        box "div" (
            box "div"
              (label "span" log.method ∷ label "span" log.path ∷ label "span" log.domain ∷ [])
            ∷ box "div" (http_status_badge log.status_code ∷ duration_and_size log)
            ∷ [])
          ∷ error_box log.error_message
        ++ metadata log ∷ box "Separator" [] ∷ payloads log ∷ [])
      ∷ [])

  creation_item : TunnelCreationLog → Node A
  creation_item log = box "div" (
      box "div" (
        box "div" (
          label "span" (or_else log.domain "Unknown domain")
          ∷ label "span" (or_else log.requested_subdomain "Random subdomain")
          ∷ [])
        ∷ badge (if log.success then "default" else "destructive")
            (if log.success then "Success" else "Failed")
        ∷ [])
      ∷ box "div" (
          label "span" (format_date_time p (some log.created_at))
          ∷ label "span" (or_else log.remote_addr "Unknown remote address")
          ∷ when (present log.error_message) (label "span" (or_default log.error_message "") ∷ []))
      ∷ [])

  pub recent_creation_list : List TunnelCreationLog → Node A
  unfolding creation_item
  recent_creation_list logs =
      titled_card "Recent tunnel creation requests"
        (text "Creation attempts are stored separately for analytics and auditing." ∷ [])
        (box "div" (map creation_item logs) ∷ [])
