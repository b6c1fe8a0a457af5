-- ===== src/Pages/ActivityDetail.antt =====
-- request-activity-detail-page.tsx of cmd/server/web/src/pages: one request.
use http_tunnels.Prelude.{
  String, Option, none, some, [], ◌∷◌, if◌then◌else◌, or_default, nonempty, ◌^^◌,
}
use http_tunnels.Dom.{Node, text, box, label, link}
use http_tunnels.Hooks.{Query, Key, key_text, loaded, Screen, redirect, shown}
use http_tunnels.Format.{Platform, format_date_time}
use http_tunnels.Api.{RequestResponseLog}
use http_tunnels.Api.Calls.{Call}
use http_tunnels.Api.Calls
use http_tunnels.Components.Basic.{crumb_to, crumb_here, page_header, titled_card}
use http_tunnels.Components.Logs.{request_log_detail_card}

-- The page has no handlers of its own.
abbrev NoEvent : Type 0
NoEvent = Unit {0}

unfoldable pub request_key : String → Key
request_key id = key_text "request-activity-detail" ∷ key_text id ∷ []

unfoldable pub request_call : String → Call
request_call id = Calls.request_activity_detail id

unfoldable pub request_item : String → String → Node NoEvent
request_item name value = box "div" (label "span" name ∷ label "span" value ∷ [])

module _ (p : Platform) where
  request_content : RequestResponseLog → Node NoEvent
  request_content log = box "div" (
      page_header ("Request " ^^ log.id)
        "Detailed request-response record captured by the server analytics pipeline."
        (crumb_to "Admin" "/admin"
          ∷ crumb_to "Request Activity" "/admin/request-activity"
          ∷ crumb_here log.id
          ∷ [])
        (box "Button" (link "/admin/request-activity" (text "Back to activity" ∷ []) ∷ []) ∷ [])
      ∷ box "div" (
          titled_card "Request metadata"
            (text "High-level metadata for the selected request record." ∷ [])
            (box "div" (
                request_item "Request ID" log.id
                ∷ request_item "Tunnel ID" log.tunnel_id
                ∷ request_item "Domain" log.domain
                ∷ request_item "Started at" (format_date_time p (some log.started_at))
                ∷ [])
              ∷ [])
          ∷ request_log_detail_card p log "Request details"
              "Inspect request and response metadata, captured headers, previews, and timing."
          ∷ [])
      ∷ [])

  unfoldable pub request_detail_page : Option String → Query RequestResponseLog → Screen NoEvent
  unfolding request_content
  request_detail_page request_id query =
      if nonempty (or_default request_id "")
      then shown (loaded query "The request detail page could not be loaded." request_content)
      else redirect "/admin/request-activity" none
