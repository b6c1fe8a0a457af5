-- ===== src/Components/Tables.antt =====
-- The tables: tunnel-table.tsx, request-activity-table.tsx and recent-request-table.tsx of
-- cmd/server/web/src/components.
pub mod Laws
pub mod Requests
use http_tunnels.Prelude.{
  ℕ, ◌+◌, String, Bool, false, Option, none, some, List, [], ◌∷◌, map, if◌then◌else◌, str_eq,
  or_else, ◌^^◌,
}
use http_tunnels.Dom.{Node, Attr, text, el, prop, flag, on_click, kids, box, label, link}
use http_tunnels.Format.{
  Platform, finite, whole, format_bytes, format_count, format_date_time, format_duration_from,
  format_duration_ms,
}
use http_tunnels.Api.{TunnelRecord, RequestResponseLog}
use http_tunnels.Components.Basic.{card, titled_card, http_status_badge, tunnel_state_badge}

-- `deletingId === tunnel.id`
abbrev pub is_id : Option String → String → Bool
is_id none id = false
is_id (some s) id = str_eq s id

abbrev pub tunnel_path : String → String
tunnel_path id = "/admin/tunnels/" ^^ id

abbrev pub request_path : String → String
request_path id = "/admin/request-activity/" ^^ id

module _ {A : Type 0} where
  abbrev cell : String → Node A
  cell s = label "TableCell" s

  abbrev heads : List String → Node A
  heads names = box "TableHeader" (box "TableRow" (map (label "TableHead") names) ∷ [])

  abbrev empty_box : String → String → String → List (Node A)
  empty_box icon title description =
      box "Empty" (
        box "EmptyHeader" (
          box "EmptyMedia" (box icon [] ∷ [])
          ∷ label "EmptyTitle" title
          ∷ label "EmptyDescription" description
          ∷ [])
        ∷ [])
      ∷ []

  abbrev table_box : List String → List (Node A) → List (Node A)
  table_box names rows = box "div" (box "Table" (heads names ∷ box "TableBody" rows ∷ []) ∷ []) ∷ []

  abbrev menu : List (Node A) → Node A
  menu items = box "DropdownMenu" (
      box "DropdownMenuTrigger"
        (box "Button" (box "MoreHorizontalIcon" [] ∷ label "span" "Open actions" ∷ []) ∷ [])
      ∷ box "DropdownMenuContent" (box "DropdownMenuGroup" items ∷ [])
      ∷ [])

module _ (p : Platform) {A : Type 0} where
  tunnel_row : (TunnelRecord → A) → Option String → TunnelRecord → Node A
  tunnel_row on_delete deleting_id tunnel = box "TableRow" (
      box "TableCell" (link (tunnel_path tunnel.id) (text tunnel.domain ∷ []) ∷ [])
      ∷ box "TableCell" (label "span" (or_else tunnel.client_version "unknown") ∷ [])
      ∷ cell (format_count p (some tunnel.request_count))
      ∷ cell (
          format_bytes p
            (finite (whole (tunnel.total_request_bytes + tunnel.total_response_bytes))))
      ∷ cell (format_duration_from p (some tunnel.created_at))
      ∷ box "TableCell" (tunnel_state_badge tunnel.state ∷ [])
      ∷ box "TableCell" (
          menu (
            box "DropdownMenuItem" (link (tunnel_path tunnel.id) (text "Details" ∷ []) ∷ [])
            ∷ el "DropdownMenuItem"
                (on_click (on_delete tunnel ∷ [])
                  ∷ flag "disabled" (is_id deleting_id tunnel.id)
                  ∷ [])
                (kids (text "Delete" ∷ []))
            ∷ [])
          ∷ [])
      ∷ [])

  tunnel_content : (TunnelRecord → A) → Option String → List TunnelRecord → List (Node A)
  tunnel_content on_delete deleting_id [] =
      empty_box "RouterIcon" "No active tunnels"
        "Connect a tunnel client to see active tunnel domains here."
  tunnel_content on_delete deleting_id (t ∷ ts) =
      table_box
        ("Subdomain" ∷ "Client version" ∷ "Requests recorded" ∷ "Data transferred" ∷ "Livetime"
          ∷ "Status" ∷ "Actions" ∷ [])
        (map (tunnel_row on_delete deleting_id) (t ∷ ts))

  pub tunnel_table :
      String → String → List TunnelRecord → (TunnelRecord → A) → Option String → Node A
  unfolding tunnel_content tunnel_row
  tunnel_table title description tunnels on_delete deleting_id =
      titled_card title (text description ∷ []) (tunnel_content on_delete deleting_id tunnels)

  -- The cells from the status to the start, which two of the tables share.
  abbrev measures : RequestResponseLog → List (Node A) → List (Node A)
  measures log rest =
      box "TableCell" (http_status_badge log.status_code ∷ [])
      ∷ cell (format_bytes p (finite (whole (log.request_bytes + log.response_bytes))))
      ∷ cell (format_duration_ms p (finite (whole log.duration_ms)))
      ∷ cell (format_date_time p (some log.started_at))
      ∷ rest

  activity_row : RequestResponseLog → Node A
  activity_row log = box "TableRow" (
      cell log.domain
      ∷ cell log.method
      ∷ cell log.path
      ∷ measures log (
          box "TableCell" (
            menu
              (box "DropdownMenuItem" (link (request_path log.id) (text "Details" ∷ []) ∷ []) ∷ [])
            ∷ [])
          ∷ []))

  activity_content : List RequestResponseLog → List (Node A)
  activity_content [] =
      empty_box "FileClockIcon" "No request activity found"
        "Adjust the filters or wait for new tunneled traffic to be recorded."
  activity_content (l ∷ ls) =
      table_box
        ("Domain" ∷ "Method" ∷ "Path" ∷ "Status" ∷ "Transferred" ∷ "Duration" ∷ "Started"
          ∷ "Actions" ∷ [])
        (map activity_row (l ∷ ls))

  pub request_activity_table : List RequestResponseLog → Node A
  unfolding activity_content activity_row
  request_activity_table logs =
      titled_card "Request activity"
        (text "All recorded request-response traffic for this server, across every tunnel." ∷ [])
        (activity_content logs)

  recent_row : RequestResponseLog → Node A
  recent_row request =
      box "TableRow" (cell request.method ∷ cell request.path ∷ measures request [])

  pub recent_request_table : List RequestResponseLog → Node A
  unfolding recent_row
  recent_request_table requests =
      titled_card "Recent request activity"
        (text "The latest request and response records captured by the tunnel server." ∷ [])
        (table_box ("Method" ∷ "Path" ∷ "Status" ∷ "Transferred" ∷ "Duration" ∷ "Started" ∷ [])
          (map recent_row requests))
