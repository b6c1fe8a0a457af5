-- ===== src/Pages/Activity.antt =====
-- request-activity-page.tsx of cmd/server/web/src/pages: the list of requests with its filters, of
-- which a draft is edited and applied.
pub mod Laws
pub mod Runs
use http_tunnels.Prelude.{ℕ, String, Bool, List, [], ◌∷◌, map, if◌then◌else◌, str_eq, or_text}
use http_tunnels.Dom.{Node, text, el, prop, on_click, on_submit, on_change, kids, box, label}
use http_tunnels.Hooks.{Query, Key, key_text, number, filters, loaded}
use http_tunnels.Format.{Platform}
use http_tunnels.Api.{RequestActivityFilters, RequestResponseLog, ListResponse}
use http_tunnels.Api.Calls.{Call}
use http_tunnels.Api.Calls
use http_tunnels.Components.Basic.{
  crumb_to, crumb_here, page_header, pagination_controls, titled_card,
}
use http_tunnels.Components.Tables.{request_activity_table}

abbrev pub page_size : ℕ
page_size = 15

abbrev default_filters : RequestActivityFilters
default_filters = record { search = ""; subdomain = ""; method = ""; status_class = "" }

abbrev methods : List String
methods = "GET" ∷ "POST" ∷ "PUT" ∷ "PATCH" ∷ "DELETE" ∷ "HEAD" ∷ "OPTIONS" ∷ []

abbrev status_classes : List String
status_classes = "2XX" ∷ "3XX" ∷ "4XX" ∷ "5XX" ∷ []

pub record ActivityState : Type 0 where
  pub page : ℕ
  pub draft : RequestActivityFilters
  pub applied : RequestActivityFilters

abbrev pub initial : ActivityState
initial = record { page = 1; draft = default_filters; applied = default_filters }

pub data ActivityEvent : Type 0 where
  edit_search edit_subdomain pick_method pick_status_class : String → ActivityEvent
  submit reset : ActivityEvent
  set_page : ℕ → ActivityEvent

-- The choice "all" of a select stands for no filter.
abbrev choice : String → String
choice value = if str_eq value "all" then "" else value

pub activity_step : ActivityState → ActivityEvent → ActivityState
activity_step s (edit_search v) = record s { draft = record s.draft { search = v } }
activity_step s (edit_subdomain v) = record s { draft = record s.draft { subdomain = v } }
activity_step s (pick_method v) = record s { draft = record s.draft { method = choice v } }
activity_step s (pick_status_class v) = record s {
  draft = record s.draft { status_class = choice v };
}
activity_step s submit = record s { page = 1; applied = s.draft }
activity_step s reset = record s { page = 1; draft = default_filters; applied = default_filters }
activity_step s (set_page n) = record s { page = n }

unfoldable pub activity_key : ActivityState → Key
activity_key s =
    key_text "request-activity" ∷ number s.page ∷ number page_size ∷ filters s.applied ∷ []

unfoldable pub activity_call : ActivityState → Call
activity_call s = Calls.list_request_activity s.page page_size s.applied

abbrev input : String → String → String → (String → ActivityEvent) → Node ActivityEvent
input id value placeholder event =
    el "Input"
      (prop "id" id
        ∷ prop "value" value
        ∷ on_change (λ v. event v ∷ [])
        ∷ prop "placeholder" placeholder
        ∷ [])
      (kids [])

abbrev field : String → String → Node ActivityEvent → Node ActivityEvent
field id name content = box "Field" (
    el "FieldLabel" (prop "htmlFor" id ∷ []) (kids (text name ∷ []))
    ∷ box "FieldContent" (content ∷ [])
    ∷ [])

abbrev option : String → String → Node ActivityEvent
option value name = el "SelectItem" (prop "value" value ∷ []) (kids (text name ∷ []))

abbrev select_box :
    String → String → String → List String → (String → ActivityEvent) → Node ActivityEvent
select_box id value all_name values event =
    el "Select" (prop "value" (or_text value "all") ∷ on_change (λ v. event v ∷ []) ∷ []) (
      kids (
        el "SelectTrigger" (prop "id" id ∷ [])
          (kids (el "SelectValue" (prop "placeholder" all_name ∷ []) (kids []) ∷ []))
        ∷ box "SelectContent"
            (box "SelectGroup" (option "all" all_name ∷ map (λ v. option v v) values) ∷ [])
        ∷ []))

filter_form : RequestActivityFilters → Node ActivityEvent
filter_form draft = el "form" (on_submit (submit ∷ []) ∷ []) (
    kids (
      box "FieldGroup" (
        field "request-activity-search" "Search" (
          input "request-activity-search" draft.search "Search by request ID, domain, or path"
            edit_search)
        ∷ [])
      ∷ box "FieldGroup" (
          field "request-activity-subdomain" "Subdomain" (
            input "request-activity-subdomain" draft.subdomain "Filter by subdomain" edit_subdomain)
          ∷ field "request-activity-method" "Method"
              (select_box "request-activity-method" draft.method "All methods" methods pick_method)
          ∷ field "request-activity-status" "Status class" (
              select_box "request-activity-status" draft.status_class "All status classes"
                status_classes pick_status_class)
          ∷ box "div" (
              el "Button" (prop "type" "submit" ∷ []) (kids (text "Apply filters" ∷ []))
              ∷ el "Button" (prop "type" "button" ∷ on_click (reset ∷ []) ∷ [])
                  (kids (box "RotateCcwIcon" [] ∷ text "Reset" ∷ []))
              ∷ [])
          ∷ [])
      ∷ []))

module _ (p : Platform) where
  activity_content : ActivityState → ListResponse RequestResponseLog → Node ActivityEvent
  unfolding filter_form
  activity_content s list = box "div" (
      page_header "Request Activity"
        "Review request-response traffic captured by the tunnel server across every subdomain."
        (crumb_to "Admin" "/admin" ∷ crumb_here "Request Activity" ∷ []) []
      ∷ box "div" (
          titled_card "Filters"
            (text "Filter by request path or domain, method, and status class." ∷ [])
            (filter_form s.draft ∷ [])
          ∷ request_activity_table p list.items
          ∷ pagination_controls list.page list.total_pages set_page
          ∷ [])
      ∷ [])

  pub activity_page : ActivityState → Query (ListResponse RequestResponseLog) → Node ActivityEvent
  unfolding activity_content
  activity_page s query =
      loaded query "The request activity page could not be loaded." (activity_content s)
