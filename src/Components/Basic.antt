-- ===== src/Components/Basic.antt =====
-- The small components: status-badge.tsx, metric-card.tsx, page-header.tsx, page-loading.tsx,
-- pagination-controls.tsx and delete-tunnel-dialog.tsx of cmd/server/web/src/components.
pub mod Laws
use http_tunnels.Prelude.{
  ℕ, suc, ◌+◌, ◌-◌, String, Bool, true, false, not, Option, none, some, List, [], ◌∷◌, ◌++◌, map,
  ltb, leb, max, if◌then◌else◌, or_default, str_eq, same_text, lower_case, codes, show_nat, ◌^^◌,
}
use http_tunnels.Dom.{Node, text, el, prop, flag, on_click, on_open_change, kids, box, label, when}
use http_tunnels.Format.{format_status_class}
use http_tunnels.Api.{TunnelRecord}

module _ {A : Type 0} where
  abbrev pub badge : String → String → Node A
  badge variant s = el "Badge" (prop "variant" variant ∷ []) (kids (text s ∷ []))

  -- `<Card><CardHeader>…</CardHeader><CardContent>…</CardContent></Card>`
  abbrev pub card : List (Node A) → List (Node A) → Node A
  card header content = box "Card" (box "CardHeader" header ∷ box "CardContent" content ∷ [])

  abbrev pub titled_card : String → List (Node A) → List (Node A) → Node A
  titled_card title description content =
      card (label "CardTitle" title ∷ box "CardDescription" description ∷ []) content

abbrev status_variant : String → String
status_variant status_class =
    if str_eq status_class "2XX"
    then "default"
    else if str_eq status_class "3XX"
    then "secondary"
    else if str_eq status_class "4XX"
    then "outline"
    else "destructive"

abbrev state_variant : List ℕ → String
state_variant normalized =
    if same_text normalized (codes "active")
    then "default"
    else if same_text normalized (codes "pending")
    then "secondary"
    else if same_text normalized (codes "deleted")
    then "destructive"
    else "outline"

pub record BreadcrumbEntry : Type 0 where
  pub label : String
  pub href : Option String

abbrev pub crumb_to : String → String → BreadcrumbEntry
crumb_to name target = record { label = name; href = some target }

abbrev pub crumb_here : String → BreadcrumbEntry
crumb_here name = record { label = name; href = none }

-- The dialog's description.
delete_warning : Option TunnelRecord → String
delete_warning none = "This will remove the selected active tunnel from the admin side."
delete_warning (some tunnel) =
    "This will remove " ^^ tunnel.domain
    ^^ " from the admin side, close the active connection, and keep the recorded analytics history in the database."

module _ {A : Type 0} where
  unfoldable pub http_status_badge : ℕ → Node A
  http_status_badge status_code =
      badge (status_variant (format_status_class status_code)) (show_nat status_code)

  unfoldable pub tunnel_state_badge : String → Node A
  tunnel_state_badge state = badge (state_variant (lower_case state)) state

  unfoldable pub metric_card : String → String → String → String → Node A
  metric_card title value description icon =
      card
        (label "CardDescription" title
          ∷ box "CardTitle" (label "span" value ∷ box icon [] ∷ [])
          ∷ [])
        (label "p" description ∷ [])

  -- One breadcrumb; the list's last one is the page itself.
  crumb_nodes : BreadcrumbEntry → Bool → List (Node A)
  crumb_nodes crumb is_last =
      box "BreadcrumbItem" (
        (if is_last
          then label "BreadcrumbPage" crumb.label
          else el "BreadcrumbLink" (prop "href" (or_default crumb.href "#") ∷ [])
              (kids (text crumb.label ∷ [])))
        ∷ [])
      ∷ when (not is_last) (box "BreadcrumbSeparator" [] ∷ [])

  crumbs : List BreadcrumbEntry → List (Node A)
  crumbs [] = []
  crumbs (crumb ∷ []) = crumb_nodes crumb true
  crumbs (crumb ∷ next ∷ rest) = crumb_nodes crumb false ++ crumbs (next ∷ rest)

  unfoldable pub page_header : String → String → List BreadcrumbEntry → List (Node A) → Node A
  unfolding crumbs crumb_nodes
  page_header title description breadcrumbs actions = box "div" (
      box "Breadcrumb" (box "BreadcrumbList" (crumbs breadcrumbs) ∷ [])
      ∷ box "div" (box "div" (label "h1" title ∷ label "p" description ∷ []) ∷ actions)
      ∷ [])

  abbrev skeleton : Node A
  skeleton = box "Skeleton" []

  abbrev skeleton_card : Node A
  skeleton_card = box "Card" (box "CardHeader" (skeleton ∷ skeleton ∷ []) ∷ [])

  unfoldable pub page_loading : Node A
  page_loading = box "div" (
      skeleton_card
      ∷ box "div" (skeleton_card ∷ skeleton_card ∷ skeleton_card ∷ skeleton_card ∷ [])
      ∷ box "Card" (box "CardContent" (skeleton ∷ skeleton ∷ skeleton ∷ []) ∷ [])
      ∷ [])

  -- `onPageChange` is called with the page before, or the page behind, where there is one.
  pub pagination_controls : ℕ → ℕ → (ℕ → A) → Node A
  pagination_controls page total_pages on_page_change = box "Pagination" (
      box "PaginationContent" (
        box "PaginationItem" (
          el "PaginationPrevious"
            (prop "href" "#"
              ∷ flag "aria-disabled" (leb page 1)
              ∷ on_click (if ltb 1 page then on_page_change (page - 1) ∷ [] else [])
              ∷ [])
            (kids [])
          ∷ [])
        ∷ box "PaginationItem" (
            box "span" (
              text "Page "
              ∷ text (show_nat page)
              ∷ text " of "
              ∷ text (show_nat (max total_pages 1))
              ∷ [])
            ∷ [])
        ∷ box "PaginationItem" (
            el "PaginationNext"
              (prop "href" "#"
                ∷ flag "aria-disabled" (leb total_pages page)
                ∷ on_click (if ltb page total_pages then on_page_change (page + 1) ∷ [] else [])
                ∷ [])
              (kids [])
            ∷ [])
        ∷ [])
      ∷ [])

  unfoldable pub delete_tunnel_dialog :
      Option TunnelRecord → Bool → (Bool → List A) → List A → Bool → Node A
  unfolding delete_warning
  delete_tunnel_dialog tunnel opened on_open_changed on_confirm is_deleting =
      el "AlertDialog" (flag "open" opened ∷ on_open_change on_open_changed ∷ []) (
        kids (
          box "AlertDialogContent" (
            box "AlertDialogHeader" (
              label "AlertDialogTitle" "Delete active tunnel"
              ∷ label "AlertDialogDescription" (delete_warning tunnel)
              ∷ [])
            ∷ box "AlertDialogFooter" (
                el "AlertDialogCancel" (flag "disabled" is_deleting ∷ [])
                  (kids (text "Cancel" ∷ []))
                ∷ el "AlertDialogAction" (on_click on_confirm ∷ flag "disabled" is_deleting ∷ [])
                    (kids (text (if is_deleting then "Deleting..." else "Delete") ∷ []))
                ∷ [])
            ∷ [])
          ∷ []))
