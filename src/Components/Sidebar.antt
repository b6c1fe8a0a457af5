-- ===== src/Components/Sidebar.antt =====
-- app-sidebar.tsx of cmd/server/web/src/components: the console's navigation. Whether the sidebar
-- is collapsed, and the toggle, are those of components/ui/sidebar.
pub mod Laws
use http_tunnels.Prelude.{
  String, Bool, true, false, not, List, [], ◌∷◌, ◌++◌, map, if◌then◌else◌, str_eq, starts_with,
}
use http_tunnels.Dom.{Node, text, el, prop, flag, on_click, kids, box, label, link, when}

pub record MenuItem : Type 0 where
  pub title : String
  pub href : String
  pub icon : String

abbrev item : String → String → String → MenuItem
item title href icon = record { title = title; href = href; icon = icon }

abbrev pub menu_items : List MenuItem
menu_items =
    item "Dashboard" "/admin" "LayoutDashboardIcon"
    ∷ item "Active Subdomain" "/admin/tunnels" "ActivityIcon"
    ∷ item "Request Activity" "/admin/request-activity" "FileClockIcon"
    ∷ []

-- The item is highlighted at this path.
abbrev pub is_active : String → MenuItem → Bool
is_active pathname i =
    if str_eq i.href "/admin" then str_eq pathname "/admin" else starts_with pathname i.href

pub data SidebarEvent : Type 0 where
  toggle : SidebarEvent

menu_item : String → MenuItem → Node SidebarEvent
menu_item pathname i = box "SidebarMenuItem" (
    el "SidebarMenuButton" (flag "isActive" (is_active pathname i) ∷ prop "tooltip" i.title ∷ [])
      (kids (link i.href (box i.icon [] ∷ label "span" i.title ∷ []) ∷ []))
    ∷ [])

header : Bool → Node SidebarEvent
header is_collapsed =
    if is_collapsed
    then el "Button" (on_click (toggle ∷ []) ∷ [])
        (kids (box "ActivityIcon" [] ∷ label "span" "Expand sidebar" ∷ []))
    else link "/admin" (
        box "div" (box "ActivityIcon" [] ∷ [])
        ∷ box "div" (label "span" "HTTP Tunnels" ∷ label "span" "Admin Console" ∷ [])
        ∷ [])

footer : Node SidebarEvent
footer = box "SidebarFooter" (
    box "div" (
      box "Avatar" (label "AvatarFallback" "AU" ∷ [])
      ∷ box "div" (label "span" "Admin User Profile" ∷ label "span" "Tunnel administrator" ∷ [])
      ∷ el "a" (prop "href" "/admin/auth/logout" ∷ [])
          (kids (box "LogOutIcon" [] ∷ label "span" "Logout" ∷ []))
      ∷ [])
    ∷ [])

unfoldable pub app_sidebar : String → Bool → Node SidebarEvent
unfolding header menu_item footer
app_sidebar pathname is_collapsed = el "Sidebar" (prop "collapsible" "icon" ∷ []) (
    kids (
      box "SidebarHeader" (header is_collapsed ∷ [])
        ∷ box "SidebarSeparator" []
        ∷ box "SidebarContent" (
            box "SidebarGroup" (
              label "SidebarGroupLabel" "Navigation"
              ∷ box "SidebarGroupContent"
                  (box "SidebarMenu" (map (menu_item pathname) menu_items) ∷ [])
              ∷ [])
            ∷ [])
        ∷ when (not is_collapsed) (box "SidebarSeparator" [] ∷ [])
      ++ when (not is_collapsed) (footer ∷ [])))
