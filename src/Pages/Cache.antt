-- ===== src/Pages/Cache.antt =====
-- The cache of react-query: the key and the call of each query that the pages make.
use http_tunnels.Prelude.{String, List, [], ◌∷◌, ◌++◌, ◌≡◌, refl, In, ◌↔◌, ◌⊎◌, inl, inr}
use http_tunnels.Hooks.{Effect, invalidate, Key, KeyPart, key_text}
use http_tunnels.Api.Calls.{Call}
use http_tunnels.Api.Calls
use http_tunnels.Pages.Deletion.{Selected, delete_step, succeeded}
use http_tunnels.Pages.Tunnels.{TunnelsState, tunnels_key, tunnels_call}
use http_tunnels.Pages.Dashboard.{DashboardState, dashboard_key, dashboard_call}
use http_tunnels.Pages.TunnelDetail.{DetailState, detail_key, detail_call}
use http_tunnels.Pages.Activity.{ActivityState, activity_key, activity_call}
use http_tunnels.Pages.ActivityDetail.{request_key, request_call}

-- The queries, each of a page in a state.
pub data PageQuery : Type 0 where
  session : PageQuery
  tunnels : TunnelsState → PageQuery
  dashboard : DashboardState → PageQuery
  detail : String → DetailState → PageQuery
  activity : ActivityState → PageQuery
  activity_detail : String → PageQuery

pub key : PageQuery → Key
key session = key_text "admin-session" ∷ []
key (tunnels s) = tunnels_key s
key (dashboard s) = dashboard_key s
key (detail id s) = detail_key id s
key (activity s) = activity_key s
key (activity_detail id) = request_key id

pub call : PageQuery → Call
call session = Calls.session
call (tunnels s) = tunnels_call s
call (dashboard s) = dashboard_call s
call (detail id s) = detail_call id s
call (activity s) = activity_call s
call (activity_detail id) = request_call id

-- Two queries with one key make the same call: no page is shown what another call fetched.
call_of_key : (q r : PageQuery) → key q ≡ key r → call q ≡ call r
unfolding key call tunnels_key tunnels_call dashboard_key dashboard_call detail_key detail_call
    activity_key activity_call request_key request_call
call_of_key session session h = refl
call_of_key (tunnels s) (tunnels t) h = cc
call_of_key (dashboard s) (dashboard t) h = cc
call_of_key (detail id s) (detail id' t) h = cc
call_of_key (activity s) (activity t) h = cc
call_of_key (activity_detail id) (activity_detail id') h = cc
call_of_key _ _ h = cc

-- The key extends one that the effects invalidate.
abbrev IsInvalidated : List Effect → PageQuery → Type 0
IsInvalidated effects q = (k : Key) × In (invalidate k) effects × (rest : Key) × (key q ≡ k ++ rest)

abbrev ShowsLists : PageQuery → Type 0
ShowsLists (tunnels s) = Unit
ShowsLists (dashboard s) = Unit
ShowsLists _ = ⊥

module _ (message : String) (selected : Selected) where
  IsInvalidated-of_ShowsLists :
      (q : PageQuery) → ShowsLists q → IsInvalidated (delete_step message selected succeeded).1 q
  unfolding key delete_step tunnels_key dashboard_key
  IsInvalidated-of_ShowsLists (tunnels s) h =
      (key_text "tunnels" ∷ [], inr (inr (inl refl)), _, refl)
  IsInvalidated-of_ShowsLists (dashboard s) h = (key_text "dashboard" ∷ [], inr (inl refl), _, refl)
  IsInvalidated-of_ShowsLists session h = absurd h
  IsInvalidated-of_ShowsLists (detail id s) h = absurd h
  IsInvalidated-of_ShowsLists (activity s) h = absurd h
  IsInvalidated-of_ShowsLists (activity_detail id) h = absurd h

  key_of_invalidated :
      (k : Key)
      → In (invalidate k) (delete_step message selected succeeded).1
      → (k ≡ key_text "dashboard" ∷ []) ⊎ (k ≡ key_text "tunnels" ∷ [])
  unfolding delete_step
  key_of_invalidated k (inl e) = cc
  key_of_invalidated k (inr (inl e)) = inl (cc)
  key_of_invalidated k (inr (inr (inl e))) = inr (cc)
  key_of_invalidated k (inr (inr (inr n))) = absurd n

  head_of_invalidated :
      (h : KeyPart) (ks k rest : Key)
      → h ∷ ks ≡ k ++ rest
      → In (invalidate k) (delete_step message selected succeeded).1
      → (h ≡ key_text "dashboard") ⊎ (h ≡ key_text "tunnels")
  head_of_invalidated h ks k rest e m = elim (key_of_invalidated k m) [
    | inl d ↦ inl (cc (rw d at e))
    | inr t ↦ inr (cc (rw t at e))
  ]

  ShowsLists-of_invalidated :
      (q : PageQuery) → IsInvalidated (delete_step message selected succeeded).1 q → ShowsLists q
  unfolding key delete_step tunnels_key dashboard_key detail_key activity_key request_key
  ShowsLists-of_invalidated (tunnels s) h = tt
  ShowsLists-of_invalidated (dashboard s) h = tt
  ShowsLists-of_invalidated session (k, m, rest, e) = elim (head_of_invalidated _ _ k rest e m) [
    | inl x ↦ cc
    | inr y ↦ cc
  ]
  ShowsLists-of_invalidated (detail id s) (k, m, rest, e) =
      elim (head_of_invalidated _ _ k rest e m) [ inl x ↦ cc | inr y ↦ cc ]
  ShowsLists-of_invalidated (activity s) (k, m, rest, e) =
      elim (head_of_invalidated _ _ k rest e m) [ inl x ↦ cc | inr y ↦ cc ]
  ShowsLists-of_invalidated (activity_detail id) (k, m, rest, e) =
      elim (head_of_invalidated _ _ k rest e m) [ inl x ↦ cc | inr y ↦ cc ]

-- A successful deletion invalidates the key of every list of tunnels, the page of tunnels and the
-- dashboard in any state, and no other query of the pages.
IsInvalidated-iff :
    (message : String) (selected : Selected) (q : PageQuery)
    → IsInvalidated (delete_step message selected succeeded).1 q ↔ ShowsLists q
IsInvalidated-iff message selected q =
    (ShowsLists-of_invalidated message selected q, IsInvalidated-of_ShowsLists message selected q)
