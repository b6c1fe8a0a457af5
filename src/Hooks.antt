-- ===== src/Hooks.antt =====
-- What the pages get from react-query and the router: the state of a query, the keys of the cache,
-- and the calls that a handler makes besides setting the page's state.
use http_tunnels.Prelude.{
  ℕ, String, Bool, Option, none, some, List, [], ◌∷◌, if◌then◌else◌, or_else,
}
use http_tunnels.Dom.{Node, box, label}
use http_tunnels.Api.{ChartRange, RequestActivityFilters}
use http_tunnels.Components.Basic.{page_loading}

-- The fields of a query that the pages read; `result` is the field `data`.
pub record Query (A : Type 0) : Type 0 where
  pub is_loading : Bool
  pub is_error : Bool
  pub error_message : Option String
  pub result : Option A

pub data KeyPart : Type 0 where
  key_text : String → KeyPart
  number : ℕ → KeyPart
  range : ChartRange → KeyPart
  filters : RequestActivityFilters → KeyPart

abbrev pub Key : Type 0
Key = List KeyPart

pub data Effect : Type 0 where
  toast_success toast_error : String → Effect
  invalidate : Key → Effect
  mutate_delete : String → Effect
  mutate_login : String → Effect
  fetch_session : Effect
  navigate : String → Effect

-- A page renders, or sends the browser elsewhere, with a path to come back to.
pub data Screen (A : Type 0) : Type 0 where
  redirect : String → Option String → Screen A
  shown : Node A → Screen A

module _ {A D : Type 0} where
  abbrev error_paragraph : Query D → String → Node A
  error_paragraph q fallback = box "div" (label "p" (or_else q.error_message fallback) ∷ [])

  -- The two guards that every page with a query begins with.
  abbrev pub loaded : Query D → String → (D → Node A) → Node A
  loaded q fallback content =
      if q.is_loading
      then page_loading
      else if q.is_error
      then error_paragraph q fallback
      else elim q.result [ none ↦ error_paragraph q fallback | some d ↦ content d ]
