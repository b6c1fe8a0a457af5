-- ===== src/Components/Tables/Laws.antt =====
-- What can be clicked in the table of tunnels, and where its links lead.
use http_tunnels.Prelude.{
  String, not, Option, List, [], ◌∷◌, ◌++◌, map, ◌≡◌, refl, flat_map, select, if◌then◌else◌,
  Bool-cases, inl, inr,
}
use mathlib.Core.List.{append-nil}
use http_tunnels.Dom.{clicks, clicks_of, targets, targets_of, kids}
use http_tunnels.Format.{Platform}
use http_tunnels.Api.{TunnelRecord}
use http_tunnels.Components.Basic.{tunnel_state_badge}
use http_tunnels.Components.Tables.{is_id, tunnel_path, tunnel_row, tunnel_table}

module _ (p : Platform) {A : Type 0} (on_delete : TunnelRecord → A) (deleting : Option String) where
  clicks-tunnel_row :
      (t : TunnelRecord)
      → clicks (tunnel_row p on_delete deleting t)
        ≡ (if is_id deleting t.id then [] else (on_delete t ∷ []) ∷ [])
  unfolding tunnel_row tunnel_state_badge
  clicks-tunnel_row t = simp append-nil

  -- The rows that can be deleted, each with the one call of its handler.
  abbrev pub deletable : List TunnelRecord → List (List A)
  deletable tunnels = map (λ t. on_delete t ∷ []) (select (λ t. not (is_id deleting t.id)) tunnels)

  deletable-cons :
      (t : TunnelRecord) (tunnels : List TunnelRecord)
      → (if is_id deleting t.id then [] else (on_delete t ∷ []) ∷ []) ++ deletable tunnels
        ≡ deletable (t ∷ tunnels)
  deletable-cons t tunnels = elim (Bool-cases (is_id deleting t.id)) [ inl e ↦ rw e | inr e ↦ rw e ]

  clicks-tunnel_rows :
      (tunnels : List TunnelRecord)
      → clicks_of (kids (map (tunnel_row p on_delete deleting) tunnels)) ≡ deletable tunnels
  clicks-tunnel_rows [] = refl
  clicks-tunnel_rows (t ∷ tunnels) =
      rw (clicks-tunnel_row t, clicks-tunnel_rows tunnels) (deletable-cons t tunnels)

  -- The clicks that the table takes are one for each tunnel, in the table's order, except for those being
  -- deleted: each calls `onDelete` with the tunnel of its row, and nothing else.
  pub clicks-tunnel_table :
      (title description : String) (tunnels : List TunnelRecord)
      → clicks (tunnel_table p title description tunnels on_delete deleting) ≡ deletable tunnels
  unfolding tunnel_table tunnel_state_badge
  clicks-tunnel_table title description [] = refl
  clicks-tunnel_table title description (t ∷ tunnels) =
      simp append-nil (rw (clicks-tunnel_rows tunnels) (deletable-cons t tunnels))

-- The links of a row: the name of the tunnel and the entry of its menu.
abbrev twice : String → List String
twice path = path ∷ path ∷ []

module _ (p : Platform) {A : Type 0} where
  targets-tunnel_row :
      (on_delete : TunnelRecord → A) (deleting : Option String) (t : TunnelRecord)
      → targets (tunnel_row p on_delete deleting t) ≡ twice (tunnel_path t.id)
  unfolding tunnel_row tunnel_state_badge
  targets-tunnel_row on_delete deleting t = simp append-nil

  flat_map-targets :
      (on_delete : TunnelRecord → A) (deleting : Option String) (tunnels : List TunnelRecord)
      → targets_of (kids (map (tunnel_row p on_delete deleting) tunnels))
        ≡ flat_map (λ t. twice (tunnel_path t.id)) tunnels
  flat_map-targets on_delete deleting [] = refl
  flat_map-targets on_delete deleting (t ∷ tunnels) =
      rw (targets-tunnel_row on_delete deleting t, flat_map-targets on_delete deleting tunnels)

  -- The table of tunnels links to the page of each of its tunnels, twice, in order, and to nothing
  -- else.
  pub targets-tunnel_table :
      (title description : String) (tunnels : List TunnelRecord) (on_delete : TunnelRecord → A)
      (deleting : Option String)
      → targets (tunnel_table p title description tunnels on_delete deleting)
        ≡ flat_map (λ t. twice (tunnel_path t.id)) tunnels
  unfolding tunnel_table tunnel_state_badge
  targets-tunnel_table title description [] on_delete deleting = refl
  targets-tunnel_table title description (t ∷ tunnels) on_delete deleting =
      simp append-nil (rw (flat_map-targets on_delete deleting tunnels))
