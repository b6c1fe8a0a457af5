-- ===== src/Pages/Deletion/Traces.antt =====
-- Which sequences of events send which deletions.
use http_tunnels.Prelude.{
  String, true, false, some, List, [], ◌∷◌, ◌++◌, ◌≡◌, refl, sym, ap, ◌∙◌, All, In, In-append-cases,
  In-append_right, inl, inr, ◌⊎◌, ◌↔◌,
}
use mathlib.Core.List.{append_assoc}
use http_tunnels.Hooks.{mutate_delete}
use http_tunnels.Api.{TunnelRecord}
use http_tunnels.Pages.Deletion.{
  DeleteEvent, select, open_changed, confirmed, succeeded, failed, Selected, delete_step,
  delete_run,
}
use http_tunnels.Pages.Deletion.Laws.{delete_step-mutate_delete}

-- The event leaves the selection as it is.
abbrev IsQuiet : DeleteEvent → Type 0
IsQuiet (select t) = ⊥
IsQuiet (open_changed true) = Unit
IsQuiet (open_changed false) = ⊥
IsQuiet confirmed = Unit
IsQuiet succeeded = ⊥
IsQuiet (failed e) = Unit

-- The tunnel was selected last, and its dialog has stayed open since.
abbrev Chosen : Selected → List DeleteEvent → TunnelRecord → Type 0
Chosen selected es t =
    ((selected ≡ some t) × All IsQuiet es)
    ⊎ ((before after : List DeleteEvent) × (es ≡ before ++ select t ∷ after) × All IsQuiet after)

-- Among the events is a confirmation, at a moment at which the tunnel of that id is chosen.
abbrev pub IsConfirmed : Selected → List DeleteEvent → String → Type 0
IsConfirmed selected es id =
    (before after : List DeleteEvent) × (t : TunnelRecord) × (es ≡ before ++ confirmed ∷ after)
    × Chosen selected before t
    × (t.id ≡ id)

module _ (message : String) where
  delete_run-append :
      (xs ys : List DeleteEvent) (s : Selected)
      → delete_run message s (xs ++ ys) ≡ (
        (delete_run message (delete_run message s xs).0 ys).0,
        (delete_run message s xs).1 ++ (delete_run message (delete_run message s xs).0 ys).1,
      )
  unfolding delete_run
  delete_run-append [] ys s = refl
  delete_run-append (x ∷ xs) ys s =
      rw (delete_run-append xs ys (delete_step message s x).0, append_assoc) refl

  delete_run_of_quiet :
      (es : List DeleteEvent) (s : Selected) → All IsQuiet es → (delete_run message s es).0 ≡ s
  unfolding delete_run delete_step
  delete_run_of_quiet [] s h = refl
  delete_run_of_quiet (select t ∷ es) s h = absurd h.0
  delete_run_of_quiet (open_changed true ∷ es) s h = delete_run_of_quiet es s h.1
  delete_run_of_quiet (open_changed false ∷ es) s h = absurd h.0
  delete_run_of_quiet (confirmed ∷ es) s h = delete_run_of_quiet es s h.1
  delete_run_of_quiet (succeeded ∷ es) s h = absurd h.0
  delete_run_of_quiet (failed e ∷ es) s h = delete_run_of_quiet es s h.1

  -- What is selected after the first event, and chosen, was chosen with it.
  Chosen-cons :
      (e : DeleteEvent) (es : List DeleteEvent) (s : Selected) (t : TunnelRecord)
      → Chosen (delete_step message s e).0 es t
      → Chosen s (e ∷ es) t
  unfolding delete_step
  Chosen-cons e es s t (inr (before, after, eq, quiet)) =
      inr (e ∷ before, after, ap (e ∷◌) eq, quiet)
  Chosen-cons (select u) es s t (inl (now, quiet)) = inr ([], es, cc, quiet)
  Chosen-cons (open_changed true) es s t (inl (now, quiet)) = inl (now, (tt, quiet))
  Chosen-cons (open_changed false) es s t (inl (now, quiet)) = cc
  Chosen-cons confirmed es s t (inl (now, quiet)) = inl (now, (tt, quiet))
  Chosen-cons succeeded es s t (inl (now, quiet)) = cc
  Chosen-cons (failed m) es s t (inl (now, quiet)) = inl (now, (tt, quiet))

  selected_of_Chosen :
      (es : List DeleteEvent) (s : Selected) (t : TunnelRecord)
      → Chosen s es t
      → (delete_run message s es).0 ≡ some t
  unfolding delete_run delete_step
  selected_of_Chosen es s t (inl (now, quiet)) = delete_run_of_quiet es s quiet ∙ now
  selected_of_Chosen es s t (inr (before, after, eq, quiet)) =
      ap (λ l. (delete_run message s l).0) eq
      ∙ ap (λ r. r.0) (delete_run-append before (select t ∷ after) s)
      ∙ delete_run_of_quiet after (some t) quiet

  delete_run-IsConfirmed_fwd :
      (es : List DeleteEvent) (s : Selected) (id : String)
      → In (mutate_delete id) (delete_run message s es).1
      → IsConfirmed s es id
  unfolding delete_run
  delete_run-IsConfirmed_fwd [] s id m = elim m [ ]
  delete_run-IsConfirmed_fwd (e ∷ es) s id m =
      elim (In-append-cases (mutate_delete id) (delete_step message s e).1 _ m) [
        | inl now ↦
            let (t, same, chosen, confirmation) = delete_step-mutate_delete message s e id now in
            ([], es, t, ap (λ x. x ∷ es) (sym confirmation), inl (chosen, tt), same)
        | inr later ↦
            let (before, after, t, eq, chosen, same) =
              delete_run-IsConfirmed_fwd es (delete_step message s e).0 id later in
            (e ∷ before, after, t, ap (e ∷◌) eq, Chosen-cons e before s t chosen, same)
      ]

  -- The page sends the deletion of a tunnel exactly when, somewhere among the events, the deletion
  -- is confirmed while that tunnel is the one selected last and its dialog has not been closed
  -- since, by the user or by a deletion that succeeded.
  pub delete_run-IsConfirmed :
      (es : List DeleteEvent) (s : Selected) (id : String)
      → In (mutate_delete id) (delete_run message s es).1 ↔ IsConfirmed s es id
  unfolding delete_run delete_step
  delete_run-IsConfirmed es s id = (
    delete_run-IsConfirmed_fwd es s id,
    λ (before, after, t, eq, chosen, same).
        rw
          (eq, delete_run-append before (confirmed ∷ after) s, selected_of_Chosen before s t chosen)
          (In-append_right (mutate_delete id) (delete_run message s before).1 _
            (inl (ap mutate_delete same))),
  )
