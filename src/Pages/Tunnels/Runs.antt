-- ===== src/Pages/Tunnels/Runs.antt =====
-- Sequences of events on the page of tunnels: the deletion and the turning of pages do not disturb
-- each other.
use http_tunnels.Prelude.{ℕ, List, [], ◌∷◌, ◌++◌, ◌≡◌, refl}
use http_tunnels.Hooks.{Effect}
use http_tunnels.Pages.Deletion.{DeleteEvent, delete_step, delete_run}
use http_tunnels.Pages.Tunnels.{TunnelsState, TunnelsEvent, set_page, delete, tunnels_step}

-- All that a sequence of events leads to.
tunnels_run : TunnelsState → List TunnelsEvent → TunnelsState × List Effect
tunnels_run s [] = (s, [])
tunnels_run s (e ∷ es) =
    let (s', now) = tunnels_step s e in let (s'', later) = tunnels_run s' es in (s'', now ++ later)

-- The events of the deletion among those of the page.
abbrev deletions : List TunnelsEvent → List DeleteEvent
deletions [] = []
deletions (delete e ∷ es) = e ∷ deletions es
deletions (set_page n ∷ es) = deletions es

-- The page that was asked for last.
abbrev last_page : ℕ → List TunnelsEvent → ℕ
last_page page [] = page
last_page page (delete e ∷ es) = last_page page es
last_page page (set_page n ∷ es) = last_page n es

-- A session of the page is one of the deletion beside one of the page controls: its effects and the
-- selected tunnel are those of the events of the deletion alone, and its page is the one that
-- was asked for last.
tunnels_run-delete_run :
    (es : List TunnelsEvent) (s : TunnelsState)
    → tunnels_run s es ≡ (
      record {
        page = last_page s.page es;
        selected = (delete_run "Tunnel deleted." s.selected (deletions es)).0;
      },
      (delete_run "Tunnel deleted." s.selected (deletions es)).1,
    )
unfolding tunnels_run tunnels_step delete_run
tunnels_run-delete_run [] s = refl
tunnels_run-delete_run (set_page n ∷ es) s =
    rw (tunnels_run-delete_run es (record s { page = n })) refl
tunnels_run-delete_run (delete e ∷ es) s =
    rw
      (tunnels_run-delete_run es
        (record s { selected = (delete_step "Tunnel deleted." s.selected e).0 }))
      refl
