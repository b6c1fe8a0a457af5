-- ===== src/Tunnel/Connections/Serving.antt =====
-- Connections that come and go in any order.
use http_tunnels.Prelude.{ℕ, String, true, false, List, [], ◌∷◌, ◌≡◌, str_eq, All, ◌⊎◌}
use http_tunnels.Tunnel.Connections.{Step, sets, deletes}

-- A step that does not touch the entry of the domain.
abbrev pub LeavesDomain : String → Step → Type 0
LeavesDomain domain (sets c) = str_eq domain c.domain ≡ false
LeavesDomain domain (deletes c) = str_eq domain c.domain ≡ false
LeavesDomain domain _ = Unit

-- Somewhere in the steps the connection with this number enters the domain, and no later one of
-- them touches the entry.
abbrev pub EntersLast : String → ℕ → List Step → Type 0
EntersLast domain n [] = ⊥
EntersLast domain n (sets c ∷ steps) =
    ((str_eq domain c.domain ≡ true) × (c.number ≡ n) × All (LeavesDomain domain) steps)
    ⊎ EntersLast domain n steps
EntersLast domain n (_ ∷ steps) = EntersLast domain n steps
