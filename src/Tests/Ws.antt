-- ===== src/Tests/Ws.antt =====
-- A session of the two WebSocket peers.
use http_tunnels.Prelude.{◌++◌, List, [], ◌∷◌, ◌≡◌, refl, codes, true, show_nat}
use http_tunnels.Ws.{Json, ClientEvent, opened, message, closed, error, text, includes, starts}
use http_tunnels.Ws.Session.{client_side, deliver_all, session_start}
use http_tunnels.Ws.Session.Laws.{three_rounds, deliver_all-ends}

abbrev events : List ClientEvent
events = opened ∷ message (text (codes "hi")) ∷ error (codes "reset") ∷ closed 1006 [] ∷ []

abbrev json : Json
json = record {
  health = λ port. codes (show_nat port);
  welcome = λ path. codes "welcome to " ++ path;
}

deliver_all-ends_example :
    deliver_all json
      (client_side ∷ client_side ∷ [] ++ three_rounds)
      (session_start json (codes "/ws"))
    ≡ record { client = record { done = true }; to_client = []; to_server = []; exited = 0 ∷ [] }
unfolding includes starts
deliver_all-ends_example = deliver_all-ends json (codes "/ws") refl (client_side ∷ client_side ∷ [])
