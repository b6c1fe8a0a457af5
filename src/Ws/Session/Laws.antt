-- ===== src/Ws/Session/Laws.antt =====
-- Every session ends.
use http_tunnels.Prelude.{
  ℕ, true, false, List, [], ◌∷◌, ◌++◌, ◌≡◌, refl, ap, ◌∙◌, ◌⊎◌, inl, inr, codes,
}
use http_tunnels.Ws.{text, starts, includes, new_client, client_step, Json, server_step}
use http_tunnels.Ws.Session.{
  Frame, data_frame, close_frame, Session, Side, client_side, server_side, deliver, deliver_all,
  session_start,
}

-- How far a session is.
data Phase : Type 0 where
  greeting welcomed echoed waiting closing answered ended : Phase

abbrev next : Side → Phase → Phase
next client_side greeting = welcomed
next server_side greeting = echoed
next server_side welcomed = waiting
next client_side echoed = waiting
next client_side waiting = closing
next server_side closing = answered
next client_side answered = ended
next _ phase = phase

abbrev next_all : List Side → Phase → Phase
next_all [] phase = phase
next_all (side ∷ sides) phase = next_all sides (next side phase)

-- Three rounds, in each of which the server and then the client receives a frame.
abbrev pub three_rounds : List Side
three_rounds =
    server_side ∷ client_side ∷ server_side ∷ client_side ∷ server_side ∷ client_side ∷ []

next_all-three_rounds : (phase : Phase) → next_all three_rounds phase ≡ ended
next_all-three_rounds greeting = refl
next_all-three_rounds welcomed = refl
next_all-three_rounds echoed = refl
next_all-three_rounds waiting = refl
next_all-three_rounds closing = refl
next_all-three_rounds answered = refl
next_all-three_rounds ended = refl

abbrev hello : Frame
hello = data_frame (text (codes "hello"))

abbrev echo : Frame
echo = data_frame (text (codes "echo:hello"))

abbrev goodbye : Frame
goodbye = close_frame 1000 (codes "done")

abbrev running : List Frame → List Frame → Session
running to_client to_server = record {
  client = new_client;
  to_client = to_client;
  to_server = to_server;
  exited = [];
}

module _ (json : Json) (url : List ℕ) where
  abbrev greeted : Frame
  greeted = data_frame (text (json.welcome url))

  abbrev session_at : Phase → Session
  session_at greeting = running (greeted ∷ []) (hello ∷ [])
  session_at welcomed = running [] (hello ∷ [])
  session_at echoed = running (greeted ∷ echo ∷ []) []
  session_at waiting = running (echo ∷ []) []
  session_at closing = running [] (goodbye ∷ [])
  session_at answered = running (goodbye ∷ []) []
  session_at ended = record {
    client = record { done = true };
    to_client = [];
    to_server = [];
    exited = 0 ∷ [];
  }

  module _ (plain : includes (json.welcome url) (codes "echo:hello") ≡ false) where
    deliver-session_at :
        (side : Side) (phase : Phase)
        → deliver json side (session_at phase) ≡ session_at (next side phase)
    unfolding deliver client_step server_step includes starts
    deliver-session_at client_side greeting = rw plain refl
    deliver-session_at client_side welcomed = refl
    deliver-session_at client_side echoed = rw plain refl
    deliver-session_at client_side waiting = refl
    deliver-session_at client_side closing = refl
    deliver-session_at client_side answered = refl
    deliver-session_at client_side ended = refl
    deliver-session_at server_side greeting = refl
    deliver-session_at server_side welcomed = refl
    deliver-session_at server_side echoed = refl
    deliver-session_at server_side waiting = refl
    deliver-session_at server_side closing = refl
    deliver-session_at server_side answered = refl
    deliver-session_at server_side ended = refl

    deliver_all-session_at :
        (sides : List Side) (phase : Phase)
        → deliver_all json sides (session_at phase) ≡ session_at (next_all sides phase)
    unfolding deliver_all
    deliver_all-session_at [] phase = refl
    deliver_all-session_at (side ∷ sides) phase =
        rw (deliver-session_at side phase) (deliver_all-session_at sides (next side phase))

    next_all-append :
        (xs ys : List Side) (phase : Phase)
        → next_all (xs ++ ys) phase ≡ next_all ys (next_all xs phase)
    next_all-append [] ys phase = refl
    next_all-append (x ∷ xs) ys phase = next_all-append xs ys (next x phase)

    -- If the welcome does not contain "echo:hello", then however the frames of the two sides
    -- interleave, three more rounds end the session: both sides have received all that was sent,
    -- and the client's process exits once, with code 0.
    pub deliver_all-ends :
        (sides : List Side)
        → deliver_all json (sides ++ three_rounds) (session_start json url) ≡ record {
          client = record { done = true };
          to_client = [];
          to_server = [];
          exited = 0 ∷ [];
        }
    unfolding session_start server_step client_step
    deliver_all-ends sides =
        deliver_all-session_at (sides ++ three_rounds) greeting
        ∙ ap session_at (
            next_all-append sides three_rounds greeting
            ∙ next_all-three_rounds (next_all sides greeting))

    -- If the welcome does not contain "echo:hello", then however the frames of the two sides
    -- interleave, at every moment the client's process has not exited, or both sides have received
    -- all that was sent and it has exited once, with code 0.
    pub deliver_all-exited-cases :
        (sides : List Side)
        → ((deliver_all json sides (session_start json url)).exited ≡ [])
          ⊎ (deliver_all json sides (session_start json url) ≡ record {
            client = record { done = true };
            to_client = [];
            to_server = [];
            exited = 0 ∷ [];
          })
    unfolding session_start server_step client_step
    deliver_all-exited-cases sides =
        split (next_all sides greeting) (deliver_all-session_at sides greeting)
      where
        split :
            {s : Session} (phase : Phase)
            → s ≡ session_at phase
            → (s.exited ≡ []) ⊎ (s ≡ session_at ended)
        split greeting e = inl (ap (λ r. r.exited) e)
        split welcomed e = inl (ap (λ r. r.exited) e)
        split echoed e = inl (ap (λ r. r.exited) e)
        split waiting e = inl (ap (λ r. r.exited) e)
        split closing e = inl (ap (λ r. r.exited) e)
        split answered e = inl (ap (λ r. r.exited) e)
        split ended e = inr e
