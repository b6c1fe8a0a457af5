-- ===== src/Ws/Session.antt =====
-- A session of the client with the server, over a connection that delivers in order on each side
-- and answers a close with a close, as the package ws does.
pub mod Laws
use http_tunnels.Prelude.{
  ℕ, zero, suc, ◌+◌, ◌*◌, Bool, true, false, ◌||◌, List, [], ◌∷◌, ◌++◌, ◌≡◌, refl, ap, sym, ◌∙◌,
  ◌⊎◌, inl, inr, if◌then◌else◌, codes,
}
use http_tunnels.Ws.{
  Message, text, starts, includes, ClientEvent, opened, message, closed, error, ClientEffect, log,
  log_error, send, close, exit_later, Client, new_client, client_step, Json, ServerEvent,
  connection, received, ServerEffect, sent, pong, server_step,
}
use http_tunnels.Ws.Laws.{exits}

-- What is on its way: a message, or the close of the connection.
pub data Frame : Type 0 where
  data_frame : Message → Frame
  close_frame : ℕ → List ℕ → Frame

pub record Session : Type 0 where
  pub client : Client
  pub to_client : List Frame
  pub to_server : List Frame
  pub exited : List ℕ

-- The frames that the effects of each end send.
abbrev client_frames : List ClientEffect → List Frame
client_frames [] = []
client_frames (send m ∷ effects) = data_frame m ∷ client_frames effects
client_frames (close code reason ∷ effects) = close_frame code reason ∷ client_frames effects
client_frames (e ∷ effects) = client_frames effects

abbrev server_frames : List ServerEffect → List Frame
server_frames [] = []
server_frames (sent m ∷ effects) = data_frame m ∷ server_frames effects
server_frames (e ∷ effects) = server_frames effects

abbrev client_event : Frame → ClientEvent
client_event (data_frame m) = message m
client_event (close_frame code reason) = closed code reason

pub data Side : Type 0 where
  client_side server_side : Side

-- The client handles an event.
abbrev handle : Session → ClientEvent → Session
handle s e =
    let (c, effects) = client_step s.client e in
    record s {
      client = c;
      to_server = s.to_server ++ client_frames effects;
      exited = s.exited ++ exits effects;
    }

module _ (json : Json) where
  abbrev answers : Frame → List Frame
  answers (data_frame m) = server_frames (server_step json (received m))
  answers (close_frame code reason) = close_frame code reason ∷ []

  -- One side receives its next frame, if there is one.
  pub deliver : Side → Session → Session
  deliver client_side s = elim s.to_client [
    | [] ↦ s
    | frame ∷ frames ↦ handle (record s { to_client = frames }) (client_event frame)
  ]
  deliver server_side s = elim s.to_server [
    | [] ↦ s
    | frame ∷ frames ↦ record s { to_server = frames; to_client = s.to_client ++ answers frame }
  ]

  pub deliver_all : List Side → Session → Session
  deliver_all [] s = s
  deliver_all (side ∷ sides) s = deliver_all sides (deliver side s)

  -- The connection has opened at that path.
  pub session_start : List ℕ → Session
  session_start url =
      handle
        (record {
          client = new_client;
          to_client = server_frames (server_step json (connection url));
          to_server = [];
          exited = [];
        })
        opened
