-- ===== src/Tunnel/Sockets/Steps.antt =====
-- The read loop of a tunnel beside the handlers of its WebSockets
-- (internal/server/handlers_tunnel.go): what is done under one lock is a step, and the steps come in
-- any order.
use http_tunnels.Prelude.{String, Bool, Option, none, some, List, [], ◌∷◌, or_default}
use http_tunnels.Prelude.Dict.{Dict, lookup, insert}
use http_tunnels.Protocol.{Frame}
use http_tunnels.Tunnel.Sockets.{
  Gorilla, Sockets, set_bridge, delete_bridge, find_bridge, take_buffered, forward_to, hand_over,
}

-- The sockets, the frame that the read loop has in hand with whether it has found its bridge, and
-- the frames that each handler has taken from the buffer and not forwarded yet.
pub record Wires : Type 0 where
  pub sockets : Sockets
  pub found : Option (Frame × Bool)
  pub flushing : Dict (List Frame)

-- The read loop looks for the bridge of a frame, and puts the frame to the bridge or into the
-- buffer. A handler sets its bridge, takes the buffered frames, forwards them one by one, and ends.
pub data Step : Type 0 where
  looks : Frame → Step
  puts : Step
  sets takes forwards ends : String → Step

module _ (ws : Gorilla) where
  unfoldable pub look : Wires → Frame → Option (Frame × Bool) → Wires
  look w frame none = record w { found = some (frame, find_bridge w.sockets frame) }
  look w frame (some other) = w

  unfoldable pub put : Wires → Option (Frame × Bool) → Wires
  put w none = w
  put w (some (frame, bridged)) = record w {
    sockets = hand_over ws w.sockets frame bridged;
    found = none;
  }

  unfoldable pub forward_head : Wires → String → List Frame → Wires
  forward_head w id [] = w
  forward_head w id (frame ∷ frames) = record w {
    sockets = forward_to ws w.sockets id frame;
    flushing = insert id frames w.flushing;
  }

  unfoldable pub wire_step : Wires → Step → Wires
  wire_step w (looks frame) = look w frame w.found
  wire_step w puts = put w w.found
  wire_step w (sets id) = record w { sockets = set_bridge w.sockets id }
  wire_step w (takes id) =
      let (frames, sockets) = take_buffered w.sockets id in
      record w { sockets = sockets; flushing = insert id frames w.flushing }
  wire_step w (forwards id) = forward_head w id (or_default (lookup id w.flushing) [])
  wire_step w (ends id) = record w { sockets = delete_bridge w.sockets id }

  unfoldable pub wire_run : Wires → List Step → Wires
  wire_run w [] = w
  wire_run w (step ∷ steps) = wire_run (wire_step w step) steps

-- The read loop on frame after frame, with no other step between the two of a frame.
abbrev pub handled : List Frame → List Step
handled [] = []
handled (frame ∷ frames) = looks frame ∷ puts ∷ handled frames

-- The handler forwards the frames that it has taken.
abbrev pub forwarded : String → List Frame → List Step
forwarded id [] = []
forwarded id (frame ∷ frames) = forwards id ∷ forwarded id frames
