-- ===== src/Client/Requests/Runs.antt =====
-- The read loop of the client beside the goroutines of its requests (internal/client/app.go), as
-- events in any order.
use http_tunnels.Prelude.{ℕ, String, Bool, false, some, List, [], ◌∷◌}
use http_tunnels.Protocol.{Frame}
use http_tunnels.Client.Requests.{
  App, Loop, reading, sending, forwarding, panicked, send_chunk, send_frame, handle_frame, pump,
  take_frame, end_at, delete_request, close_app,
}

-- A frame arrives; `bodyPump` takes a chunk; `proxyWebSocket` takes a frame; `proxyRequest` returns,
-- which closes the body of its request and then, as a step of its own, takes the request out of the
-- table; `App.Close` is called.
pub data Event : Type 0 where
  comes : Bool → ℕ → Frame → Event
  pumps takes ends : ℕ → Event
  deletes : String → Event
  closes : Event

abbrev pub others_step : App → Event → App
others_step a (comes done_first now frame) = a
others_step a (pumps place) = pump a place (a.memory place).body_ch
others_step a (takes place) = take_frame a place (a.memory place).ws_frame_ch
others_step a (ends place) = end_at a (some place)
others_step a (deletes id) = delete_request a id
others_step a closes = close_app a

-- A send that waits is tried again after each event, and given up when `App.Close` closes `done`,
-- which it does first.
unfoldable pub loop_step : Loop → Event → Loop
loop_step (reading a) (comes done_first now frame) = handle_frame done_first now a frame
loop_step (reading a) event = reading (others_step a event)
loop_step (sending a place chunk) closes = reading (close_app a)
loop_step (sending a place chunk) event = send_chunk false (others_step a event) place chunk
loop_step (forwarding a place frame) closes = reading (close_app a)
loop_step (forwarding a place frame) event = send_frame false (others_step a event) place frame
loop_step panicked event = panicked

unfoldable pub loop_run : Loop → List Event → Loop
loop_run l [] = l
loop_run l (event ∷ events) = loop_run (loop_step l event) events
