-- ===== src/Client/Requests.antt =====
-- The requests that the client serves, and its read loop: `App.readLoop` and the handlers under it
-- (internal/client/app.go), beside the goroutines of each request. A request is a place in memory,
-- since the loop and the goroutines hold on to it when it has left the table.
pub mod Runs
pub mod Keeps
pub mod Bodies
pub mod Streams
pub mod Panics
use http_tunnels.Prelude.{
  ℕ, zero, suc, ◌+◌, String, Bool, true, false, Option, none, some, List, [], ◌∷◌, ◌++◌, length,
  ltb, ◌==◌, ◌&&◌, if◌then◌else◌,
}
use http_tunnels.Prelude.Dict.{Dict, lookup, insert, erase}
use http_tunnels.Protocol.{
  FrameType, Frame, frame_of, ping, pong, request_start, request_body, request_end, request_cancel,
  websocket_text, websocket_binary, websocket_close, websocket_ping, websocket_pong,
}
use http_tunnels.Protocol.Scheduler.{
  FrameScheduler, enqueue_control, close, default_per_request_frame_queue,
}

-- `activeRequest`, with the chunks that `bodyPump` has taken from the channel.
pub record ActiveRequest : Type 0 where
  pub cancelled : Bool
  pub body_ch : List (List ℕ)
  pub body_closed : Bool
  pub pumped : List (List ℕ)
  pub ws_frame_ch : List Frame

abbrev new_request : ActiveRequest
new_request = record {
  cancelled = false;
  body_ch = [];
  body_closed = false;
  pumped = [];
  ws_frame_ch = [];
}

-- The channel is closed once; a further call does nothing.
abbrev pub close_body : ActiveRequest → ActiveRequest
close_body r = record r { body_closed = true }

abbrev cancel : ActiveRequest → ActiveRequest
cancel r = record r { cancelled = true }

-- `App`, with the requests in memory and the first place that is free.
pub record App : Type 0 where
  pub outbound : FrameScheduler
  pub done : Bool
  pub last_active : ℕ
  pub awaiting_pong : Bool
  pub requests : Dict ℕ
  pub memory : ℕ → ActiveRequest
  pub free : ℕ

abbrev pub update : App → ℕ → ActiveRequest → App
update a place r = record a { memory = λ n. if n == place then r else a.memory n }

-- The read loop: it reads frames, waits to send a chunk or a frame of a WebSocket, or has panicked
-- and taken the client with it.
pub data Loop : Type 0 where
  reading : App → Loop
  sending : App → ℕ → List ℕ → Loop
  forwarding : App → ℕ → Frame → Loop
  panicked : Loop

-- `select` over `request.bodyCh <- copied` and `<-a.done`. Where both can go on, it takes either:
-- `done_first` is its choice. A send on a closed channel panics.
unfoldable pub send_chunk : Bool → App → ℕ → List ℕ → Loop
send_chunk done_first a place chunk =
    let r = a.memory place in
    if a.done && done_first
    then reading a
    else if r.body_closed
    then panicked
    else if ltb (length r.body_ch) default_per_request_frame_queue
    then reading (update a place (record r { body_ch = r.body_ch ++ chunk ∷ [] }))
    else if a.done
    then reading a
    else sending a place chunk

pub send_frame : Bool → App → ℕ → Frame → Loop
send_frame done_first a place frame =
    let r = a.memory place in
    if a.done && done_first
    then reading a
    else if ltb (length r.ws_frame_ch) default_per_request_frame_queue
    then reading (update a place (record r { ws_frame_ch = r.ws_frame_ch ++ frame ∷ [] }))
    else if a.done
    then reading a
    else forwarding a place frame

-- A new request takes the place of one with its id, which goes on out of the table.
pub handle_request_start : App → Frame → App
handle_request_start a frame =
    let started = update a a.free new_request in
    record started { requests = insert frame.request_id a.free a.requests; free = suc a.free }

unfoldable pub body_to : Bool → App → Option ℕ → List ℕ → Loop
body_to done_first a none chunk = reading a
body_to done_first a (some place) [] = reading a
body_to done_first a (some place) (byte ∷ chunk) = send_chunk done_first a place (byte ∷ chunk)

unfoldable pub handle_request_body : Bool → App → Frame → Loop
handle_request_body done_first a frame =
    body_to done_first a (lookup frame.request_id a.requests) frame.chunk

pub end_at : App → Option ℕ → App
end_at a none = a
end_at a (some place) = update a place (close_body (a.memory place))

pub handle_request_end : App → Frame → App
handle_request_end a frame = end_at a (lookup frame.request_id a.requests)

-- `deleteRequest`
pub delete_request : App → String → App
delete_request a id = record (end_at a (lookup id a.requests)) { requests = erase id a.requests }

pub cancel_at : App → Option ℕ → App
cancel_at a none = a
cancel_at a (some place) = update a place (close_body (cancel (a.memory place)))

pub handle_request_cancel : App → Frame → App
handle_request_cancel a frame =
    delete_request (cancel_at a (lookup frame.request_id a.requests)) frame.request_id

pub frame_to : Bool → App → Option ℕ → Frame → Loop
frame_to done_first a none frame = reading a
frame_to done_first a (some place) frame = send_frame done_first a place frame

pub handle_websocket_frame : Bool → App → Frame → Loop
handle_websocket_frame done_first a frame =
    frame_to done_first a (lookup frame.request_id a.requests) frame

unfoldable pub frame_turn : Bool → FrameType → App → Frame → Loop
frame_turn done_first ping a frame =
    reading (record a { outbound = (enqueue_control a.outbound (some (frame_of pong ""))).1 })
frame_turn done_first pong a frame = reading (record a { awaiting_pong = false })
frame_turn done_first request_start a frame = reading (handle_request_start a frame)
frame_turn done_first request_body a frame = handle_request_body done_first a frame
frame_turn done_first request_end a frame = reading (handle_request_end a frame)
frame_turn done_first request_cancel a frame = reading (handle_request_cancel a frame)
frame_turn done_first websocket_text a frame = handle_websocket_frame done_first a frame
frame_turn done_first websocket_binary a frame = handle_websocket_frame done_first a frame
frame_turn done_first websocket_close a frame = handle_websocket_frame done_first a frame
frame_turn done_first websocket_ping a frame = handle_websocket_frame done_first a frame
frame_turn done_first websocket_pong a frame = handle_websocket_frame done_first a frame
frame_turn done_first _ a frame = reading a

unfoldable pub handle_frame : Bool → ℕ → App → Frame → Loop
handle_frame done_first now a frame =
    frame_turn done_first frame.type (record a { last_active = now }) frame

-- `App.Close`: each request of the table is cancelled, its body closed.
unfoldable close_each : App → Dict ℕ → App
close_each a [] = a
close_each a ((id, place) ∷ requests) = close_each (cancel_at a (some place)) requests

unfoldable pub close_app : App → App
unfolding close_each
close_app a =
    if a.done
    then a
    else record (close_each (record a { done = true; outbound = close a.outbound }) a.requests) {
      requests = [];
    }

-- `bodyPump` takes a chunk, and `proxyWebSocket` a frame.
pub pump : App → ℕ → List (List ℕ) → App
pump a place [] = a
pump a place (chunk ∷ rest) =
    let r = a.memory place in
    update a place (record r { body_ch = rest; pumped = r.pumped ++ chunk ∷ [] })

unfoldable pub take_frame : App → ℕ → List Frame → App
take_frame a place [] = a
take_frame a place (frame ∷ rest) = update a place (record (a.memory place) { ws_frame_ch = rest })
