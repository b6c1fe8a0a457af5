-- ===== src/Tunnel/Frames.antt =====
-- The read loop of `handleTunnelWS` (internal/server/handlers_tunnel.go): what the server does with
-- each frame of a tunnel. A request that leaves the store goes on in the hands of its handler:
-- `left` holds these.
pub mod Objects
pub mod Bodies
pub mod Streams
pub mod Stuck
use http_tunnels.Prelude.{
  ℕ, zero, suc, ◌+◌, String, Bool, true, false, Option, none, some, List, [], ◌∷◌, ◌++◌, length,
  ltb, if◌then◌else◌, str_eq, or_default, is_some, first_of,
}
use http_tunnels.Prelude.Int.{ℤ}
use http_tunnels.Prelude.Dict.{Dict, lookup, insert, erase}
use http_tunnels.Protocol.{
  FrameType, Frame, frame_of, ping, pong, response_start, response_body, response_end,
  response_error, websocket_text, websocket_binary, websocket_close, websocket_ping, websocket_pong,
}
use http_tunnels.Tunnel.{Fault, request_error}
use http_tunnels.Tunnel.Pending.{
  PendingRequest, PendingStore, mark_response_started, close_body, offer, fail, get, remove,
}
use http_tunnels.Tunnel.Sessions.{TunnelSession, session_enqueue, mark_activity, ack_pong}
use http_tunnels.Tunnel.Sockets.{Gorilla, Sockets, socket_frame}

pub record Hub : Type 0 where
  pub session : TunnelSession
  pub pending : PendingStore
  pub left : Dict PendingRequest
  pub sockets : Sockets

-- Where the loop stands: it goes on, or it waits to send this chunk on the full `bodyCh` of the
-- request, or it has panicked at a send on a closed one.
pub data Turn : Type 0 where
  goes_on : Hub → Turn
  blocks : Hub → String → List ℕ → Turn
  panics : Hub → Turn

-- `DefaultPerRequestFrameQueue`, the capacity of `bodyCh`
abbrev body_capacity : ℕ
body_capacity = 16

-- The request, in the store or in the hands of its handler.
unfoldable pub object : Hub → String → Option PendingRequest
object hub id = first_of (get hub.pending id) (lookup id hub.left)

unfoldable pub put_object : Hub → String → PendingRequest → Hub
put_object hub id req =
    if is_some (get hub.pending id)
    then record hub {
      pending = record {
        requests = insert id req hub.pending.requests;
        timeout = hub.pending.timeout;
      };
    }
    else record hub { left = insert id req hub.left }

-- The request leaves the store, in this state.
abbrev pub release : Hub → String → PendingRequest → Hub
release hub id req = record hub { pending = remove hub.pending id; left = insert id req hub.left }

-- `req.bodyCh <- copied`
unfoldable pub send_chunk : Hub → String → PendingRequest → List ℕ → Turn
send_chunk hub id req [] = goes_on hub
send_chunk hub id req (byte ∷ chunk) =
    if req.body_closed
    then panics hub
    else if ltb (length req.body_ch) body_capacity
    then goes_on (put_object hub id (record req { body_ch = req.body_ch ++ (byte ∷ chunk) ∷ [] }))
    else blocks hub id (byte ∷ chunk)

pub answer : Frame → PendingRequest → PendingRequest
answer frame req = record (mark_response_started req) {
  response_ch =
      offer req.response_ch (record { status = frame.status; headers = frame.response_headers });
}

-- A response frame for a request that is in the store.
unfoldable pub response_turn : FrameType → Hub → Frame → PendingRequest → Turn
response_turn response_start hub frame req =
    goes_on (put_object hub frame.request_id (answer frame req))
response_turn response_body hub frame req = send_chunk hub frame.request_id req frame.chunk
response_turn response_end hub frame req = goes_on (release hub frame.request_id (close_body req))
response_turn response_error hub frame req =
    goes_on
      (release hub frame.request_id (fail req (some (request_error frame.status frame.error))))
response_turn _ hub frame req = goes_on hub

unfoldable pub respond : FrameType → Hub → Frame → Option PendingRequest → Turn
respond type hub frame none = goes_on hub
respond type hub frame (some req) = response_turn type hub frame req

-- A frame of which the session takes note, by its type.
unfoldable pub frame_turn : Gorilla → FrameType → Hub → Frame → Turn
frame_turn ws ping hub frame =
    goes_on (record hub { session = (session_enqueue hub.session (some (frame_of pong ""))).1 })
frame_turn ws pong hub frame = goes_on (record hub { session = ack_pong hub.session })
frame_turn ws response_start hub frame =
    respond response_start hub frame (get hub.pending frame.request_id)
frame_turn ws response_body hub frame =
    respond response_body hub frame (get hub.pending frame.request_id)
frame_turn ws response_end hub frame =
    respond response_end hub frame (get hub.pending frame.request_id)
frame_turn ws response_error hub frame =
    respond response_error hub frame (get hub.pending frame.request_id)
frame_turn ws websocket_text hub frame =
    goes_on (record hub { sockets = socket_frame ws hub.sockets frame })
frame_turn ws websocket_binary hub frame =
    goes_on (record hub { sockets = socket_frame ws hub.sockets frame })
frame_turn ws websocket_close hub frame =
    goes_on (record hub { sockets = socket_frame ws hub.sockets frame })
frame_turn ws websocket_ping hub frame =
    goes_on (record hub { sockets = socket_frame ws hub.sockets frame })
frame_turn ws websocket_pong hub frame =
    goes_on (record hub { sockets = socket_frame ws hub.sockets frame })
frame_turn ws _ hub frame = goes_on hub

unfoldable pub handle_frame : Gorilla → ℕ → Hub → Frame → Turn
handle_frame ws now hub frame =
    frame_turn ws frame.type (record hub { session = mark_activity hub.session now }) frame

-- The next chunk of the response's body, for the handler.
abbrev pub body_of : Option PendingRequest → List (List ℕ)
body_of none = []
body_of (some req) = req.body_ch

abbrev pub rest_of : List (List ℕ) → List (List ℕ)
rest_of [] = []
rest_of (chunk ∷ chunks) = chunks

unfoldable pub take_chunk : Hub → String → Option PendingRequest → Hub
take_chunk hub id none = hub
take_chunk hub id (some req) = put_object hub id (record req { body_ch = rest_of req.body_ch })

unfoldable pub read_chunk : Hub → String → Hub
read_chunk hub id = take_chunk hub id (object hub id)

-- The handler of the request returns: nobody reads its channel any more.
pub leave : Hub → String → Hub
leave hub id = record hub { pending = remove hub.pending id; left = erase id hub.left }

-- The send that the loop waits for: it goes on once the channel has room.
pub resend : Hub → String → List ℕ → Option PendingRequest → Turn
resend hub id chunk none = blocks hub id chunk
resend hub id chunk (some req) =
    if req.body_closed
    then panics hub
    else if ltb (length req.body_ch) body_capacity
    then goes_on (put_object hub id (record req { body_ch = req.body_ch ++ chunk ∷ [] }))
    else blocks hub id chunk

-- `req.Fail(err)`, by the goroutine that sends the request's body.
pub fail_with : Hub → String → Fault → Option PendingRequest → Hub
fail_with hub id err none = hub
fail_with hub id err (some req) = put_object hub id (fail req (some err))

pub fail_object : Hub → String → Fault → Hub
fail_object hub id err = fail_with hub id err (object hub id)

-- A frame arrives, a handler reads a chunk, a handler returns, a request fails. A request whose
-- handler has returned and whose own body has been sent does not fail any more.
pub data Event : Type 0 where
  comes : ℕ → Frame → Event
  reads leaves : String → Event
  fails : String → Fault → Event

unfoldable pub turn_step : Gorilla → Turn → Event → Turn
turn_step ws (goes_on hub) (comes now frame) = handle_frame ws now hub frame
turn_step ws (goes_on hub) (reads id) = goes_on (read_chunk hub id)
turn_step ws (goes_on hub) (leaves id) = goes_on (leave hub id)
turn_step ws (goes_on hub) (fails id err) = goes_on (fail_object hub id err)
turn_step ws (blocks hub id chunk) (comes now frame) = blocks hub id chunk
turn_step ws (blocks hub id chunk) (reads j) =
    let read = read_chunk hub j in resend read id chunk (object read id)
turn_step ws (blocks hub id chunk) (leaves j) = blocks (leave hub j) id chunk
turn_step ws (blocks hub id chunk) (fails j err) =
    let failed = fail_object hub j err in resend failed id chunk (object failed id)
turn_step ws (panics hub) event = panics hub

unfoldable pub turn_run : Gorilla → Turn → List Event → Turn
turn_run ws t [] = t
turn_run ws t (event ∷ events) = turn_run ws (turn_step ws t event) events
