-- ===== src/Tunnel/Sockets.antt =====
-- The WebSockets of users that run over a tunnel: internal/server/wsbridge.go, and the frames that
-- come before the bridge of their request (`bufferWebSocketFrame` and
-- `flushBufferedWebSocketFrames` of internal/server/handlers_tunnel.go).
pub mod Steps
pub mod Orders
pub mod Runs
pub mod Races
use http_tunnels.Prelude.{
  ℕ, zero, suc, ◌+◌, ◌*◌, String, Bool, true, false, ◌||◌, Option, none, some, List, [], ◌∷◌, ◌++◌,
  or_default, or_text, is_some, if◌then◌else◌, str_eq,
}
use http_tunnels.Prelude.Int.{ℤ, pos}
use http_tunnels.Prelude.Dict.{Dict, lookup, insert, erase}
use http_tunnels.Protocol.{
  FrameType, Frame, frame_of, websocket_text, websocket_binary, websocket_close, websocket_ping,
  websocket_pong,
}

-- The message types of the package gorilla/websocket.
pub data MessageType : Type 0 where
  text_message binary_message close_message ping_message pong_message other_message : MessageType

pub record UserMessage : Type 0 where
  pub type : MessageType
  pub data_ : List ℕ

-- What the package does: whether a write fails on an open connection that has had these
-- messages, the payload of a close, and the bytes of a text and the text of some bytes.
pub record Gorilla : Type 0 where
  pub fails : List UserMessage → UserMessage → Bool
  pub format_close_message : ℤ → String → List ℕ
  pub text_of : List ℕ → String

-- `WSBridge`, with what its user has been sent.
pub record Bridge : Type 0 where
  pub request_id : String
  pub done : Bool
  pub written : List UserMessage

abbrev pub new_bridge : String → Bridge
new_bridge request_id = record { request_id = request_id; done = false; written = [] }

abbrev close_bridge : Bridge → Bridge
close_bridge b = record b { done = true }

-- `CloseNormalClosure` and `CloseNoStatusReceived`
abbrev close_normal_closure : ℤ
close_normal_closure = pos 1000

abbrev close_no_status_received : ℤ
close_no_status_received = pos 1005

abbrev is_zero : ℤ → Bool
is_zero (pos zero) = true
is_zero _ = false

module _ (ws : Gorilla) where
  -- A write, which fails on a closed connection: whether it went out, and the bridge.
  unfoldable pub write_message : Bridge → UserMessage → Bool × Bridge
  write_message b m =
      if b.done || ws.fails b.written m
      then (false, b)
      else (true, record b { written = b.written ++ m ∷ [] })

  unfoldable pub write_or_close : Bridge → MessageType → List ℕ → Bridge
  write_or_close b type bytes =
      let (ok, written) = write_message b (record { type = type; data_ = bytes }) in
      if ok then written else close_bridge written

  -- The code and the text of a close that came through the tunnel.
  unfoldable pub close_payload : Frame → List ℕ
  close_payload frame =
      ws.format_close_message
        (if is_zero frame.ws_close_code then close_normal_closure else frame.ws_close_code)
        (or_text frame.ws_close_text frame.error)

  unfoldable pub forward_as : FrameType → Bridge → Frame → Bridge
  forward_as websocket_text b frame = write_or_close b text_message frame.chunk
  forward_as websocket_binary b frame = write_or_close b binary_message frame.chunk
  forward_as websocket_ping b frame = write_or_close b ping_message frame.chunk
  forward_as websocket_pong b frame = write_or_close b pong_message frame.chunk
  forward_as websocket_close b frame =
      close_bridge
        (write_message b (record { type = close_message; data_ = close_payload frame })).1
  forward_as _ b frame = b

  -- `ForwardTunnelToUser`
  unfoldable pub forward_tunnel_to_user : Bridge → Frame → Bridge
  forward_tunnel_to_user b frame = forward_as frame.type b frame

  pub forward_each : Bridge → List Frame → Bridge
  forward_each b [] = b
  forward_each b (frame ∷ frames) = forward_each (forward_tunnel_to_user b frame) frames

  -- The code and the text in the payload of a user's close.
  unfoldable pub close_of : List ℕ → ℤ × String
  close_of (high ∷ low ∷ []) = (pos (high * 256 + low), "")
  close_of (high ∷ low ∷ rest) = (pos (high * 256 + low), ws.text_of rest)
  close_of _ = (close_no_status_received, "")

  -- The frame that `forwardUserToTunnel` makes of a user's message.
  unfoldable pub frame_of_message : String → MessageType → List ℕ → Option Frame
  frame_of_message id text_message bytes =
      some (record (frame_of websocket_text id) { chunk = bytes })
  frame_of_message id binary_message bytes =
      some (record (frame_of websocket_binary id) { chunk = bytes })
  frame_of_message id ping_message bytes =
      some (record (frame_of websocket_ping id) { chunk = bytes })
  frame_of_message id pong_message bytes =
      some (record (frame_of websocket_pong id) { chunk = bytes })
  frame_of_message id close_message bytes =
      let (code, text) = close_of bytes in
      some (record (frame_of websocket_close id) {
        chunk = bytes;
        ws_close_code = code;
        ws_close_text = text;
      })
  frame_of_message id other_message bytes = none

-- The bridges and the frames that wait for one.
pub record Sockets : Type 0 where
  pub bridges : Dict Bridge
  pub buffer : Dict (List Frame)

pub buffer_frame : Sockets → Frame → Sockets
buffer_frame s frame =
    let id = frame.request_id in
    if str_eq id ""
    then s
    else record s { buffer = insert id (or_default (lookup id s.buffer) [] ++ frame ∷ []) s.buffer }

abbrev pub set_bridge : Sockets → String → Sockets
set_bridge s id = record s { bridges = insert id (new_bridge id) s.bridges }

-- `Delete` of the store: it closes the bridge, whose handler has ended.
abbrev pub delete_bridge : Sockets → String → Sockets
delete_bridge s id = record s { bridges = erase id s.bridges }

-- `a.wsBridges.Get(frame.GetRequestId())`: whether there is a bridge.
pub find_bridge : Sockets → Frame → Bool
find_bridge s frame = is_some (lookup frame.request_id s.bridges)

-- What the lock of the buffer covers in `flushBufferedWebSocketFrames`.
pub take_buffered : Sockets → String → List Frame × Sockets
take_buffered s id = (or_default (lookup id s.buffer) [], record s { buffer = erase id s.buffer })

module _ (ws : Gorilla) where
  abbrev forward_on : Sockets → String → Frame → Option Bridge → Sockets
  forward_on s id frame none = s
  forward_on s id frame (some b) = record s {
    bridges = insert id (forward_tunnel_to_user ws b frame) s.bridges;
  }

  -- A frame for the bridge of a request. One that has left the store is closed, and takes nothing.
  pub forward_to : Sockets → String → Frame → Sockets
  forward_to s id frame = forward_on s id frame (lookup id s.bridges)

  -- What the read loop does with a frame once it knows whether there is a bridge.
  pub hand_over : Sockets → Frame → Bool → Sockets
  hand_over s frame true = forward_to s frame.request_id frame
  hand_over s frame false = buffer_frame s frame

  -- The read loop of the tunnel on a WebSocket frame, with no step of a handler in between (Steps
  -- has them apart).
  pub socket_frame : Sockets → Frame → Sockets
  socket_frame s frame = hand_over s frame (find_bridge s frame)
