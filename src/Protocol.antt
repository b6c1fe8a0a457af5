-- ===== src/Protocol.antt =====
-- The frames that a client and the server of a tunnel exchange (proto/frame.proto).
pub mod Scheduler
use http_tunnels.Prelude.{ℕ, String, Bool, List, [], Option, none}
use http_tunnels.Prelude.Int.{ℤ, pos}
use http_tunnels.Prelude.Dict.{Dict}

pub data FrameType : Type 0 where
  unspecified register registered request_start request_cancel ping pong : FrameType
  request_body request_end response_start response_body response_end response_error : FrameType
  websocket_text websocket_binary websocket_close websocket_ping websocket_pong : FrameType

pub record ReconnectConfig : Type 0 where
  pub enabled : Bool
  pub initial_delay_ms : ℤ
  pub max_delay_ms : ℤ
  pub max_retries : ℤ
  pub jitter : Bool

pub record TunnelConfig : Type 0 where
  pub max_concurrent : ℤ
  pub request_timeout_ms : ℤ
  pub backend_timeout_ms : ℤ
  pub reconnect : Option ReconnectConfig

pub record Frame : Type 0 where
  pub type : FrameType
  pub request_id : String
  pub method : String
  pub path : String
  pub headers : Dict (List String)
  pub content_length : ℤ
  pub status : ℤ
  pub response_headers : Dict (List String)
  pub chunk : List ℕ
  pub error : String
  pub domain : String
  pub domain_key : String
  pub tunnel_id : String
  pub server_message : String
  pub config : Option TunnelConfig
  pub ws_close_code : ℤ
  pub ws_close_text : String
  pub client_version : String

-- `&Frame{Type: type, RequestId: id}`
abbrev pub frame_of : FrameType → String → Frame
frame_of type id = record {
  type = type;
  request_id = id;
  method = "";
  path = "";
  headers = [];
  content_length = pos 0;
  status = pos 0;
  response_headers = [];
  chunk = [];
  error = "";
  domain = "";
  domain_key = "";
  tunnel_id = "";
  server_message = "";
  config = none;
  ws_close_code = pos 0;
  ws_close_text = "";
  client_version = "";
}
