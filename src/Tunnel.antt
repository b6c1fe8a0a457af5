-- ===== src/Tunnel.antt =====
-- The server's end of a tunnel: the requests that wait for a client, the sessions of the clients,
-- and the frames that come in (internal/server).
pub mod Pending
pub mod Sessions
pub mod Sockets
pub mod Frames
pub mod Connections
pub mod Preview
use http_tunnels.Prelude.{String}
use http_tunnels.Prelude.Int.{ℤ}

-- The errors that a pending request can fail with.
pub data Fault : Type 0 where
  request_timeout connection_closed scheduler_gone : Fault
  read_error : String → Fault
  -- `requestError`
  request_error : ℤ → String → Fault
