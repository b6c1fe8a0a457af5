-- ===== src/Tunnel/Sessions.antt =====
-- internal/server/tunnel.go: the sessions of the connected clients. Times are in nanoseconds.
pub mod Heartbeat
pub mod Limit
use http_tunnels.Prelude.{
  ℕ, zero, suc, ◌+◌, ◌-◌, ◌*◌, ◌%◌, String, Bool, true, false, not, ◌&&◌, Option, none, some, List,
  [], ◌∷◌, length, ltb, leb, if◌then◌else◌, str_eq,
}
use http_tunnels.Prelude.Int.{ℤ, pos, negsuc, add_one, subtract_one, lt_ℤ, ◌+ℤ◌}
use http_tunnels.Prelude.Dict.{Dict, lookup, insert, erase}
use http_tunnels.Protocol.{Frame, frame_of, ping}
use http_tunnels.Protocol.Scheduler
use http_tunnels.Protocol.Scheduler.{
  FrameScheduler, Outcome, returned, scheduler_closed, waits, new_frame_scheduler, enqueue_control,
}

abbrev pub second : ℕ
second = 1000000000

-- `DefaultPingPeriod` and `DefaultPongWait` of internal/protocol/frame.go
abbrev default_ping_period : ℕ
default_ping_period = 20 * second

abbrev pub default_pong_wait : ℕ
default_pong_wait = 60 * second

pub record TunnelSession : Type 0 where
  pub tunnel_id : String
  pub domain : String
  pub max_concurrent : ℤ
  -- an atomic int32
  pub active_count : ℤ
  pub outbound : FrameScheduler
  -- `done` is closed.
  pub done : Bool
  pub last_activity : ℕ
  pub awaiting_pong : Bool
  pub ping_sent_at : ℕ

unfoldable pub new_tunnel_session : String → String → ℤ → ℕ → TunnelSession
new_tunnel_session tunnel_id domain max_concurrent now = record {
  tunnel_id = tunnel_id;
  domain = domain;
  max_concurrent = max_concurrent;
  active_count = pos 0;
  outbound = new_frame_scheduler (pos Scheduler.default_per_request_frame_queue);
  done = false;
  last_activity = now;
  awaiting_pong = false;
  ping_sent_at = 0;
}

unfoldable pub session_enqueue : TunnelSession → Option Frame → Outcome Unit × TunnelSession
session_enqueue s none = (returned tt, s)
session_enqueue s (some frame) =
    let (out, outbound) =
      if str_eq frame.request_id ""
      then enqueue_control s.outbound (some frame)
      else Scheduler.enqueue s.outbound (some frame) in
    (out, record s { outbound = outbound })

-- The connection below is closed with it.
pub session_close : TunnelSession → TunnelSession
session_close s =
    if s.done then s else record s { done = true; outbound = Scheduler.close s.outbound }

-- The value of an int32, which wraps around.
unfoldable pub int32 : ℤ → ℤ
int32 (negsuc n) =
    let m = n % 4294967296 in if ltb m 2147483648 then negsuc m else pos (4294967295 - m)
int32 (pos n) =
    let m = n % 4294967296 in if ltb m 2147483648 then pos m else negsuc (4294967295 - m)

-- max_concurrent ≤ 0: unlimited
unfoldable pub can_accept_request : TunnelSession → Bool
can_accept_request s =
    if lt_ℤ (pos 0) s.max_concurrent then lt_ℤ s.active_count (int32 s.max_concurrent) else true

abbrev pub increment_active : TunnelSession → TunnelSession
increment_active s = record s { active_count = int32 (add_one s.active_count) }

abbrev pub decrement_active : TunnelSession → TunnelSession
decrement_active s = record s { active_count = int32 (subtract_one s.active_count) }

abbrev pub mark_activity : TunnelSession → ℕ → TunnelSession
mark_activity s now = record s { last_activity = now }

abbrev pub ack_pong : TunnelSession → TunnelSession
ack_pong s = record s { awaiting_pong = false }

unfoldable pub should_ping : TunnelSession → ℕ → Bool
should_ping s now = not s.awaiting_pong && leb default_ping_period (now - s.last_activity)

pub note_ping_sent : TunnelSession → ℕ → TunnelSession
note_ping_sent s now = record s { awaiting_pong = true; ping_sent_at = now }

pub should_close_for_missed_pong : TunnelSession → ℕ → Bool
should_close_for_missed_pong s now = s.awaiting_pong && ltb default_pong_wait (now - s.ping_sent_at)

-- The ping goes out, or the scheduler is closed already and the session with it.
pub after_ping : Outcome Unit → TunnelSession → TunnelSession
after_ping (returned _) s = s
after_ping _ s = session_close s

pub send_ping : TunnelSession → TunnelSession
send_ping s =
    let (out, outbound) = enqueue_control s.outbound (some (frame_of ping "")) in
    after_ping out (record s { outbound = outbound })

-- A tick of `heartbeatLoop`, which ends when the session is done.
pub heartbeat : TunnelSession → ℕ → TunnelSession
heartbeat s now =
    if s.done
    then s
    else if should_close_for_missed_pong s now
    then session_close s
    else if should_ping s now
    then send_ping (note_ping_sent s now)
    else s

-- `TunnelSessionStore`: the session of a domain, as its place in memory.
unfoldable pub set_session : Dict ℕ → String → ℕ → Option ℕ × Dict ℕ
set_session sessions domain session = (lookup domain sessions, insert domain session sessions)

-- The requests in flight on all sessions.
unfoldable active_request_count : (ℕ → TunnelSession) → Dict ℕ → ℤ
active_request_count memory [] = pos 0
active_request_count memory ((domain, session) ∷ sessions) =
    (memory session).active_count +ℤ active_request_count memory sessions
