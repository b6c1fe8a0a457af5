-- ===== src/Tests/Tunnel.antt =====
-- A tunnel at work: its requests, its sessions and its frames.
use http_tunnels.Prelude.{
  ℕ, ◌+◌, ◌*◌, ◌≤◌, String, true, false, none, some, List, [], ◌∷◌, ◌++◌, ◌≡◌, refl, arith, length,
  str_eq, codes, ltb, ◌⊎◌, In, if◌then◌else◌,
}
use http_tunnels.Prelude.Int.{pos}
use http_tunnels.Prelude.Dict.{lookup, insert, lookup-nil}
use http_tunnels.Protocol.{Frame, frame_of, response_body, websocket_text}
use http_tunnels.Tunnel.{read_error, connection_closed, request_timeout}
use http_tunnels.Tunnel.Pending.{
  PendingRequest, PendingStore, get, is_of_tunnel, fail_by_tunnel, cleanup_expired, taken, count,
  count_by_tunnel,
}
use http_tunnels.Tunnel.Pending.Laws.{IsFailed, Pairwise, keep_option, fail_by_tunnel-outcome}
use http_tunnels.Tunnel.Pending.Expiry.{IsOverdue, IsInTime, cleanup_expired-outcome}
use http_tunnels.Tunnel.Sessions.{
  TunnelSession, new_tunnel_session, second, should_ping, can_accept_request,
}
use http_tunnels.Tunnel.Sessions.Heartbeat.{ticks, activity, beats, heartbeat-closes}
use http_tunnels.Tunnel.Sessions.Limit.{
  arrives, departs, visit_moves, new_gate, moves, asks, counts_in, times, moves-inside-le,
  moves-inside-unbounded,
}
use http_tunnels.Tunnel.Sockets.{Gorilla, Sockets, forward_each, new_bridge}
use http_tunnels.Tunnel.Sockets.Steps.{Wires, looks, puts, takes, handled, forwarded, wire_run}
use http_tunnels.Tunnel.Sockets.Steps
use http_tunnels.Tunnel.Sockets.Orders.{buffered}
use http_tunnels.Tunnel.Sockets.Races.{flush-order, looks-lost}
use http_tunnels.Tunnel.Frames.{
  Hub, goes_on, blocks, panics, Event, comes, reads, leaves, fails, turn_run, turn_step,
  handle_frame, frame_turn, respond, response_turn, send_chunk, put_object, object, read_chunk,
  take_chunk,
}
use http_tunnels.Tunnel.Frames.Bodies.{under_way, is_up}
use http_tunnels.Tunnel.Frames.Streams.{brought_all, read_all, turn_run-body}
use http_tunnels.Tunnel.Frames.Stuck.{turn_run-stuck, turn_run-panics}
use http_tunnels.Tunnel.Connections.{
  Connection, Registry, connects, disconnects, disconnects-replaced, Step, sets, closes_replaced,
  deletes, fails_requests, closes,
}
use http_tunnels.Tunnel.Preview.{
  Mime, new_body_capture, observe_all, preview, is_text_content_type, take, preview_limit,
}
use http_tunnels.Tunnel.Preview.Laws.{observe_all-preview}

abbrev request_x : PendingRequest
request_x = record {
  id = "x";
  tunnel_id = "t";
  method = "GET";
  path = "/";
  headers = [];
  content_len = pos 0;
  response_ch = none;
  error_ch = none;
  body_ch = [];
  body_closed = false;
  created_at = 0;
  response_started = false;
}

abbrev store : PendingStore
store = record { requests = ("x", request_x) ∷ []; timeout = 5 }

request_x-there : get store "x" ≡ some request_x
unfolding get lookup
request_x-there = refl

fail_by_tunnel-outcome_example :
    let (after, failed) = fail_by_tunnel store "t" (some connection_closed) in
    ((id : String) → get after id ≡ keep_option (is_of_tunnel "t") (get store id))
    × Pairwise (IsFailed connection_closed) (taken (is_of_tunnel "t") store.requests) failed
    × (count after + length failed ≡ count store)
    × (length failed ≡ count_by_tunnel store "t")
fail_by_tunnel-outcome_example =
    fail_by_tunnel-outcome store "t" connection_closed (lookup-nil "x", tt)

cleanup_expired-outcome_example :
    let (after, failed) = cleanup_expired store 9 in
    ((IsOverdue 5 9 request_x
        × (get after "x" ≡ none)
        × (gone : PendingRequest) × In gone failed
        × IsFailed request_timeout request_x gone)
      ⊎ (IsInTime 5 9 request_x × (get after "x" ≡ some request_x)))
    × (count after + length failed ≡ count store)
cleanup_expired-outcome_example =
    cleanup_expired-outcome store 9 "x" request_x (lookup-nil "x", tt) request_x-there

abbrev session : TunnelSession
session = new_tunnel_session "t" "example.org" (pos 1) 0

heartbeat-closes_example :
    (beats session
      (ticks (20 * second) ∷ (activity (40 * second) ∷ []) ++ ticks (81 * second) ∷ [])).done
    ≡ true
unfolding new_tunnel_session should_ping
heartbeat-closes_example =
    heartbeat-closes session (20 * second) (81 * second) (activity (40 * second) ∷ []) [] refl tt
      (omega arith)

moves-inside-le_example :
    let g = moves (new_gate session) (visit_moves (arrives ∷ arrives ∷ departs ∷ [])) in
    (g.inside ≤ 1) × (g.session.active_count ≡ pos g.inside)
unfolding new_tunnel_session
moves-inside-le_example =
    moves-inside-le session 1 (arrives ∷ arrives ∷ departs ∷ []) refl (omega arith) (omega arith)
      refl

moves-inside-unbounded_example :
    let g = moves (new_gate session) (times 3 asks ++ times 3 counts_in) in
    (g.turned_away ≡ 0)
    × (g.inside ≡ 3)
    × (g.session.active_count ≡ pos 3)
    × (can_accept_request g.session ≡ ltb 3 1)
unfolding new_tunnel_session
moves-inside-unbounded_example =
    moves-inside-unbounded session 1 3 refl (omega arith) (omega arith) refl (omega arith)

abbrev gorilla : Gorilla
gorilla = record {
  fails = λ written m. false;
  format_close_message = λ code text. codes text;
  text_of = λ bytes. "";
}

abbrev sockets : Sockets
sockets = record { bridges = []; buffer = [] }

abbrev text_frame : ℕ → Frame
text_frame n = record (frame_of websocket_text "x") { chunk = n ∷ [] }

abbrev wires : Wires
wires = record { sockets = sockets; found = none; flushing = [] }

flush-order_example :
    let w = wire_run gorilla wires (
      handled (text_frame 1 ∷ [])
      ++ (Steps.sets "x"
          ∷ (handled (text_frame 2 ∷ [])
              ++ (takes "x"
                  ∷ (handled (text_frame 3 ∷ [])
                      ++ (forwarded "x" (text_frame 1 ∷ []) ++ handled (text_frame 4 ∷ []))))))) in
    lookup "x" w.sockets.bridges
    ≡ some (
        forward_each gorilla
          (new_bridge "x")
          (text_frame 2 ∷ text_frame 3 ∷ text_frame 1 ∷ text_frame 4 ∷ []))
flush-order_example =
    flush-order gorilla "x" sockets [] (text_frame 1 ∷ []) (text_frame 2 ∷ []) (text_frame 3 ∷ [])
      (text_frame 4 ∷ []) refl (lookup-nil "x") (rw lookup-nil refl) (refl, tt) (refl, tt)
      (refl, tt) (refl, tt)

looks-lost_example :
    let w = wire_run gorilla wires (
      handled (text_frame 1 ∷ [])
      ++ (looks (text_frame 2)
          ∷ Steps.sets "x"
          ∷ takes "x"
          ∷ puts
          ∷ (forwarded "x" (text_frame 1 ∷ []) ++ handled (text_frame 3 ∷ [])))) in
    (lookup "x" w.sockets.bridges
      ≡ some (forward_each gorilla (new_bridge "x") (text_frame 1 ∷ text_frame 3 ∷ [])))
    × (buffered w.sockets "x" ≡ text_frame 2 ∷ [])
looks-lost_example =
    looks-lost gorilla "x" sockets [] (text_frame 2) (text_frame 1 ∷ []) (text_frame 3 ∷ []) refl
      (lookup-nil "x") (rw lookup-nil refl) refl (refl, tt) (refl, tt)

abbrev hub : Hub
hub = record { session = session; pending = store; left = []; sockets = sockets }

abbrev body_frame : ℕ → Frame
body_frame n = record (frame_of response_body "x") { chunk = n ∷ [] }

-- Two chunks come, one is read.
abbrev events : List Event
events = comes 1 (body_frame 7) ∷ comes 2 (body_frame 8) ∷ reads "x" ∷ []

events_up : is_up (turn_run gorilla (goes_on hub) events) ≡ true
unfolding turn_run turn_step handle_frame frame_turn respond response_turn send_chunk put_object
    object read_chunk take_chunk get lookup insert
events_up = refl

turn_run-body_example :
    under_way (goes_on hub) "x" ++ brought_all gorilla (goes_on hub) "x" events
    ≡ read_all gorilla (goes_on hub) "x" events
      ++ under_way (turn_run gorilla (goes_on hub) events) "x"
turn_run-body_example =
    turn_run-body gorilla events (goes_on hub) "x" (refl, (refl, (refl, tt))) events_up

turn_run-stuck_example :
    (after : Hub) × (turn_run gorilla
        (blocks hub "x" (1 ∷ []))
        (leaves "x" ∷ comes 3 (body_frame 9) ∷ [])
      ≡ blocks after "x" (1 ∷ []))
turn_run-stuck_example = turn_run-stuck gorilla hub "x" (1 ∷ []) (comes 3 (body_frame 9) ∷ [])

turn_run-panics_example :
    (after : Hub) × (turn_run gorilla
        (goes_on hub)
        (fails "x" (read_error "broken off") ∷ comes 3 (body_frame 9) ∷ [])
      ≡ panics after)
turn_run-panics_example =
    turn_run-panics gorilla hub request_x (read_error "broken off") 3 9 [] (body_frame 9) []
      request_x-there refl refl

abbrev old_connection : Connection
old_connection = record { number = 1; tunnel_id = "t"; domain = "example.org" }

abbrev new_connection : Connection
new_connection = record { number = 2; tunnel_id = "t"; domain = "example.org" }

abbrev registry : Registry
registry = record {
  sessions = ("example.org", 1) ∷ [];
  replaced = λ n. none;
  closed = λ n. false;
  pending = store;
  connected = λ id. true;
}

registered : lookup "example.org" registry.sessions ≡ some 1
unfolding lookup
registered = refl

-- The new connection comes up while the handler of the old one cleans up.
abbrev steps : List Step
steps =
    deletes old_connection
    ∷ sets new_connection
    ∷ closes_replaced new_connection
    ∷ fails_requests old_connection
    ∷ closes old_connection
    ∷ []

disconnects-replaced_example :
    let s = disconnects (connects registry new_connection) old_connection in
    (s.closed 2 ≡ false)
    × (lookup "example.org" s.sessions ≡ none)
    × ((req : PendingRequest) → get s.pending "x" ≡ some req → str_eq req.tunnel_id "t" ≡ false)
    × (s.connected "t" ≡ false)
disconnects-replaced_example =
    disconnects-replaced registry old_connection new_connection "x" refl refl registered (λ e. cc)
      refl (lookup-nil "x", tt)

abbrev mime : Mime
mime = record { parse_media_type = λ type. some type; lower_trimmed = λ type. type }

observe_all-preview_example :
    let c = observe_all (new_body_capture mime (codes "text/plain")) ((1 ∷ []) ∷ (2 ∷ []) ∷ []) in
    (c.total_bytes ≡ 2)
    × (preview c ≡ (
        if is_text_content_type mime (codes "text/plain")
        then take preview_limit (1 ∷ 2 ∷ [])
        else []))
    × (length c.buffer ≤ preview_limit)
observe_all-preview_example =
    observe_all-preview mime (codes "text/plain") ((1 ∷ []) ∷ (2 ∷ []) ∷ [])
