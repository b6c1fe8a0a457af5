-- ===== src/Tunnel/Frames/Stuck.antt =====
-- A response that nobody reads holds up all the others of its tunnel.
use http_tunnels.Prelude.{
  ℕ, String, true, Option, none, some, List, [], ◌∷◌, ◌≡◌, refl, ap, sym, ◌∙◌, arith, eq_iff,
  eq_refl,
}
use mathlib.Core.Path.{subst}
use http_tunnels.Tunnel.Frames.Objects.{
  drained, failing, object-read_chunk, object-leave, object-fail_object,
}
use http_tunnels.Prelude.Dict.{lookup-insert}
use http_tunnels.Protocol.{Frame, response_body}
use http_tunnels.Tunnel.{Fault}
use http_tunnels.Tunnel.Pending.{PendingRequest, get, fail, close_body}
use http_tunnels.Tunnel.Sessions.{mark_activity}
use http_tunnels.Tunnel.Sockets.{Gorilla}
use http_tunnels.Tunnel.Frames.{
  Hub, Turn, goes_on, blocks, panics, send_chunk, response_turn, respond, frame_turn, handle_frame,
  object, read_chunk, leave, resend, Event, comes, reads, leaves, fails, fail_object, fail_with,
  put_object, turn_step, turn_run,
}

-- The loop waits to send on the channel of a request that has no handler any more.
record IsAbandoned (id : String) (chunk : List ℕ) (t : Turn) : Type 0 where
  hub : Hub
  waits : t ≡ blocks hub id chunk
  gone : object hub id ≡ none

drained-none : (o : Option PendingRequest) → o ≡ none → drained o ≡ none
drained-none o h = ap drained h

resend-none :
    (hub : Hub) (id : String) (chunk : List ℕ)
    → object hub id ≡ none
    → resend hub id chunk (object hub id) ≡ blocks hub id chunk
unfolding resend
resend-none hub id chunk h = ap (resend hub id chunk) h

blocks-IsAbandoned :
    (ws : Gorilla) (event : Event) (hub : Hub) (id : String) (chunk : List ℕ)
    → object hub id ≡ none
    → IsAbandoned id chunk (turn_step ws (blocks hub id chunk) event)
unfolding turn_step
blocks-IsAbandoned ws (comes now frame) hub id chunk h = record {
  hub = hub;
  waits = refl;
  gone = h;
}
blocks-IsAbandoned ws (reads j) hub id chunk h =
    let gone : object (read_chunk hub j) id ≡ none =
      object-read_chunk hub j id ∙ ground (arith, h, drained-none (object hub j), eq_iff id j) in
    record {
      hub = read_chunk hub j;
      waits = resend-none (read_chunk hub j) id chunk gone;
      gone = gone;
    }
blocks-IsAbandoned ws (leaves j) hub id chunk h = record {
  hub = leave hub j;
  waits = refl;
  gone = object-leave hub j id ∙ ground (arith, h);
}
blocks-IsAbandoned ws (fails j err) hub id chunk h =
    let gone : object (fail_object hub j err) id ≡ none =
      object-fail_object hub j id err ∙ ground (arith, h, ap (failing err) h, eq_iff id j) in
    record {
      hub = fail_object hub j err;
      waits = resend-none (fail_object hub j err) id chunk gone;
      gone = gone;
    }

turn_run-IsAbandoned :
    (ws : Gorilla) (events : List Event) (id : String) (chunk : List ℕ) (t : Turn)
    → IsAbandoned id chunk t
    → IsAbandoned id chunk (turn_run ws t events)
unfolding turn_run
turn_run-IsAbandoned ws [] id chunk t a = a
turn_run-IsAbandoned ws (event ∷ events) id chunk t a =
    turn_run-IsAbandoned ws events id chunk (turn_step ws t event) (
      subst (λ u. IsAbandoned id chunk (turn_step ws u event)) (sym a.waits)
        (blocks-IsAbandoned ws event a.hub id chunk a.gone))

-- When the read loop waits to send a chunk on the full channel of a request whose own body has
-- been sent, and the handler of that request returns, because its user has gone, the loop waits for
-- ever: no frame of the tunnel is handled after that, of whatever request.
pub turn_run-stuck :
    (ws : Gorilla) (hub : Hub) (id : String) (chunk : List ℕ) (events : List Event)
    → (after : Hub) × (turn_run ws (blocks hub id chunk) (leaves id ∷ events)
        ≡ blocks after id chunk)
unfolding turn_run turn_step
turn_run-stuck ws hub id chunk events =
    let gone : object (leave hub id) id ≡ none = object-leave hub id id ∙ rw eq_refl refl in
    let end =
      turn_run-IsAbandoned ws events id chunk (blocks (leave hub id) id chunk)
        (record { hub = leave hub id; waits = refl; gone = gone }) in
    (end.hub, end.waits)

get-fail_object :
    (hub : Hub) (id : String) (err : Fault) (req : PendingRequest)
    → get hub.pending id ≡ some req
    → get (fail_object hub id err).pending id ≡ some (fail req (some err))
unfolding fail_object fail_with object put_object get
get-fail_object hub id err req h =
    ground (arith, h, eq_refl id, lookup-insert id id (fail req (some err)) hub.pending.requests)

send_chunk-closed :
    (hub : Hub) (id : String) (req : PendingRequest) (byte : ℕ) (chunk : List ℕ)
    → req.body_closed ≡ true
    → send_chunk hub id req (byte ∷ chunk) ≡ panics hub
unfolding send_chunk
send_chunk-closed hub id req byte chunk h = ground arith

handle_frame-closed :
    (ws : Gorilla) (hub : Hub) (req : PendingRequest) (now byte : ℕ) (chunk : List ℕ)
    (frame : Frame)
    → get hub.pending frame.request_id ≡ some req
    → req.body_closed ≡ true
    → frame.type ≡ response_body
    → frame.chunk ≡ byte ∷ chunk
    → handle_frame ws now hub frame
      ≡ panics (record hub { session = mark_activity hub.session now })
unfolding handle_frame frame_turn respond response_turn
handle_frame-closed ws hub req now byte chunk frame there closed type body =
    let marked = record hub { session = mark_activity hub.session now } in
    ap (λ ty. frame_turn ws ty marked frame) type
    ∙ ap (respond response_body marked frame) there
    ∙ ap (send_chunk marked frame.request_id req) body
    ∙ send_chunk-closed marked frame.request_id req byte chunk closed

turn_run_panics :
    (ws : Gorilla) (hub : Hub) (events : List Event) → turn_run ws (panics hub) events ≡ panics hub
unfolding turn_run turn_step
turn_run_panics ws hub [] = refl
turn_run_panics ws hub (event ∷ events) = turn_run_panics ws hub events

-- A chunk of a response's body, for a request that has failed meanwhile, as when its user has
-- broken off the upload, and that is still in the store, makes the read loop panic: it sends on a
-- channel that is closed.
pub turn_run-panics :
    (ws : Gorilla) (hub : Hub) (req : PendingRequest) (err : Fault) (now byte : ℕ) (chunk : List ℕ)
    (frame : Frame) (events : List Event)
    → get hub.pending frame.request_id ≡ some req
    → frame.type ≡ response_body
    → frame.chunk ≡ byte ∷ chunk
    → (after : Hub) × (turn_run ws
          (goes_on hub)
          (fails frame.request_id err ∷ comes now frame ∷ events)
        ≡ panics after)
unfolding turn_run turn_step fail close_body
turn_run-panics ws hub req err now byte chunk frame events there type body =
    let id = frame.request_id in
    let failed = fail_object hub id err in
    let panicked =
      handle_frame-closed ws failed (fail req (some err)) now byte chunk frame
        (get-fail_object hub id err req there) refl type body in
    let after = record failed { session = mark_activity failed.session now } in
    (after, ap (λ t. turn_run ws t events) panicked ∙ turn_run_panics ws after events)
