-- ===== src/Client/Requests/Panics.antt =====
-- A request that ends before its body has been read.
use http_tunnels.Prelude.{
  ℕ, ◌≤◌, Bool, true, false, some, List, ◌∷◌, [], length, ◌≡◌, refl, ap, ◌∙◌, arith, ◌⊎◌, inl, inr,
}
use http_tunnels.Prelude.Dict.{lookup}
use http_tunnels.Protocol.{Frame, request_body}
use http_tunnels.Protocol.Scheduler.{default_per_request_frame_queue}
use http_tunnels.Client.Requests.{
  App, reading, sending, panicked, send_chunk, body_to, handle_request_body, frame_turn,
  handle_frame, end_at,
}
use http_tunnels.Client.Requests.Runs.{Event, comes, ends, loop_step, loop_run}

loop_run_panicked : (events : List Event) → loop_run panicked events ≡ panicked
unfolding loop_run loop_step
loop_run_panicked [] = refl
loop_run_panicked (event ∷ events) = loop_run_panicked events

send_chunk-closed :
    (done_first : Bool) (a : App) (place : ℕ) (chunk : List ℕ)
    → a.done ≡ false
    → (a.memory place).body_closed ≡ true
    → send_chunk done_first a place chunk ≡ panicked
unfolding send_chunk
send_chunk-closed done_first a place chunk running closed = ground arith

handle_frame-body :
    (done_first : Bool) (now byte place : ℕ) (a : App) (frame : Frame) (chunk : List ℕ)
    → lookup frame.request_id a.requests ≡ some place
    → frame.type ≡ request_body
    → frame.chunk ≡ byte ∷ chunk
    → handle_frame done_first now a frame
      ≡ send_chunk done_first (record a { last_active = now }) place (byte ∷ chunk)
unfolding handle_frame frame_turn handle_request_body body_to
handle_frame-body done_first now byte place a frame chunk there type body =
    let noted = record a { last_active = now } in
    ap (λ t. frame_turn done_first t noted frame) type
    ∙ ap (λ p. body_to done_first noted p frame.chunk) there
    ∙ ap (body_to done_first noted (some place)) body

ends-closed : (a : App) (place : ℕ) → ((end_at a (some place)).memory place).body_closed ≡ true
unfolding end_at
ends-closed a place = ground arith

send_chunk-full :
    (done_first : Bool) (a : App) (place : ℕ) (chunk : List ℕ)
    → a.done ≡ false
    → default_per_request_frame_queue ≤ length (a.memory place).body_ch
    → (send_chunk done_first a place chunk ≡ panicked)
      ⊎ (send_chunk done_first a place chunk ≡ sending a place chunk)
unfolding send_chunk
send_chunk-full done_first a place chunk running full = ground arith

-- The send waits, or panics at once, and panics when the body is closed.
full-panics :
    (done_first : Bool) (a : App) (place : ℕ) (chunk : List ℕ)
    → a.done ≡ false
    → default_per_request_frame_queue ≤ length (a.memory place).body_ch
    → loop_step (send_chunk done_first a place chunk) (ends place) ≡ panicked
unfolding loop_step end_at
full-panics done_first a place chunk running full =
    elim (send_chunk-full done_first a place chunk running full) [
      | inl e ↦ ap (λ l. loop_step l (ends place)) e
      | inr e ↦
          ap (λ l. loop_step l (ends place)) e
          ∙ send_chunk-closed false (end_at a (some place)) place chunk running
              (ends-closed a place)
    ]

-- While the client is not closing and the channel of a request's body is full, the next chunk of
-- the body and the return of its proxyRequest, in whichever order they come before the request has
-- left the table, make the client panic.
pub loop_run-panics :
    (done_first : Bool) (now byte place : ℕ) (a : App) (frame : Frame) (chunk : List ℕ)
    (events : List Event)
    → lookup frame.request_id a.requests ≡ some place
    → frame.type ≡ request_body
    → frame.chunk ≡ byte ∷ chunk
    → a.done ≡ false
    → default_per_request_frame_queue ≤ length (a.memory place).body_ch
    → (loop_run (reading a) (comes done_first now frame ∷ ends place ∷ events) ≡ panicked)
      × (loop_run (reading a) (ends place ∷ comes done_first now frame ∷ events) ≡ panicked)
unfolding loop_run loop_step end_at
loop_run-panics done_first now byte place a frame chunk events there type body running full = (
  ap (λ l. loop_run (loop_step l (ends place)) events)
        (handle_frame-body done_first now byte place a frame chunk there type body)
      ∙ ap (λ l. loop_run l events)
          (full-panics done_first (record a { last_active = now }) place (byte ∷ chunk) running
            full)
      ∙ loop_run_panicked events,
  ap (λ l. loop_run l events)
        (handle_frame-body done_first now byte place (end_at a (some place)) frame chunk there type
          body)
      ∙ ap (λ l. loop_run l events)
          (send_chunk-closed done_first (record (end_at a (some place)) { last_active = now }) place
            (byte ∷ chunk) running (ends-closed a place))
      ∙ loop_run_panicked events,
)
