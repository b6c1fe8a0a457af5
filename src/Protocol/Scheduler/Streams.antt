-- ===== src/Protocol/Scheduler/Streams.antt =====
-- What goes in comes out, in order for each request, over all calls.
use http_tunnels.Prelude.{
  String, false, List, [], ◌∷◌, ◌++◌, ◌≡◌, inl, inr, refl, ap, sym, ◌∙◌, arith, append-glue,
}
use mathlib.Core.List.{append-nil}
use http_tunnels.Prelude.Int.{ℤ}
use http_tunnels.Prelude.Dict.{lookup-nil}
use http_tunnels.Protocol.{Frame}
use http_tunnels.Protocol.Scheduler.{
  FrameScheduler, enqueue_control, enqueue_request, pop_next_request, next_with, next, close,
  enqueue, Call, enqueues, nexts, closes, step, run, new_frame_scheduler, accepted_by, delivered_by,
  accepted, delivered,
}
use http_tunnels.Protocol.Scheduler.Valid.{IsValid, new_frame_scheduler-IsValid}
use http_tunnels.Protocol.Scheduler.Pops.{
  Popping-IsTaken, pop-cases, after_pop-frames_out, step-IsValid,
}
use http_tunnels.Protocol.Scheduler.Traces.{
  IsSorted, new_frame_scheduler-IsSorted, of_request, of_request-append, step-IsSorted,
  step-waiting, waiting,
}

next_with-closed :
    {s : FrameScheduler} (control : List Frame)
    → IsValid s
    → (next_with s control).1.closed ≡ s.closed
unfolding next_with
next_with-closed (frame ∷ rest) v = refl
next_with-closed {s} [] v =
    let (_, left) = after_pop-frames_out (pop_next_request s) in
    rw left (elim (pop-cases v) [
      | inl (_, e) ↦ ap (λ r. r.1.closed) e
      | inr p ↦ (Popping-IsTaken p).closed_left
    ])

step-closed :
    {s : FrameScheduler} (call : Call) → IsValid s → (step s call).closed ≡ false → s.closed ≡ false
unfolding step enqueue enqueue_control enqueue_request close next
step-closed {s} (enqueues frame) v h = ground arith
step-closed {s} nexts v h = sym (next_with-closed s.control v) ∙ h
step-closed {s} closes v h = ground arith

run-closed :
    (calls : List Call) {s : FrameScheduler}
    → IsValid s
    → (run s calls).closed ≡ false
    → s.closed ≡ false
unfolding run
run-closed [] v h = h
run-closed (call ∷ calls) v h = step-closed call v (run-closed calls (step-IsValid call v) h)

run-waiting :
    (calls : List Call) {s : FrameScheduler} (id : String)
    → IsValid s
    → IsSorted s
    → (run s calls).closed ≡ false
    → waiting s id ++ of_request id (accepted s calls)
      ≡ of_request id (delivered s calls) ++ waiting (run s calls) id
unfolding run accepted delivered
run-waiting [] {s} id v h o = append-nil (waiting s id)
run-waiting (call ∷ calls) {s} id v h o =
    let v' = step-IsValid call v in
    let one = step-waiting call id v h (run-closed calls v' o) in
    let rest = run-waiting calls id v' (step-IsSorted call v h) o in
    rw (of_request-append, of_request-append)
      (append-glue (waiting s id) (of_request id (accepted_by s call)) _
        (of_request id (delivered_by s call)) (waiting (step s call) id) _ _ one rest)

new_frame_scheduler-waiting :
    (limit : ℤ) (id : String) → waiting (new_frame_scheduler limit) id ≡ []
unfolding new_frame_scheduler
new_frame_scheduler-waiting limit id = rw lookup-nil refl

-- As long as a scheduler has not been closed, the frames that it has handed out for a request and
-- those that still wait are, in this order, the frames that it has taken for that request: none is
-- lost, doubled or overtaken by another of its request, whatever calls come in whatever order.
-- The frames without a request id, which belong to the connection, are kept in order as well.
pub accepted-delivered :
    (limit : ℤ) (calls : List Call) (id : String)
    → let s = new_frame_scheduler limit in
      (run s calls).closed ≡ false
      → of_request id (accepted s calls)
        ≡ of_request id (delivered s calls) ++ waiting (run s calls) id
accepted-delivered limit calls id o =
    let s = new_frame_scheduler limit in
    ap (◌++ of_request id (accepted s calls)) (sym (new_frame_scheduler-waiting limit id))
    ∙ run-waiting calls id (new_frame_scheduler-IsValid limit) (new_frame_scheduler-IsSorted limit)
        o
