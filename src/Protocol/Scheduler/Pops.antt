-- ===== src/Protocol/Scheduler/Pops.antt =====
-- What `popNextRequestLocked` and `Next` do to a valid scheduler.
use http_tunnels.Prelude.{
  ◌<◌, String, true, false, Option, none, some, List, [], ◌∷◌, ◌≡◌, ◌⊎◌, inl, inr, refl, ap, sym,
  arith, length, ltb, eq_refl,
}
use mathlib.Core.Path.{subst}
use http_tunnels.Prelude.Int.{ℤ}
use http_tunnels.Protocol.{Frame}
use http_tunnels.Protocol.Scheduler.{
  FrameScheduler, queue_of, take_frame, pop_from, pop_next_request, frames_out, after_pop,
  next_with, next, enqueue, Call, enqueues, nexts, closes, step, run, new_frame_scheduler,
}
use http_tunnels.Protocol.Scheduler.Order.{contains, contains_middle, Split, split_at}
use http_tunnels.Protocol.Scheduler.Valid.{
  IsValid, new_frame_scheduler-IsValid, close-IsValid, enqueue_control-IsValid,
  enqueue_request-IsValid, controlled-IsValid,
}
use http_tunnels.Protocol.Scheduler.Turns.{IsTaken}
use http_tunnels.Protocol.Scheduler.Turns.{
  length-order, take_frame-IsValid, pop_next_request-cut, take_frame-IsTaken,
}

-- The request at the index, its first frame and the rest of its queue.
pub record Popping (s : FrameScheduler) : Type 0 where
  pub cut : Split s.order s.next_index
  pub frame : Frame
  pub rest : List Frame
  pub queue : queue_of s cut.here ≡ frame ∷ rest
  pub result : pop_next_request s ≡ take_frame s cut.here frame rest

pub Popping-IsTaken :
    {s : FrameScheduler} (p : Popping s) → IsTaken s p.cut.here p.frame p.rest (pop_next_request s)
Popping-IsTaken {s} p =
    subst (IsTaken s p.cut.here p.frame p.rest) (sym p.result)
      (take_frame-IsTaken s p.cut p.frame p.rest)

pub empty_of : (queue : List Frame) → ltb 0 (length queue) ≡ false → queue ≡ []
empty_of [] h = refl
empty_of (frame ∷ rest) h = ground arith

-- The frame that has been popped, if there is one.
abbrev pub popped_list : Option Frame → List Frame
popped_list none = []
popped_list (some frame) = frame ∷ []

pub after_pop-frames_out :
    (popped : Option Frame × FrameScheduler)
    → (frames_out (after_pop popped).0 ≡ popped_list popped.0) × ((after_pop popped).1 ≡ popped.1)
unfolding after_pop
after_pop-frames_out (some frame, t) = (refl, refl)
after_pop-frames_out (none, t) = (ground arith, refl)

module _ {s : FrameScheduler} (v : IsValid s) where
  open v use {at, emptied, listed}

  pop_at : (cut : Split s.order s.next_index) → Popping s
  pop_at cut = go (queue_of s cut.here) refl
    where
      here_listed : contains cut.here s.order ≡ true
      here_listed =
          rw (cut.parts, contains_middle cut.here cut.here cut.before cut.after) (rw eq_refl refl)

      go : (queue : List Frame) → queue_of s cut.here ≡ queue → Popping s
      go [] e = absurd (ground (arith, here_listed, listed cut.here))
      go (frame ∷ rest) e = record {
        cut = cut;
        frame = frame;
        rest = rest;
        queue = e;
        result = pop_next_request-cut s cut frame rest e;
      }

  in_range_of_filled : 0 < length s.order → s.next_index < length s.order
  in_range_of_filled h = ground (arith, at, emptied)

  pub pop-cases : ((s.order ≡ []) × (pop_next_request s ≡ (none, s))) ⊎ Popping s
  unfolding pop_next_request pop_from
  pop-cases = go s.order refl
    where
      go :
          (order : List String)
          → s.order ≡ order
          → ((s.order ≡ []) × (pop_next_request s ≡ (none, s))) ⊎ Popping s
      go [] e = inl (e, ap (λ (o : List String). pop_from (length o) s) e)
      go (id ∷ order) e =
          inr (pop_at (split_at s.order s.next_index (in_range_of_filled (rw e (omega arith)))))

  pub open_of_Popping : Popping s → s.closed ≡ false
  open_of_Popping p = ground (arith, emptied, length-order s p.cut)

  pub pop_next_request-IsValid : IsValid (pop_next_request s).1
  pop_next_request-IsValid = elim pop-cases [
    | inl (_, e) ↦ subst (λ t. IsValid t.1) (sym e) v
    | inr p ↦
        subst (λ t. IsValid t.1) (sym p.result)
          (take_frame-IsValid s p.cut p.frame p.rest v (open_of_Popping p) p.queue)
  ]

  after_pop-IsValid :
      (popped : Option Frame × FrameScheduler) → IsValid popped.1 → IsValid (after_pop popped).1
  unfolding after_pop
  after_pop-IsValid (some frame, t) h = h
  after_pop-IsValid (none, t) h = h

  next_with-IsValid : (control : List Frame) → s.control ≡ control → IsValid (next_with s control).1
  unfolding next_with
  next_with-IsValid (frame ∷ rest) e = controlled-IsValid rest (ground (arith, emptied, e)) v
  next_with-IsValid [] e = after_pop-IsValid (pop_next_request s) pop_next_request-IsValid

  pub next-IsValid : IsValid (next s).1
  unfolding next
  next-IsValid = next_with-IsValid s.control refl

pub step-IsValid : {s : FrameScheduler} (call : Call) → IsValid s → IsValid (step s call)
unfolding step enqueue
step-IsValid (enqueues frame) v =
    ground (arith, enqueue_control-IsValid (some frame) v, enqueue_request-IsValid frame v)
step-IsValid nexts v = next-IsValid v
step-IsValid closes v = close-IsValid v

run_from-IsValid : (calls : List Call) {s : FrameScheduler} → IsValid s → IsValid (run s calls)
unfolding run
run_from-IsValid [] v = v
run_from-IsValid (call ∷ calls) v = run_from-IsValid calls (step-IsValid call v)

-- Whatever calls a scheduler gets, and in whatever order, it keeps its invariant: `order` lists
-- the requests that have a frame waiting, each once, `next_index` is in range unless the scheduler
-- is closed, no queue passes its bound, and a closed scheduler holds nothing.
pub run-IsValid : (limit : ℤ) (calls : List Call) → IsValid (run (new_frame_scheduler limit) calls)
run-IsValid limit calls = run_from-IsValid calls (new_frame_scheduler-IsValid limit)
