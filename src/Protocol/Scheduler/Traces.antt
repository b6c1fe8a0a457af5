-- ===== src/Protocol/Scheduler/Traces.antt =====
-- What goes in comes out, in order for each request.
use http_tunnels.Prelude.{
  String, true, false, Option, none, some, List, [], ◌∷◌, ◌++◌, ◌≡◌, inl, inr, refl, ap, sym, arith,
  str_eq, eq_iff, if◌then◌else◌, Bool-cases, select, All, All-append,
}
use mathlib.Core.Path.{subst}
use mathlib.Core.List.{append_assoc, append-nil}
use http_tunnels.Prelude.Int.{ℤ}
use http_tunnels.Prelude.Dict.{lookup-nil}
use http_tunnels.Protocol.{Frame}
use http_tunnels.Protocol.Scheduler.{
  FrameScheduler, queue_of, enqueue_control, enqueue_request, pop_next_request, after_pop,
  next_with, next, close, enqueue, put_frame, Call, enqueues, nexts, closes, step,
  new_frame_scheduler, accepted_by, frames_out, delivered_by,
}
use http_tunnels.Protocol.Scheduler.Valid.{IsValid, queue_of-insert}
use http_tunnels.Protocol.Scheduler.Pops.{
  Popping, Popping-IsTaken, pop-cases, popped_list, after_pop-frames_out,
}

-- The frames of a request, in their order; "" stands for the connection itself.
abbrev pub of_request : String → List Frame → List Frame
of_request id = select (λ (f : Frame). str_eq f.request_id id)

abbrev pub waiting : FrameScheduler → String → List Frame
waiting s id = of_request id s.control ++ queue_of s id

-- A queue holds frames of its own request, and the connection's frames are in none.
pub record IsSorted (s : FrameScheduler) : Type 0 where
  pub own : (id : String) → All (λ (f : Frame). f.request_id ≡ id) (queue_of s id)
  pub none_of_connection : queue_of s "" ≡ []

pub new_frame_scheduler-IsSorted : (limit : ℤ) → IsSorted (new_frame_scheduler limit)
unfolding new_frame_scheduler
new_frame_scheduler-IsSorted limit = record {
  own = λ id. rw lookup-nil tt;
  none_of_connection = rw lookup-nil refl;
}

abbrev pub Own : String → List Frame → Type 0
Own id = All (λ (f : Frame). f.request_id ≡ id)

Own-if :
    (id j : String) (queue other : List Frame)
    → Own j queue
    → Own id other
    → Own id (if str_eq id j then queue else other)
Own-if id j queue other hq ho = elim (Bool-cases (str_eq id j)) [
  | inl same ↦ rw same (subst (λ i. Own i queue) (sym ((eq_iff id j).0 same)) hq)
  | inr different ↦ rw different ho
]

-- The calls, one by one, with what they leave.
module _ {s : FrameScheduler} (v : IsValid s) (h : IsSorted s) where
  pop_next_request-IsSorted : IsSorted (pop_next_request s).1
  pop_next_request-IsSorted = elim (pop-cases v) [
    | inl (_, e) ↦ subst (λ t. IsSorted t.1) (sym e) h
    | inr p ↦
        let taken = Popping-IsTaken p in
        let own_here : Own p.cut.here (p.frame ∷ p.rest) =
          subst (Own p.cut.here) p.queue (h.own p.cut.here) in
        record {
          own = λ id.
              subst (Own id) (sym (taken.queues_left id))
                (Own-if id p.cut.here p.rest (queue_of s id) own_here.1 (h.own id));
          none_of_connection =
              ground
                (arith, taken.queues_left "", h.none_of_connection, p.queue, eq_iff "" p.cut.here);
        }
  ]

  after_pop-IsSorted :
      (popped : Option Frame × FrameScheduler) → IsSorted popped.1 → IsSorted (after_pop popped).1
  unfolding after_pop
  after_pop-IsSorted (some frame, t) i = i
  after_pop-IsSorted (none, t) i = i

  next_with-IsSorted : (control : List Frame) → IsSorted (next_with s control).1
  unfolding next_with
  next_with-IsSorted (frame ∷ rest) = record {
    own = h.own;
    none_of_connection = h.none_of_connection;
  }
  next_with-IsSorted [] = after_pop-IsSorted (pop_next_request s) pop_next_request-IsSorted

put_frame-IsSorted :
    {s : FrameScheduler} (frame : Frame)
    → str_eq frame.request_id "" ≡ false
    → IsSorted s
    → IsSorted (put_frame s frame)
put_frame-IsSorted {s} frame named h =
    let id = frame.request_id in
    let queue = queue_of s id ++ frame ∷ [] in
    let now = λ (j : String). queue_of-insert s (put_frame s frame) id j queue refl in
    record {
      own = λ j. subst (Own j) (sym (now j)) (
          Own-if j id queue (queue_of s j)
            (All-append (λ (f : Frame). f.request_id ≡ id) (queue_of s id) (frame ∷ []) (h.own id)
              (refl, tt))
            (h.own j));
      none_of_connection = ground (arith, now "", h.none_of_connection, eq_iff "" id, eq_iff id "");
    }

emptied-IsSorted :
    (s : FrameScheduler)
    → IsSorted (record s { closed = true; control = []; queues = []; order = [] })
emptied-IsSorted s = record {
  own = λ id. rw lookup-nil tt;
  none_of_connection = rw lookup-nil refl;
}

pub step-IsSorted :
    {s : FrameScheduler} (call : Call) → IsValid s → IsSorted s → IsSorted (step s call)
unfolding step enqueue enqueue_control enqueue_request close next
step-IsSorted {s} (enqueues frame) v h =
    ground (arith, λ (e : str_eq frame.request_id "" ≡ false). put_frame-IsSorted frame e h)
step-IsSorted {s} nexts v h = next_with-IsSorted v h s.control
step-IsSorted {s} closes v h = ground (arith, emptied-IsSorted s)

pub of_request-append :
    (id : String) (xs ys : List Frame)
    → of_request id (xs ++ ys) ≡ of_request id xs ++ of_request id ys
of_request-append id [] ys = refl
of_request-append id (x ∷ xs) ys = ground (arith, of_request-append id xs ys)

put_frame-waiting :
    (s : FrameScheduler) (frame : Frame) (id : String)
    → waiting s id ++ of_request id (frame ∷ []) ≡ waiting (put_frame s frame) id
put_frame-waiting s frame id =
    let j = frame.request_id in
    let queue = queue_of s j ++ frame ∷ [] in
    let now = queue_of-insert s (put_frame s frame) j id queue refl in
    elim (Bool-cases (str_eq j id)) [
      | inl same ↦
          let e = (eq_iff j id).0 same in
          rw (same, append_assoc)
            (ap (of_request id s.control ++◌) (ground (arith, now, e, eq_iff id j)))
      | inr other ↦
          rw (other, append-nil)
            (ap (of_request id s.control ++◌) (ground (arith, now, eq_iff id j, eq_iff j id)))
    ]

control-waiting :
    {s : FrameScheduler} (frame : Frame) (id : String)
    → frame.request_id ≡ ""
    → IsSorted s
    → waiting s id ++ of_request id (frame ∷ [])
      ≡ of_request id (s.control ++ frame ∷ []) ++ queue_of s id
control-waiting {s} frame id e h = elim (Bool-cases (str_eq "" id)) [
  | inl same ↦
      let e = (eq_iff "" id).0 same in
      ground (
        arith,
        of_request-append id s.control (frame ∷ []),
        h.none_of_connection,
        append_assoc (of_request id s.control) (queue_of s id) (frame ∷ []),
        append-nil (of_request id s.control),
        append-nil (of_request id s.control ++ frame ∷ []),
      )
  | inr other ↦ ground (
    arith,
    of_request-append id s.control (frame ∷ []),
    append-nil (waiting s id),
    append-nil (of_request id s.control),
  )
]

enqueue-waiting :
    {s : FrameScheduler} (frame : Frame) (id : String)
    → IsSorted s
    → waiting s id ++ of_request id (accepted_by s (enqueues frame))
      ≡ waiting (enqueue s (some frame)).1 id
unfolding accepted_by enqueue enqueue_control enqueue_request
enqueue-waiting {s} frame id h = ground (
  arith,
  put_frame-waiting s frame id,
  control-waiting {s = s} frame id,
  eq_iff frame.request_id "",
  append-nil (waiting s id),
)

pop-waiting :
    {s : FrameScheduler} (p : Popping s) (id : String)
    → IsSorted s
    → queue_of s id ≡ of_request id (p.frame ∷ []) ++ queue_of (pop_next_request s).1 id
pop-waiting {s} p id h =
    let here = p.cut.here in
    let taken = Popping-IsTaken p in
    let own_here : Own here (p.frame ∷ p.rest) = subst (Own here) p.queue (h.own here) in
    ground (arith, taken.queues_left id, p.queue, eq_iff id here, eq_iff p.frame.request_id id)

pop_next_request-waiting :
    {s : FrameScheduler} (id : String)
    → IsValid s
    → IsSorted s
    → s.control ≡ []
    → let (popped, t) = pop_next_request s in
      waiting s id ≡ of_request id (popped_list popped) ++ waiting t id
pop_next_request-waiting {s} id v h e = elim (pop-cases v) [
  | inl (_, nothing) ↦
      subst
        (λ (r : Option Frame × FrameScheduler).
          waiting s id ≡ of_request id (popped_list r.0) ++ waiting r.1 id)
        (sym nothing) refl
  | inr p ↦
      let taken = Popping-IsTaken p in
      simp (taken.frame_out, taken.control_left, e) (pop-waiting p id h)
]

next_with-waiting :
    {s : FrameScheduler} (control : List Frame) (id : String)
    → IsValid s
    → IsSorted s
    → s.control ≡ control
    → let (out, t) = next_with s control in
      waiting s id ≡ of_request id (frames_out out) ++ waiting t id
unfolding next_with
next_with-waiting (frame ∷ rest) id v h e = rw e (ground arith)
next_with-waiting {s} [] id v h e =
    let (out, left) = after_pop-frames_out (pop_next_request s) in
    rw (out, left) (pop_next_request-waiting id v h e)

next-waiting :
    {s : FrameScheduler} (id : String)
    → IsValid s
    → IsSorted s
    → waiting s id ≡ of_request id (delivered_by s nexts) ++ waiting (next s).1 id
unfolding delivered_by next
next-waiting {s} id v h = next_with-waiting s.control id v h refl

pub step-waiting :
    {s : FrameScheduler} (call : Call) (id : String)
    → IsValid s
    → IsSorted s
    → (step s call).closed ≡ false
    → waiting s id ++ of_request id (accepted_by s call)
      ≡ of_request id (delivered_by s call) ++ waiting (step s call) id
unfolding step accepted_by delivered_by close
step-waiting (enqueues frame) id v h o = enqueue-waiting frame id h
step-waiting {s} nexts id v h o = rw append-nil (next-waiting id v h)
step-waiting {s} closes id v h o = ground (arith, append-nil (waiting s id))
