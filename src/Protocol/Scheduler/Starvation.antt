-- ===== src/Protocol/Scheduler/Starvation.antt =====
-- A request that waits at the front of `order` while short requests keep coming.
use http_tunnels.Prelude.{
  String, false, some, List, [], ◌∷◌, ◌++◌, ◌≡◌, refl, ap, sym, ◌∙◌, arith, length, length-append,
  str_eq, eq_iff, eq_refl, if◌then◌else◌, flat_map,
}
use mathlib.Core.Path.{subst}
use http_tunnels.Protocol.{Frame}
use http_tunnels.Protocol.Scheduler.{
  FrameScheduler, queue_of, pop_next_request, enqueue, enqueue_request, put_frame, enqueues, nexts,
  step, Call, run, delivered, delivered_by,
}
use http_tunnels.Protocol.Scheduler.Order.{IsNodup, Split}
use http_tunnels.Protocol.Scheduler.Valid.{IsValid, queue_of-insert, queue_of-erase}
use http_tunnels.Protocol.Scheduler.Turns.{served_out, take_frame-last, pop_next_request-cut}
use http_tunnels.Protocol.Scheduler.Pops.{popped_list, empty_of, step-IsValid}
use http_tunnels.Protocol.Scheduler.Fairness.{step-nexts}

-- `waiting` waits behind the index, and the request at the index has one frame.
pub record IsStarving (id current : String) (s : FrameScheduler) : Type 0 where
  pub valid : IsValid s
  pub still_open : s.closed ≡ false
  pub quiet : s.control ≡ []
  pub order : s.order ≡ id ∷ current ∷ []
  pub index : s.next_index ≡ 1
  pub short : length (queue_of s current) ≡ 1

put_frame-starving :
    {id current : String} {s : FrameScheduler} (frame : Frame)
    → IsStarving id current s
    → IsNodup (id ∷ current ∷ frame.request_id ∷ [])
    → str_eq frame.request_id "" ≡ false
    → step s (enqueues frame) ≡ put_frame s frame
unfolding step enqueue enqueue_request
put_frame-starving {id} {current} {s} frame w fresh named =
    let j = frame.request_id in
    ground (
      arith,
      w.still_open,
      w.valid.listed j,
      w.order,
      w.valid.some_room,
      fresh,
      eq_iff j id,
      eq_iff j current,
      eq_iff id j,
      eq_iff current j,
    )

single : (queue : List Frame) → length queue ≡ 1 → (frame : Frame) × (queue ≡ frame ∷ [])
single [] h = absurd (omega arith)
single (frame ∷ []) h = (frame, refl)
single (frame ∷ f ∷ rest) h = absurd (omega arith)

module _ {id current : String} {s : FrameScheduler} (frame : Frame) (w : IsStarving id current s)
    (fresh : IsNodup (id ∷ current ∷ frame.request_id ∷ [])) where
  abbrev with_frame : FrameScheduler
  with_frame = put_frame s frame

  -- The new request is not listed yet, and goes to the end.
  unlisted : queue_of s frame.request_id ≡ []
  unlisted = empty_of (queue_of s frame.request_id) (
      ground (
        arith,
        w.valid.listed frame.request_id,
        w.order,
        fresh,
        eq_iff frame.request_id id,
        eq_iff frame.request_id current,
        eq_iff id frame.request_id,
        eq_iff current frame.request_id,
      ))

  with_frame-order : with_frame.order ≡ id ∷ current ∷ frame.request_id ∷ []
  with_frame-order = ground (arith, unlisted, w.order)

  abbrev cut : Split with_frame.order with_frame.next_index
  cut = record {
    before = id ∷ [];
    here = current;
    after = frame.request_id ∷ [];
    parts = with_frame-order;
    index = w.index;
  }

  with_frame-queue :
      (j : String)
      → queue_of with_frame j ≡ (if str_eq j frame.request_id then frame ∷ [] else queue_of s j)
  with_frame-queue j =
      queue_of-insert s with_frame frame.request_id j (queue_of s frame.request_id ++ frame ∷ [])
        refl
      ∙ ap (λ queue. if str_eq j frame.request_id then queue ++ frame ∷ [] else queue_of s j)
          unlisted

  abbrev after_next : FrameScheduler
  after_next = served_out with_frame cut

  current_frame : (f : Frame) × (queue_of with_frame current ≡ f ∷ [])
  current_frame =
      single (queue_of with_frame current)
        (ground (arith, with_frame-queue current, w.short, fresh, eq_iff current frame.request_id))

  pops_current : pop_next_request with_frame ≡ (some current_frame.0, after_next)
  pops_current =
      pop_next_request-cut with_frame cut current_frame.0 [] current_frame.1
      ∙ take_frame-last with_frame cut current_frame.0

  after_next-queue :
      (j : String)
      → queue_of after_next j ≡ (if str_eq j current then [] else queue_of with_frame j)
  after_next-queue j = queue_of-erase with_frame after_next current j refl

  stepped : step with_frame nexts ≡ after_next
  stepped = (step-nexts with_frame w.quiet).1 ∙ ap (λ r. r.1) pops_current

  delivers_one : length (delivered_by with_frame nexts) ≡ 1
  delivers_one =
      ap length ((step-nexts with_frame w.quiet).0 ∙ ap (λ r. popped_list r.0) pops_current)

  keeps_waiting : queue_of after_next id ≡ queue_of s id
  keeps_waiting = ground (arith, after_next-queue id, with_frame-queue id, fresh, eq_iff id current)

  still-IsStarving : IsValid with_frame → IsStarving id frame.request_id after_next
  still-IsStarving v = record {
    valid = subst IsValid stepped (step-IsValid nexts v);
    still_open = w.still_open;
    quiet = w.quiet;
    order = refl;
    index = refl;
    short = ground (
      arith,
      after_next-queue frame.request_id,
      with_frame-queue frame.request_id,
      fresh,
      eq_refl frame.request_id,
      eq_iff current frame.request_id,
      eq_iff frame.request_id current,
    );
  }

-- What a `Next` on `t` does: `id` waits as before, behind the index.
abbrev Passes : String → String → FrameScheduler → FrameScheduler → Type 0
Passes id j s t =
    IsStarving id j (step t nexts)
    × (queue_of (step t nexts) id ≡ queue_of s id)
    × (length (delivered_by t nexts) ≡ 1)

passes :
    {id current : String} {s : FrameScheduler} (frame : Frame)
    → IsStarving id current s
    → IsNodup (id ∷ current ∷ frame.request_id ∷ [])
    → str_eq frame.request_id "" ≡ false
    → Passes id frame.request_id s (step s (enqueues frame))
passes {id} {current} {s} frame w fresh named =
    let e = put_frame-starving frame w fresh named in
    let u = stepped frame w fresh in
    let v = subst IsValid e (step-IsValid (enqueues frame) w.valid) in
    subst (Passes id frame.request_id s) (sym e) (
      subst (IsStarving id frame.request_id) (sym u) (still-IsStarving frame w fresh v),
      ap (λ t. queue_of t id) u ∙ keeps_waiting frame w fresh,
      delivers_one frame w fresh,
    )

-- A frame of a new request, and a call of `Next`, time and again.
abbrev pub stream : List Frame → List Call
stream = flat_map (λ frame. enqueues frame ∷ nexts ∷ [])

-- No two neighbours of the stream have the same request, none has the starving one, and all are of a request.
abbrev IsStream : String → String → List Frame → Type 0
IsStream id current [] = Unit
IsStream id current (frame ∷ frames) =
    IsNodup (id ∷ current ∷ frame.request_id ∷ [])
    × (str_eq frame.request_id "" ≡ false)
    × IsStream id frame.request_id frames

-- A request that waits behind the index is starved, for as long as requests of one frame keep
-- coming in: while one other request, with one frame, is at the index, those two are all that order
-- lists and no control frame waits, a frame of a new request and a call of `Next`, time and again,
-- leave its queue as it is, although every call hands out a frame.
pub stream-starves :
    (frames : List Frame) {id current : String} {s : FrameScheduler}
    → IsStarving id current s
    → IsStream id current frames
    → (queue_of (run s (stream frames)) id ≡ queue_of s id)
      × (length (delivered s (stream frames)) ≡ length frames)
unfolding run delivered delivered_by
stream-starves [] w h = (refl, refl)
stream-starves (frame ∷ frames) {id} {current} {s} w (fresh, named, more) =
    let (on, same, one) = passes frame w fresh named in
    let rest = stream-starves frames on more in
    (
      rest.0 ∙ same,
      length-append (delivered_by (step s (enqueues frame)) nexts) _ ∙ omega (arith, one, rest.1),
    )
