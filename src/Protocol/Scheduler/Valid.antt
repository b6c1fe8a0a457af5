-- ===== src/Protocol/Scheduler/Valid.antt =====
-- The invariant of a scheduler, and that every call keeps it.
use http_tunnels.Prelude.{
  zero, suc, ◌≤◌, ◌<◌, String, true, false, Option, none, some, List, [], ◌∷◌, ◌++◌, ◌≡◌, ◌⊎◌, inl,
  inr, refl, arith, length, length-append, ltb, str_eq, eq_iff, if◌then◌else◌,
}
use http_tunnels.Prelude.Int.{ℤ, pos, negsuc}
use http_tunnels.Prelude.Dict.{insert, erase, lookup-nil, lookup-insert, lookup-erase}
use http_tunnels.Protocol.{Frame}
use http_tunnels.Protocol.Scheduler.{
  FrameScheduler, new_frame_scheduler, limit_of, queue_of, close, enqueue_control, enqueue_request,
  put_frame,
}
use http_tunnels.Protocol.Scheduler.Order.{contains, IsNodup, contains-append, IsNodup-snoc}

pub record IsValid (s : FrameScheduler) : Type 0 where
  -- The bound on a queue is not 0, and no queue passes it.
  pub some_room : 0 < s.per_request_limit
  pub bounded : (id : String) → length (queue_of s id) ≤ s.per_request_limit
  -- `order` lists, once each, the requests that have a frame waiting.
  pub nodup : IsNodup s.order
  pub listed : (id : String) → contains id s.order ≡ ltb 0 (length (queue_of s id))
  pub at : (s.closed ≡ true) ⊎ (s.next_index ≡ 0) ⊎ (s.next_index < length s.order)
  -- A closed scheduler holds nothing.
  pub emptied : s.closed ≡ true → (s.order ≡ []) × (s.control ≡ [])

limit_of-positive : (limit : ℤ) → 0 < limit_of limit
unfolding limit_of
limit_of-positive (pos zero) = omega arith
limit_of-positive (pos (suc n)) = omega arith
limit_of-positive (negsuc n) = omega arith

pub new_frame_scheduler-IsValid : (limit : ℤ) → IsValid (new_frame_scheduler limit)
unfolding new_frame_scheduler
new_frame_scheduler-IsValid limit = record {
  some_room = limit_of-positive limit;
  bounded = λ id. rw lookup-nil (omega arith);
  nodup = tt;
  listed = λ id. rw lookup-nil refl;
  at = inr (inl refl);
  emptied = λ h. cc;
}

emptied-IsValid :
    {s : FrameScheduler}
    → IsValid s
    → IsValid (record s { closed = true; control = []; queues = []; order = [] })
emptied-IsValid v = record {
  some_room = v.some_room;
  bounded = λ id. rw lookup-nil (omega arith);
  nodup = tt;
  listed = λ id. rw lookup-nil refl;
  at = inl refl;
  emptied = λ _. (refl, refl);
}

pub close-IsValid : {s : FrameScheduler} → IsValid s → IsValid (close s)
unfolding close
close-IsValid {s} v = ground (arith, emptied-IsValid v)

pub controlled-IsValid :
    {s : FrameScheduler} (control : List Frame)
    → s.closed ≡ false
    → IsValid s
    → IsValid (record s { control = control })
controlled-IsValid control h v = record {
  some_room = v.some_room;
  bounded = v.bounded;
  nodup = v.nodup;
  listed = v.listed;
  at = v.at;
  emptied = λ e. cc;
}

pub enqueue_control-IsValid :
    {s : FrameScheduler} (frame : Option Frame) → IsValid s → IsValid (enqueue_control s frame).1
unfolding enqueue_control
enqueue_control-IsValid none v = v
enqueue_control-IsValid {s} (some frame) v =
    ground (arith, λ (h : s.closed ≡ false). controlled-IsValid (s.control ++ frame ∷ []) h v)

-- The queues after a frame has been put at the end of one.
pub queue_of-insert :
    (s t : FrameScheduler) (id j : String) (queue : List Frame)
    → t.queues ≡ insert id queue s.queues
    → queue_of t j ≡ (if str_eq j id then queue else queue_of s j)
queue_of-insert s t id j queue h = rw (h, lookup-insert) (ground arith)

pub queue_of-erase :
    (s t : FrameScheduler) (id j : String)
    → t.queues ≡ erase id s.queues
    → queue_of t j ≡ (if str_eq j id then [] else queue_of s j)
queue_of-erase s t id j h = rw (h, lookup-erase) (ground arith)

put_frame-IsValid :
    {s : FrameScheduler} (frame : Frame)
    → IsValid s
    → s.closed ≡ false
    → length (queue_of s frame.request_id) < s.per_request_limit
    → IsValid (put_frame s frame)
put_frame-IsValid {s} frame v open_ room =
    let id = frame.request_id in
    let queue = queue_of s id in
    let now = queue_of-insert s (put_frame s frame) id in
    record {
      some_room = v.some_room;
      bounded = λ j.
          ground (
            arith,
            now j (queue ++ frame ∷ []) refl,
            length-append queue (frame ∷ []),
            v.bounded j,
          );
      nodup = ground (arith, v.nodup, v.listed id, IsNodup-snoc id s.order);
      listed = λ j. ground (
        arith,
        now j (queue ++ frame ∷ []) refl,
        length-append queue (frame ∷ []),
        v.listed j,
        v.listed id,
        contains-append j s.order (id ∷ []),
        eq_iff j id,
      );
      at = ground (arith, v.at, length-append s.order (id ∷ []));
      emptied = λ h. cc;
    }

pub enqueue_request-IsValid :
    {s : FrameScheduler} (frame : Frame) → IsValid s → IsValid (enqueue_request s frame).1
unfolding enqueue_request
enqueue_request-IsValid {s} frame v = ground (arith, put_frame-IsValid frame v)
