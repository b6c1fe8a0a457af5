-- ===== src/Protocol/Scheduler.antt =====
-- FrameScheduler of internal/protocol/scheduler.go: the frames that wait for the one writer of a
-- connection. A call runs under the mutex. Where the code waits on the condition variable, the
-- attempt returns `waits` and the state it has reached: the call goes on with another attempt
-- once it is woken.
pub mod Order
pub mod Valid
pub mod Turns
pub mod Pops
pub mod Traces
pub mod Streams
pub mod Loop
pub mod Ring
pub mod Fairness
pub mod Starvation
pub mod Waits
use http_tunnels.Prelude.{
  ℕ, zero, suc, ◌+◌, ◌-◌, ◌%◌, String, Bool, true, false, Option, none, some, List, [], ◌∷◌, ◌++◌,
  length, ltb, leb, ◌==◌, if◌then◌else◌, or_default, str_eq,
}
use http_tunnels.Prelude.Int.{ℤ, pos, negsuc}
use http_tunnels.Prelude.Dict.{Dict, lookup, insert, erase}
use http_tunnels.Protocol.{Frame}

abbrev pub default_per_request_frame_queue : ℕ
default_per_request_frame_queue = 16

pub record FrameScheduler : Type 0 where
  pub closed : Bool
  pub per_request_limit : ℕ
  pub control : List Frame
  pub queues : Dict (List Frame)
  pub order : List String
  pub next_index : ℕ

-- The limit of `NewFrameScheduler(perRequestLimit)`.
unfoldable pub limit_of : ℤ → ℕ
limit_of (pos (suc n)) = suc n
limit_of _ = default_per_request_frame_queue

unfoldable pub new_frame_scheduler : ℤ → FrameScheduler
new_frame_scheduler limit = record {
  closed = false;
  per_request_limit = limit_of limit;
  control = [];
  queues = [];
  order = [];
  next_index = 0;
}

-- What an attempt comes to.
pub data Outcome (A : Type 0) : Type 0 where
  returned : A → Outcome A
  scheduler_closed : Outcome A
  waits : Outcome A

-- The queue of a request; a key that is absent reads as nil.
abbrev pub queue_of : FrameScheduler → String → List Frame
queue_of s id = or_default (lookup id s.queues) []

pub close : FrameScheduler → FrameScheduler
close s = if s.closed then s else record s { closed = true; control = []; queues = []; order = [] }

unfoldable pub enqueue_control : FrameScheduler → Option Frame → Outcome Unit × FrameScheduler
enqueue_control s none = (returned tt, s)
enqueue_control s (some frame) =
    if s.closed
    then (scheduler_closed, s)
    else (returned tt, record s { control = s.control ++ frame ∷ [] })

-- The frame goes to the end of its request's queue.
abbrev pub put_frame : FrameScheduler → Frame → FrameScheduler
put_frame s frame =
    let id = frame.request_id in
    let queue = queue_of s id in
    record s {
      order = if length queue == 0 then s.order ++ id ∷ [] else s.order;
      queues = insert id (queue ++ frame ∷ []) s.queues;
    }

-- One turn of the loop of `Enqueue`.
unfoldable pub enqueue_request : FrameScheduler → Frame → Outcome Unit × FrameScheduler
enqueue_request s frame =
    if s.closed
    then (scheduler_closed, s)
    else if ltb (length (queue_of s frame.request_id)) s.per_request_limit
    then (returned tt, put_frame s frame)
    else (waits, s)

unfoldable pub enqueue : FrameScheduler → Option Frame → Outcome Unit × FrameScheduler
enqueue s none = (returned tt, s)
enqueue s (some frame) =
    if str_eq frame.request_id "" then enqueue_control s (some frame) else enqueue_request s frame

-- `order[idx]`, and `order` without it.
unfoldable pub get_elem? {ℓ} : {A : Type ℓ} → List A → ℕ → Option A
get_elem? [] i = none
get_elem? (x ∷ xs) zero = some x
get_elem? (x ∷ xs) (suc i) = get_elem? xs i

unfoldable pub erase_idx {ℓ} : {A : Type ℓ} → List A → ℕ → List A
erase_idx [] i = []
erase_idx (x ∷ xs) zero = xs
erase_idx (x ∷ xs) (suc i) = x ∷ erase_idx xs i

unfoldable pub remove_order_index : FrameScheduler → ℕ → FrameScheduler
remove_order_index s idx =
    if leb (length s.order) idx
    then s
    else let order = erase_idx s.order idx in
      let next = if ltb idx s.next_index then s.next_index - 1 else s.next_index in
      record s {
        order = order;
        next_index = if length order == 0 then 0 else if leb (length order) next then 0 else next;
      }

-- The head of the queue at `next_index` goes out.
unfoldable pub take_frame :
    FrameScheduler → String → Frame → List Frame → Option Frame × FrameScheduler
take_frame s id frame [] =
    (some frame, remove_order_index (record s { queues = erase id s.queues }) s.next_index)
take_frame s id frame (f ∷ rest) = (
  some frame,
  record s {
    queues = insert id (f ∷ rest) s.queues;
    next_index = (s.next_index + 1) % length s.order;
  },
)

-- The loop of `popNextRequestLocked`. Its counter `visited` stays 0, so the loop goes on while
-- `order` is not empty; each turn that goes on takes an entry off `order`, and the fuel is its
-- length (Scheduler/Loop). An index past the end is impossible: `next_index` has just been
-- brought into range.
unfoldable pub in_range : FrameScheduler → FrameScheduler
in_range s = if leb (length s.order) s.next_index then record s { next_index = 0 } else s

-- A turn at the queue of the entry `id`, with what the next turn does: an empty queue is dropped,
-- of another one the first frame goes out.
unfoldable pub pop_queue :
    (FrameScheduler → Option Frame × FrameScheduler)
    → FrameScheduler
    → String
    → List Frame
    → Option Frame × FrameScheduler
pop_queue again s id [] =
    again (remove_order_index (record s { queues = erase id s.queues }) s.next_index)
pop_queue again s id (frame ∷ rest) = take_frame s id frame rest

unfoldable pub pop_entry :
    (FrameScheduler → Option Frame × FrameScheduler)
    → FrameScheduler
    → Option String
    → Option Frame × FrameScheduler
pop_entry again s none = (none, s)
pop_entry again s (some id) = pop_queue again s id (queue_of s id)

unfoldable pub pop_from : ℕ → FrameScheduler → Option Frame × FrameScheduler
pop_from zero s = (none, s)
pop_from (suc fuel) s =
    let again = λ (t : FrameScheduler). pop_from fuel t in
    let t = in_range s in
    if length s.order == 0 then (none, s) else pop_entry again t (get_elem? t.order t.next_index)

unfoldable pub pop_next_request : FrameScheduler → Option Frame × FrameScheduler
pop_next_request s = pop_from (length s.order) s

-- One turn of the loop of `Next`: the control frames come first.
unfoldable pub after_pop : Option Frame × FrameScheduler → Outcome Frame × FrameScheduler
after_pop (some frame, s) = (returned frame, s)
after_pop (none, s) = (if s.closed then scheduler_closed else waits, s)

unfoldable pub next_with : FrameScheduler → List Frame → Outcome Frame × FrameScheduler
next_with s (frame ∷ rest) = (returned frame, record s { control = rest })
next_with s [] = after_pop (pop_next_request s)

unfoldable pub next : FrameScheduler → Outcome Frame × FrameScheduler
next s = next_with s s.control

-- The calls of the connection's owner and of its writer, in the order in which they hold the mutex.
pub data Call : Type 0 where
  enqueues : Frame → Call
  nexts closes : Call

unfoldable pub step : FrameScheduler → Call → FrameScheduler
step s (enqueues frame) = (enqueue s (some frame)).1
step s nexts = (next s).1
step s closes = close s

unfoldable pub run : FrameScheduler → List Call → FrameScheduler
run s [] = s
run s (call ∷ calls) = run (step s call) calls

-- What a call adds to the frames that the scheduler has taken, and to those it has handed out.
pub accepted_by : FrameScheduler → Call → List Frame
accepted_by s (enqueues frame) = elim (enqueue s (some frame)).0 [
  | returned _ ↦ frame ∷ []
  | _ ↦ []
]
accepted_by s _ = []

abbrev pub frames_out : Outcome Frame → List Frame
frames_out (returned frame) = frame ∷ []
frames_out _ = []

pub delivered_by : FrameScheduler → Call → List Frame
delivered_by s nexts = frames_out (next s).0
delivered_by s _ = []

pub accepted : FrameScheduler → List Call → List Frame
accepted s [] = []
accepted s (call ∷ calls) = accepted_by s call ++ accepted (step s call) calls

pub delivered : FrameScheduler → List Call → List Frame
delivered s [] = []
delivered s (call ∷ calls) = delivered_by s call ++ delivered (step s call) calls
