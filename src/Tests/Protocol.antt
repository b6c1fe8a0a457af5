-- ===== src/Tests/Protocol.antt =====
-- A scheduler at work, from the first frame on.
use http_tunnels.Prelude.{
  String, false, none, List, [], ◌∷◌, ◌++◌, ◌≡◌, ◌↔◌, refl, arith, length, ltb,
}
use http_tunnels.Prelude.Int.{pos}
use http_tunnels.Prelude.Dict.{lookup, insert, erase}
use http_tunnels.Protocol.{Frame, frame_of, request_body, request_end, ping}
use http_tunnels.Protocol.Scheduler
use http_tunnels.Protocol.Scheduler.{
  FrameScheduler, new_frame_scheduler, Call, enqueues, nexts, run, next, accepted, delivered,
  queue_of, pop_from, pop_next_request, waits,
}
use http_tunnels.Protocol.Scheduler.Order.{contains}
use http_tunnels.Protocol.Scheduler.Valid.{IsValid}
use http_tunnels.Protocol.Scheduler.Pops.{run-IsValid}
use http_tunnels.Protocol.Scheduler.Traces.{of_request, waiting}
use http_tunnels.Protocol.Scheduler.Streams.{accepted-delivered}
use http_tunnels.Protocol.Scheduler.Loop.{IsDrained, pop_from-ends}
use http_tunnels.Protocol.Scheduler.Ring.{ring}
use http_tunnels.Protocol.Scheduler.Fairness.{heads, repeat, delivered-ring}
use http_tunnels.Protocol.Scheduler.Starvation.{IsStarving, stream, stream-starves}
use http_tunnels.Protocol.Scheduler.Waits.{IsIdle, next-waits_iff}

abbrev frame_a : Frame
frame_a = frame_of request_body "a"

abbrev frame_b : Frame
frame_b = frame_of request_end "b"

abbrev empty : FrameScheduler
empty = new_frame_scheduler (pos 2)

-- Two frames of "a", the second one waits for room no longer than it must; one of "b"; a ping.
abbrev calls : List Call
calls =
    enqueues frame_a
    ∷ enqueues frame_a
    ∷ enqueues frame_b
    ∷ enqueues (frame_of ping "")
    ∷ nexts
    ∷ nexts
    ∷ []

abbrev busy : FrameScheduler
busy = run empty calls

-- The ping and a frame of "a" are out.
busy-fields :
    (busy.closed ≡ false)
    × (busy.control ≡ [])
    × (busy.order ≡ "a" ∷ "b" ∷ [])
    × (busy.next_index ≡ 1)
    × (length (queue_of busy "b") ≡ 1)
unfolding run Scheduler.step Scheduler.enqueue Scheduler.enqueue_control Scheduler.enqueue_request
    next Scheduler.next_with Scheduler.after_pop pop_next_request pop_from Scheduler.pop_entry
    Scheduler.pop_queue Scheduler.take_frame Scheduler.in_range Scheduler.get_elem?
    Scheduler.erase_idx Scheduler.remove_order_index new_frame_scheduler Scheduler.limit_of lookup
    insert erase
busy-fields = (refl, refl, refl, refl, refl)

accepted-delivered_example :
    of_request "a" (accepted empty calls)
    ≡ of_request "a" (delivered empty calls) ++ waiting busy "a"
accepted-delivered_example = accepted-delivered (pos 2) calls "a" busy-fields.0

run-IsValid_example : IsValid busy
run-IsValid_example = run-IsValid (pos 2) calls

pop_from-ends_example :
    (pop_from 7 busy ≡ pop_next_request busy) × ((pop_from 7 busy).0 ≡ none → IsDrained busy)
pop_from-ends_example = pop_from-ends busy 7 (rw busy-fields.2 (omega arith))

delivered-ring_example :
    (delivered busy (repeat (length busy.order) nexts) ≡ heads busy (ring busy))
    × ((id : String) → contains id (ring busy) ≡ ltb 0 (length (queue_of busy id)))
delivered-ring_example = delivered-ring busy (run-IsValid (pos 2) calls) busy-fields.1

next-waits_iff_example : ((next (run empty [])).0 ≡ waits) ↔ IsIdle (run empty [])
next-waits_iff_example = next-waits_iff (run empty []) (run-IsValid (pos 2) [])

busy-IsStarving : IsStarving "a" "b" busy
busy-IsStarving = record {
  valid = run-IsValid (pos 2) calls;
  still_open = busy-fields.0;
  quiet = busy-fields.1;
  order = busy-fields.2;
  index = busy-fields.3;
  short = busy-fields.4;
}

abbrev newcomers : List Frame
newcomers = frame_of request_end "c" ∷ frame_of request_end "d" ∷ []

stream-starves_example :
    (queue_of (run busy (stream newcomers)) "a" ≡ queue_of busy "a")
    × (length (delivered busy (stream newcomers)) ≡ 2)
stream-starves_example =
    stream-starves newcomers busy-IsStarving
      ((refl, (refl, (refl, tt))), refl, ((refl, (refl, (refl, tt))), refl, tt))
