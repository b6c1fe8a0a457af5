-- ===== src/Protocol/Scheduler/Turns.antt =====
-- What one turn of `popNextRequestLocked` takes and leaves.
use http_tunnels.Prelude.{
  ℕ, suc, ◌+◌, ◌<◌, String, false, Option, some, List, [], ◌∷◌, ◌++◌, ◌≡◌, inr, refl, ap, sym, ◌∙◌,
  arith, length, length-append, ◌==◌, str_eq, eq_iff, if◌then◌else◌,
}
use mathlib.Core.Path.{subst}
use http_tunnels.Prelude.Dict.{erase}
use http_tunnels.Protocol.{Frame}
use http_tunnels.Protocol.Scheduler.{
  FrameScheduler, queue_of, get_elem?, erase_idx, remove_order_index, take_frame, pop_queue,
  pop_entry, in_range, pop_from, pop_next_request,
}
use http_tunnels.Protocol.Scheduler.Order.{
  contains_middle, IsNodup-middle, Split, get_elem?-middle, erase_idx-middle,
}
use http_tunnels.Protocol.Scheduler.Valid.{IsValid, queue_of-erase, queue_of-insert}

-- What a turn of `popNextRequestLocked` leaves, with `order` split at `next_index`.
module _ (s : FrameScheduler) (cut : Split s.order s.next_index) where
  open cut use {before, here, after, parts, index}

  pub removed_order : erase_idx s.order s.next_index ≡ before ++ after
  removed_order = rw (parts, index) (erase_idx-middle before here after)

  pub length-order : length s.order ≡ length before + suc (length after)
  length-order = rw parts (length-append before (here ∷ after))

  pub length-removed_order : length (erase_idx s.order s.next_index) ≡ length before + length after
  length-removed_order = rw removed_order (length-append before after)

  -- The next index once the last frame of `here` has gone.
  abbrev pub index_after : ℕ
  index_after = if length after == 0 then 0 else length before

  abbrev pub served_out : FrameScheduler
  served_out = record s {
    queues = erase here s.queues;
    order = before ++ after;
    next_index = index_after;
  }

  pub take_frame-last : (frame : Frame) → take_frame s here frame [] ≡ (some frame, served_out)
  unfolding take_frame remove_order_index
  take_frame-last frame =
      ground (arith, removed_order, length-order, length-append before after, index)

  pub served_out-IsValid : (frame : Frame) → IsValid s → s.closed ≡ false → IsValid served_out
  served_out-IsValid frame v h =
      let now = λ (j : String). queue_of-erase s served_out here j refl in
      let fresh = IsNodup-middle here before after (rw parts at v.nodup) in
      record {
        some_room = v.some_room;
        bounded = λ j. ground (arith, now j, v.bounded j);
        nodup = fresh.0;
        listed = λ j. ground (
          arith,
          now j,
          v.listed j,
          fresh.1,
          contains_middle j here before after,
          parts,
          eq_iff j here,
        );
        at = ground (arith, length-append before after);
        emptied = λ e. cc;
      }

  pub take_frame-IsValid :
      (frame : Frame) (rest : List Frame)
      → IsValid s
      → s.closed ≡ false
      → queue_of s here ≡ frame ∷ rest
      → IsValid (take_frame s here frame rest).1
  unfolding take_frame
  take_frame-IsValid frame [] v h q =
      subst (λ t. IsValid t.1) (sym (take_frame-last frame)) (served_out-IsValid frame v h)
  take_frame-IsValid frame (f ∷ rest) v h q = record {
    some_room = v.some_room;
    bounded = λ j. ground (
      arith,
      queue_of-insert s (take_frame s here frame (f ∷ rest)).1 here j (f ∷ rest) refl,
      v.bounded j,
      v.bounded here,
    );
    nodup = v.nodup;
    listed = λ j. ground (
      arith,
      queue_of-insert s (take_frame s here frame (f ∷ rest)).1 here j (f ∷ rest) refl,
      v.listed j,
      v.listed here,
      eq_iff j here,
    );
    at = inr (inr (omega (arith, length-order)));
    emptied = λ e. cc;
  }

-- What a turn that pops hands out, and what it leaves.
pub record IsTaken (s : FrameScheduler) (id : String) (frame : Frame) (rest : List Frame)
    (out : Option Frame × FrameScheduler) : Type 0 where
  pub frame_out : out.0 ≡ some frame
  pub queues_left : (j : String) → queue_of out.1 j ≡ (if str_eq j id then rest else queue_of s j)
  pub control_left : out.1.control ≡ s.control
  pub closed_left : out.1.closed ≡ s.closed

take_frame-more-IsTaken :
    (s : FrameScheduler) (id : String) (frame f : Frame) (rest : List Frame)
    → IsTaken s id frame (f ∷ rest) (take_frame s id frame (f ∷ rest))
unfolding take_frame
take_frame-more-IsTaken s id frame f rest = record {
  frame_out = refl;
  queues_left = λ j. queue_of-insert s (take_frame s id frame (f ∷ rest)).1 id j (f ∷ rest) refl;
  control_left = refl;
  closed_left = refl;
}

pub take_frame-IsTaken :
    (s : FrameScheduler) (cut : Split s.order s.next_index) (frame : Frame) (rest : List Frame)
    → IsTaken s cut.here frame rest (take_frame s cut.here frame rest)
take_frame-IsTaken s cut frame [] =
    subst (IsTaken s cut.here frame []) (sym (take_frame-last s cut frame)) (record {
      frame_out = refl;
      queues_left = λ j. queue_of-erase s (served_out s cut) cut.here j refl;
      control_left = refl;
      closed_left = refl;
    })
take_frame-IsTaken s cut frame (f ∷ rest) = take_frame-more-IsTaken s cut.here frame f rest

in_range_of_lt : (s : FrameScheduler) → s.next_index < length s.order → in_range s ≡ s
unfolding in_range
in_range_of_lt s h = ground arith

get_elem?-cut :
    (s : FrameScheduler) (cut : Split s.order s.next_index)
    → get_elem? s.order s.next_index ≡ some cut.here
get_elem?-cut s cut = rw (cut.parts, cut.index) (get_elem?-middle cut.before cut.here cut.after)

-- A turn of the loop with its index brought into range.
pub pop_from-turn :
    (fuel : ℕ) (s : FrameScheduler) (cut : Split (in_range s).order (in_range s).next_index)
    → 0 < length s.order
    → let t = in_range s in
      pop_from (suc fuel) s ≡ pop_queue (pop_from fuel) t cut.here (queue_of t cut.here)
unfolding pop_from pop_entry
pop_from-turn fuel s cut h =
    let filled : (length s.order == 0) ≡ false = ground arith in
    rw (filled, get_elem?-cut (in_range s) cut) refl

-- A turn pops from the request at the index, if that has a frame.
pop_from-cut :
    (s : FrameScheduler) (cut : Split s.order s.next_index) (fuel : ℕ) (frame : Frame)
    (rest : List Frame)
    → queue_of s cut.here ≡ frame ∷ rest
    → pop_from (suc fuel) s ≡ take_frame s cut.here frame rest
unfolding pop_from pop_entry pop_queue
pop_from-cut s cut fuel frame rest q =
    let filled : (length s.order == 0) ≡ false = ground (arith, length-order s cut) in
    rw
      (
        filled,
        in_range_of_lt s (omega (arith, length-order s cut, cut.index)),
        get_elem?-cut s cut,
        q,
      )
      refl

pub pop_next_request-cut :
    (s : FrameScheduler) (cut : Split s.order s.next_index) (frame : Frame) (rest : List Frame)
    → queue_of s cut.here ≡ frame ∷ rest
    → pop_next_request s ≡ take_frame s cut.here frame rest
unfolding pop_next_request
pop_next_request-cut s cut frame rest q =
    ap (λ n. pop_from n s) (omega (arith, length-order s cut))
    ∙ pop_from-cut s cut (length cut.before + length cut.after) frame rest q
