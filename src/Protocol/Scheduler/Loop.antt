-- ===== src/Protocol/Scheduler/Loop.antt =====
-- The loop of `popNextRequestLocked` ends, whatever the queues hold.
use http_tunnels.Prelude.{
  ℕ, zero, suc, ◌+◌, ◌-◌, ◌≤◌, ◌<◌, String, true, Option, none, List, [], ◌∷◌, ◌++◌, ◌≡◌, ◌⊎◌, inl,
  inr, refl, ap, sym, ◌∙◌, arith, length, length-append, eq_iff,
}
use http_tunnels.Prelude.Dict.{erase}
use http_tunnels.Protocol.{Frame}
use http_tunnels.Protocol.Scheduler.{
  FrameScheduler, queue_of, remove_order_index, in_range, pop_queue, pop_from, pop_next_request,
}
use http_tunnels.Protocol.Scheduler.Order.{contains, contains_middle, Split, split_at}
use http_tunnels.Protocol.Scheduler.Valid.{queue_of-erase}
use http_tunnels.Protocol.Scheduler.Turns.{
  length-order, removed_order, take_frame-IsTaken, pop_from-turn,
}

-- `order` and the queues do not depend on the index.
in_range-keeps :
    (s : FrameScheduler) → ((in_range s).order ≡ s.order) × ((in_range s).queues ≡ s.queues)
unfolding in_range
in_range-keeps s = ground arith

in_range-lt : (s : FrameScheduler) → 0 < length s.order → (in_range s).next_index < length s.order
unfolding in_range
in_range-lt s h = ground arith

entry : (s : FrameScheduler) → 0 < length s.order → Split (in_range s).order (in_range s).next_index
entry s h =
    split_at (in_range s).order (in_range s).next_index (rw (in_range-keeps s).0 (in_range-lt s h))

-- What a turn goes on with when the queue of its entry is empty.
abbrev dropped : (s : FrameScheduler) → Split s.order s.next_index → FrameScheduler
dropped s cut = remove_order_index (record s { queues = erase cut.here s.queues }) s.next_index

dropped-keeps :
    (s : FrameScheduler) (cut : Split s.order s.next_index)
    → ((dropped s cut).order ≡ cut.before ++ cut.after)
      × ((dropped s cut).queues ≡ erase cut.here s.queues)
unfolding remove_order_index
dropped-keeps s cut = ground (arith, length-order s cut, cut.index, removed_order s cut)

length-dropped :
    (s : FrameScheduler) (cut : Split s.order s.next_index)
    → suc (length (dropped s cut).order) ≡ length s.order
length-dropped s cut = omega (
  arith,
  ap length (dropped-keeps s cut).0,
  length-append cut.before cut.after,
  length-order s cut,
)

-- A turn that goes on leaves a shorter list.
length-entry-dropped :
    (s : FrameScheduler) (h : 0 < length s.order)
    → suc (length (dropped (in_range s) (entry s h)).order) ≡ length s.order
length-entry-dropped s h = length-dropped (in_range s) (entry s h) ∙ ap length (in_range-keeps s).0

pop_queue-congr :
    (again again' : FrameScheduler → Option Frame × FrameScheduler) (s : FrameScheduler)
    (cut : Split s.order s.next_index) (queue : List Frame)
    → again (dropped s cut) ≡ again' (dropped s cut)
    → pop_queue again s cut.here queue ≡ pop_queue again' s cut.here queue
unfolding pop_queue
pop_queue-congr again again' s cut [] h = h
pop_queue-congr again again' s cut (frame ∷ rest) h = refl

order-cases : (s : FrameScheduler) → (s.order ≡ []) ⊎ (0 < length s.order)
order-cases s = go s.order refl
  where
    go : (order : List String) → s.order ≡ order → (s.order ≡ []) ⊎ (0 < length s.order)
    go [] e = inl e
    go (id ∷ order) e = inr (rw e (omega arith))

pop_from-nil : (fuel : ℕ) (s : FrameScheduler) → s.order ≡ [] → pop_from fuel s ≡ (none, s)
unfolding pop_from
pop_from-nil zero s h = refl
pop_from-nil (suc fuel) s h = ground arith

pop_from-more :
    (fuel : ℕ) (s : FrameScheduler)
    → length s.order ≤ fuel
    → pop_from (suc fuel) s ≡ pop_from fuel s
pop_from-more zero s h = elim (order-cases s) [
  | inl e ↦ pop_from-nil 1 s e ∙ sym (pop_from-nil 0 s e)
  | inr filled ↦ absurd (omega arith)
]
pop_from-more (suc fuel) s h = elim (order-cases s) [
  | inl e ↦ pop_from-nil (suc (suc fuel)) s e ∙ sym (pop_from-nil (suc fuel) s e)
  | inr filled ↦
      let t = in_range s in
      let cut = entry s filled in
      pop_from-turn (suc fuel) s cut filled
      ∙ pop_queue-congr (pop_from (suc fuel)) (pop_from fuel) t cut (queue_of t cut.here)
          (pop_from-more fuel (dropped t cut) (omega (arith, length-entry-dropped s filled)))
      ∙ sym (pop_from-turn fuel s cut filled)
]

pop_from-enough :
    (extra : ℕ) (s : FrameScheduler) → pop_from (extra + length s.order) s ≡ pop_next_request s
unfolding pop_next_request
pop_from-enough zero s = ap (λ n. pop_from n s) (omega arith)
pop_from-enough (suc extra) s =
    ap (λ n. pop_from n s) (omega arith)
    ∙ pop_from-more (extra + length s.order) s (omega arith)
    ∙ pop_from-enough extra s

-- No queue that is listed has a frame.
abbrev pub IsDrained : FrameScheduler → Type 0
IsDrained s = (id : String) → contains id s.order ≡ true → queue_of s id ≡ []

dropped-IsDrained :
    (s : FrameScheduler) (cut : Split s.order s.next_index)
    → queue_of s cut.here ≡ []
    → IsDrained (dropped s cut)
    → IsDrained s
dropped-IsDrained s cut empty h id listed = ground (
  arith,
  dropped-keeps s cut,
  queue_of-erase s (dropped s cut) cut.here id,
  h id,
  cut.parts,
  contains_middle id cut.here cut.before cut.after,
  eq_iff id cut.here,
)

pop_queue-IsDrained :
    (fuel : ℕ) (s : FrameScheduler) (cut : Split s.order s.next_index) (queue : List Frame)
    → queue_of s cut.here ≡ queue
    → ((pop_from fuel (dropped s cut)).0 ≡ none → IsDrained (dropped s cut))
    → (pop_queue (pop_from fuel) s cut.here queue).0 ≡ none
    → IsDrained s
unfolding pop_queue
pop_queue-IsDrained fuel s cut [] e next h = dropped-IsDrained s cut e (next h)
pop_queue-IsDrained fuel s cut (frame ∷ rest) e next h =
    cc (take_frame-IsTaken s cut frame rest).frame_out

nil-IsDrained : (s : FrameScheduler) → s.order ≡ [] → IsDrained s
nil-IsDrained s e id listed = ground arith

in_range-IsDrained : (s : FrameScheduler) → IsDrained (in_range s) → IsDrained s
in_range-IsDrained s h id listed = ground (arith, in_range-keeps s, h id)

pop_from-IsDrained :
    (fuel : ℕ) (s : FrameScheduler)
    → length s.order ≤ fuel
    → (pop_from fuel s).0 ≡ none
    → IsDrained s
pop_from-IsDrained zero s h e = elim (order-cases s) [
  | inl empty ↦ nil-IsDrained s empty
  | inr filled ↦ absurd (omega arith)
]
pop_from-IsDrained (suc fuel) s h e = elim (order-cases s) [
  | inl empty ↦ nil-IsDrained s empty
  | inr filled ↦
      let t = in_range s in
      let cut = entry s filled in
      in_range-IsDrained s (
        pop_queue-IsDrained fuel t cut (queue_of t cut.here) refl
          (pop_from-IsDrained fuel (dropped t cut) (omega (arith, length-entry-dropped s filled)))
          (ap (λ r. r.0) (sym (pop_from-turn fuel s cut filled)) ∙ e))
]

-- The loop of `popNextRequestLocked` ends within as many turns as `order` has entries, for any
-- scheduler, valid or not: turns beyond these change nothing. It comes back without a frame only
-- if no request that `order` lists has one.
pub pop_from-ends :
    (s : FrameScheduler) (fuel : ℕ)
    → length s.order ≤ fuel
    → (pop_from fuel s ≡ pop_next_request s) × ((pop_from fuel s).0 ≡ none → IsDrained s)
pop_from-ends s fuel h = (
  ap (λ n. pop_from n s) (omega arith) ∙ pop_from-enough (fuel - length s.order) s,
  pop_from-IsDrained fuel s h,
)
