-- ===== src/Protocol/Scheduler/Fairness.antt =====
-- Who is served when: a round of the waiting requests, when nothing new comes in between.
use http_tunnels.Prelude.{
  ℕ, zero, suc, String, true, false, List, [], ◌∷◌, ◌++◌, ◌≡◌, inl, inr, refl, ap, ap₂, sym, ◌∙◌,
  arith, length, ltb, str_eq, eq_iff, eq_refl, flat_map,
}
use mathlib.Core.Path.{subst}
use mathlib.Core.List.{append_assoc, append-nil}
use http_tunnels.Protocol.{Frame}
use http_tunnels.Protocol.Scheduler.{
  FrameScheduler, queue_of, pop_next_request, next, next_with, nexts, step, Call, delivered,
  delivered_by, frames_out,
}
use http_tunnels.Protocol.Scheduler.Order.{contains, IsNodup}
use http_tunnels.Protocol.Scheduler.Valid.{IsValid}
use http_tunnels.Protocol.Scheduler.Pops.{
  Popping, Popping-IsTaken, pop-cases, popped_list, after_pop-frames_out, step-IsValid,
}
use http_tunnels.Protocol.Scheduler.Ring.{
  ring, ring-cut, ring-nil, length-ring, contains-ring, back, ring-take_frame, ring-IsNodup,
}

abbrev first : List Frame → List Frame
first [] = []
first (frame ∷ rest) = frame ∷ []

-- The first frame of each request.
abbrev pub heads : FrameScheduler → List String → List Frame
heads s = flat_map (λ id. first (queue_of s id))

abbrev pub repeat : ℕ → Call → List Call
repeat zero call = []
repeat (suc n) call = call ∷ repeat n call

-- What a call of `Next` does when `id` is at the front of the ring.
record Served (s : FrameScheduler) (id : String) (ids : List String) : Type 0 where
  out : delivered_by s nexts ≡ first (queue_of s id)
  valid : IsValid (step s nexts)
  quiet : (step s nexts).control ≡ []
  others : (j : String) → str_eq j id ≡ false → queue_of (step s nexts) j ≡ queue_of s j
  behind : List String
  ring_left : ring (step s nexts) ≡ ids ++ behind

next_with_of_nil :
    (s : FrameScheduler) (control : List Frame)
    → control ≡ []
    → let (out, t) = next_with s control in
      (frames_out out ≡ popped_list (pop_next_request s).0) × (t ≡ (pop_next_request s).1)
unfolding next_with
next_with_of_nil s [] h = after_pop-frames_out (pop_next_request s)
next_with_of_nil s (frame ∷ rest) h = cc

pub step-nexts :
    (s : FrameScheduler)
    → s.control ≡ []
    → (delivered_by s nexts ≡ popped_list (pop_next_request s).0)
      × (step s nexts ≡ (pop_next_request s).1)
unfolding step delivered_by next
step-nexts s h = next_with_of_nil s s.control h

serve-Popping :
    {s : FrameScheduler}
    → IsValid s
    → s.control ≡ []
    → (p : Popping s) → Served s p.cut.here (p.cut.after ++ p.cut.before)
serve-Popping {s} v q p =
    let (out, after_step) = step-nexts s q in
    let taken = Popping-IsTaken p in
    record {
      out = out ∙ ap popped_list taken.frame_out ∙ ap first (sym p.queue);
      valid = step-IsValid nexts v;
      quiet = ap (λ t. t.control) after_step ∙ taken.control_left ∙ q;
      others = λ j different.
          ap (λ t. queue_of t j) after_step ∙ taken.queues_left j ∙ rw different refl;
      behind = back p.cut.here p.rest;
      ring_left =
          ap ring after_step ∙ ap (λ r. ring r.1) p.result ∙ ring-take_frame s p.cut p.frame p.rest;
    }

serve :
    {s : FrameScheduler} (id : String) (ids : List String)
    → IsValid s
    → s.control ≡ []
    → ring s ≡ id ∷ ids
    → Served s id ids
serve {s} id ids v q e = elim (pop-cases v) [
  | inl (empty, _) ↦ absurd (cc (ring-nil s empty))
  | inr p ↦
      let same : p.cut.here ∷ p.cut.after ++ p.cut.before ≡ id ∷ ids = sym (ring-cut s p.cut) ∙ e in
      let front : p.cut.here ≡ id = cc in
      let others : p.cut.after ++ p.cut.before ≡ ids = cc in
      subst (λ (l : String × List String). Served s l.0 l.1) (ap₂ (λ i l. (i, l)) front others)
        (serve-Popping v q p)
]

heads-congr :
    (s t : FrameScheduler) (ids : List String)
    → ((id : String) → contains id ids ≡ true → queue_of t id ≡ queue_of s id)
    → heads t ids ≡ heads s ids
heads-congr s t [] h = refl
heads-congr s t (id ∷ ids) h =
    ap₂ ◌++◌ (ap first (h id (rw eq_refl refl)))
      (heads-congr s t ids (λ j m. h j (rw m (ground arith))))

delivered-heads :
    (ids : List String) {s : FrameScheduler} (more : List String)
    → IsValid s
    → s.control ≡ []
    → IsNodup ids
    → ring s ≡ ids ++ more
    → delivered s (repeat (length ids) nexts) ≡ heads s ids
unfolding delivered
delivered-heads [] more v q u e = refl
delivered-heads (id ∷ ids) {s} more v q u e =
    let one = serve id (ids ++ more) v q e in
    let again =
      delivered-heads ids (more ++ one.behind) one.valid one.quiet u.1
        (one.ring_left ∙ append_assoc ids more one.behind) in
    ap₂ ◌++◌ one.out (
      again
      ∙ heads-congr s (step s nexts) ids
          (λ j m. one.others j (ground (arith, u.0, m, eq_iff j id))))

-- As long as nothing new is enqueued and no control frame waits, the calls of `Next` serve every
-- request that waits, in turn from `next_index` on: as many calls as `order` has entries hand out
-- the first frame of each request of the ring, one request after the other, and the ring holds
-- just the requests that have a frame waiting.
pub delivered-ring :
    (s : FrameScheduler)
    → IsValid s
    → s.control ≡ []
    → (delivered s (repeat (length s.order) nexts) ≡ heads s (ring s))
      × ((id : String) → contains id (ring s) ≡ ltb 0 (length (queue_of s id)))
delivered-ring s v q = elim (pop-cases v) [
  | inl (empty, _) ↦
      let none_left = ring-nil s empty in
      (
        ap (λ n. delivered s (repeat n nexts)) (ap length empty)
            ∙ delivered-heads [] [] v q tt none_left
            ∙ ap (heads s) (sym none_left),
        λ id. ap (contains id) (none_left ∙ sym empty) ∙ v.listed id,
      )
  | inr p ↦ (
    ap (λ n. delivered s (repeat n nexts)) (sym (length-ring s p.cut))
        ∙ delivered-heads (ring s) [] v q (ring-IsNodup s p.cut v.nodup)
            (sym (append-nil (ring s))),
    λ id. contains-ring s id p.cut ∙ v.listed id,
  )
]
