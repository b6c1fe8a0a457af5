-- ===== src/Protocol/Scheduler/Waits.antt =====
-- When the writer waits.
use http_tunnels.Prelude.{
  String, false, Option, none, some, List, [], ◌∷◌, ◌≡◌, ◌↔◌, inl, inr, refl, ap, sym, ◌∙◌, arith,
}
use http_tunnels.Protocol.{Frame}
use http_tunnels.Protocol.Scheduler.{
  FrameScheduler, returned, waits, queue_of, pop_next_request, after_pop, next_with, next,
}
use http_tunnels.Protocol.Scheduler.Order.{contains}
use http_tunnels.Protocol.Scheduler.Valid.{IsValid}
use http_tunnels.Protocol.Scheduler.Pops.{Popping-IsTaken, pop-cases, empty_of}

-- The scheduler is open and holds no frame.
abbrev pub IsIdle : FrameScheduler → Type 0
IsIdle s = (s.closed ≡ false) × (s.control ≡ []) × ((id : String) → queue_of s id ≡ [])

after_pop-some :
    (popped : Option Frame × FrameScheduler) (frame : Frame)
    → popped.0 ≡ some frame
    → (after_pop popped).0 ≡ returned frame
unfolding after_pop
after_pop-some (some f, t) frame h = cc
after_pop-some (none, t) frame h = cc

after_pop-none : (s : FrameScheduler) → ((after_pop (none, s)).0 ≡ waits) ↔ (s.closed ≡ false)
unfolding after_pop
after_pop-none s = ground arith

pop-waits_iff :
    {s : FrameScheduler}
    → IsValid s
    → s.control ≡ []
    → ((after_pop (pop_next_request s)).0 ≡ waits) ↔ IsIdle s
pop-waits_iff {s} v q = elim (pop-cases v) [
  | inl (empty, e) ↦
      let empties =
        λ (id : String). empty_of (queue_of s id) (sym (v.listed id) ∙ ap (contains id) empty) in
      let same = ap (λ r. (after_pop r).0) e in
      (λ h. ((after_pop-none s).0 (sym same ∙ h), q, empties), λ h. same ∙ (after_pop-none s).1 h.0)
  | inr p ↦
      let out = after_pop-some (pop_next_request s) p.frame (Popping-IsTaken p).frame_out in
      (λ h. cc, λ h. let gone : p.frame ∷ p.rest ≡ [] = sym p.queue ∙ h.2 p.cut.here in cc)
]

next_with-waits_iff :
    {s : FrameScheduler} (control : List Frame)
    → s.control ≡ control
    → IsValid s
    → ((next_with s control).0 ≡ waits) ↔ IsIdle s
unfolding next_with
next_with-waits_iff (frame ∷ rest) e v = (λ h. cc, λ h. cc)
next_with-waits_iff [] e v = pop-waits_iff v e

-- The writer waits just when the scheduler is open and holds no frame, neither of the connection
-- nor of any request.
pub next-waits_iff : (s : FrameScheduler) → IsValid s → ((next s).0 ≡ waits) ↔ IsIdle s
unfolding next
next-waits_iff s v = next_with-waits_iff s.control refl v
