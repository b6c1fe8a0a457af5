-- ===== src/Protocol/Scheduler/Ring.antt =====
-- The waiting requests in the order in which they are served: from the index round to it.
use http_tunnels.Prelude.{
  ℕ, zero, suc, ◌+◌, ◌%◌, String, false, List, [], ◌∷◌, ◌++◌, ◌≡◌, refl, ap, ap₂, sym, ◌∙◌, arith,
  length, length-append, ◌==◌, if◌then◌else◌,
}
use mathlib.Core.List.{append_assoc, append-nil}
use http_tunnels.Protocol.{Frame}
use http_tunnels.Protocol.Scheduler.{FrameScheduler, take_frame}
use http_tunnels.Protocol.Scheduler.Order.{
  contains, IsNodup, contains-append, IsNodup-insert, Split,
}
use http_tunnels.Protocol.Scheduler.Turns.{take_frame-last, length-order}

-- The entries from the index on, and then those before it.
abbrev pub round : List String → ℕ → List String
round xs zero = xs
round [] (suc i) = []
round (x ∷ xs) (suc i) = round (xs ++ x ∷ []) i

abbrev pub ring : FrameScheduler → List String
ring s = round s.order s.next_index

pub ring-nil : (s : FrameScheduler) → s.order ≡ [] → ring s ≡ []
ring-nil s h = ap (λ xs. round xs s.next_index) h ∙ empty s.next_index
  where
    empty : (i : ℕ) → round [] i ≡ []
    empty zero = refl
    empty (suc i) = refl

round-append : (b c : List String) → round (b ++ c) (length b) ≡ c ++ b
round-append [] c = sym (append-nil c)
round-append (x ∷ b) c =
    ap (λ xs. round xs (length b)) (append_assoc b c (x ∷ []))
    ∙ round-append b (c ++ x ∷ [])
    ∙ append_assoc c (x ∷ []) b

pub ring-cut :
    (s : FrameScheduler) (cut : Split s.order s.next_index)
    → ring s ≡ cut.here ∷ cut.after ++ cut.before
ring-cut s cut = rw (cut.parts, cut.index) (round-append cut.before (cut.here ∷ cut.after))

-- Whether the request that has been served goes to the end of the ring.
abbrev pub back : String → List Frame → List String
back id [] = []
back id (f ∷ rest) = id ∷ []

round-index_after :
    (b c : List String) → round (b ++ c) (if length c == 0 then 0 else length b) ≡ c ++ b
round-index_after b [] = append-nil b
round-index_after b (x ∷ c) =
    let more : (length (x ∷ c) == 0) ≡ false = ground arith in rw more (round-append b (x ∷ c))

round-next :
    (b c : List String) (x : String)
    → round (b ++ x ∷ c) ((length b + 1) % length (b ++ x ∷ c)) ≡ c ++ (b ++ x ∷ [])
round-next b [] x =
    let around : (length b + 1) % length (b ++ x ∷ []) ≡ 0 =
      grind (arith, length-append b (x ∷ [])) in
    ap (round (b ++ x ∷ [])) around
round-next b (y ∷ c) x =
    let on : (length b + 1) % length (b ++ x ∷ y ∷ c) ≡ length (b ++ x ∷ []) =
      grind (arith, length-append b (x ∷ y ∷ c), length-append b (x ∷ [])) in
    ap (round (b ++ x ∷ y ∷ c)) on
    ∙ ap (λ xs. round xs (length (b ++ x ∷ []))) (sym (append_assoc b (x ∷ []) (y ∷ c)))
    ∙ round-append (b ++ x ∷ []) (y ∷ c)

-- A turn takes the first request off the ring, and puts it at the end if it has more.
pub ring-take_frame :
    (s : FrameScheduler) (cut : Split s.order s.next_index) (frame : Frame) (rest : List Frame)
    → ring (take_frame s cut.here frame rest).1 ≡ (cut.after ++ cut.before) ++ back cut.here rest
unfolding take_frame
ring-take_frame s cut frame [] =
    ap (λ r. ring r.1) (take_frame-last s cut frame)
    ∙ round-index_after cut.before cut.after
    ∙ sym (append-nil (cut.after ++ cut.before))
ring-take_frame s cut frame (f ∷ rest) =
    ap₂ (λ xs i. round xs ((i + 1) % length xs)) cut.parts cut.index
    ∙ round-next cut.before cut.after cut.here
    ∙ sym (append_assoc cut.after cut.before (cut.here ∷ []))

contains-swap : (id : String) (b c : List String) → contains id (c ++ b) ≡ contains id (b ++ c)
contains-swap id b c = rw (contains-append, contains-append) (ground arith)

IsNodup-swap : (b c : List String) → IsNodup (b ++ c) → IsNodup (c ++ b)
IsNodup-swap [] c h = rw append-nil h
IsNodup-swap (x ∷ b) c h = IsNodup-insert x c b (IsNodup-swap b c h.1) (contains-swap x b c ∙ h.0)

pub ring-IsNodup :
    (s : FrameScheduler) → Split s.order s.next_index → IsNodup s.order → IsNodup (ring s)
ring-IsNodup s cut h =
    rw (ring-cut s cut) (IsNodup-swap cut.before (cut.here ∷ cut.after) (rw cut.parts at h))

pub length-ring :
    (s : FrameScheduler) → Split s.order s.next_index → length (ring s) ≡ length s.order
length-ring s cut =
    omega
      (arith, ap length (ring-cut s cut), length-append cut.after cut.before, length-order s cut)

pub contains-ring :
    (s : FrameScheduler) (id : String)
    → Split s.order s.next_index
    → contains id (ring s) ≡ contains id s.order
contains-ring s id cut =
    ap (contains id) (ring-cut s cut)
    ∙ contains-swap id cut.before (cut.here ∷ cut.after)
    ∙ ap (contains id) (sym cut.parts)
