-- ===== src/Tunnel/Sessions/Limit.antt =====
-- The limit on a session's concurrent requests. `handleTunnelHTTP` of internal/server/
-- handlers_tunnel.go asks `CanAcceptRequest` first and calls `IncrementActive` later; each handler
-- is a goroutine of its own.
use http_tunnels.Prelude.{
  ℕ, zero, suc, ◌+◌, ◌-◌, ◌%◌, ◌≤◌, ◌<◌, true, List, [], ◌∷◌, ◌++◌, ◌≡◌, refl, ap, ◌∙◌, arith, ltb,
  if◌then◌else◌,
}
use http_tunnels.Prelude.Int.{pos, add_one, subtract_one}
use http_tunnels.Tunnel.Sessions.{
  TunnelSession, int32, can_accept_request, increment_active, decrement_active,
}

-- A handler asks whether it may go on, counts itself in, counts itself out.
pub data Move : Type 0 where
  asks counts_in counts_out : Move

-- The session, with the handlers that were let in and have not counted themselves in yet, those
-- that count, and those that were turned away with a 503.
pub record Gate : Type 0 where
  pub session : TunnelSession
  pub let_in : ℕ
  pub inside : ℕ
  pub turned_away : ℕ

-- A move that no handler can make is none.
move : Gate → Move → Gate
move g asks =
    if can_accept_request g.session
    then record g { let_in = suc g.let_in }
    else record g { turned_away = suc g.turned_away }
move g counts_in =
    if ltb 0 g.let_in
    then record g {
      let_in = g.let_in - 1;
      inside = suc g.inside;
      session = increment_active g.session;
    }
    else g
move g counts_out =
    if ltb 0 g.inside
    then record g { inside = g.inside - 1; session = decrement_active g.session }
    else g

pub moves : Gate → List Move → Gate
moves g [] = g
moves g (m ∷ ms) = moves (move g m) ms

abbrev pub new_gate : TunnelSession → Gate
new_gate s = record { session = s; let_in = 0; inside = 0; turned_away = 0 }

subtract_one_of_lt : (n : ℕ) → 0 < n → subtract_one (pos n) ≡ pos (n - 1)
subtract_one_of_lt zero h = absurd (omega arith)
subtract_one_of_lt (suc n) h = ap pos (omega arith)

int32-pos : (n : ℕ) → n < 2147483648 → int32 (pos n) ≡ pos n
unfolding int32
int32-pos n small =
    let same : n % 4294967296 ≡ n = omega arith in
    let positive : ltb n 2147483648 ≡ true = ground arith in rw (same, positive) refl

-- The count is the number of the handlers inside.
abbrev IsCounted : Gate → Type 0
IsCounted g = g.session.active_count ≡ pos g.inside

counts_out-IsCounted :
    (g : Gate) → g.inside < 2147483648 → IsCounted g → IsCounted (move g counts_out)
unfolding move
counts_out-IsCounted g small h = ground (
  arith,
  ap (λ z. int32 (subtract_one z)) h,
  subtract_one_of_lt g.inside,
  int32-pos (g.inside - 1) (omega arith),
)

-- A request comes in and is decided at once, or one is over.
pub data Visit : Type 0 where
  arrives departs : Visit

abbrev pub visit_moves : List Visit → List Move
visit_moves [] = []
visit_moves (arrives ∷ vs) = asks ∷ counts_in ∷ visit_moves vs
visit_moves (departs ∷ vs) = counts_out ∷ visit_moves vs

can_accept_request-ltb :
    (limit : ℕ)
    → limit < 2147483648
    → 0 < limit
    → (s : TunnelSession) (n : ℕ) → s.max_concurrent ≡ pos limit
    → s.active_count ≡ pos n
    → can_accept_request s ≡ ltb n limit
unfolding can_accept_request
can_accept_request-ltb limit small some_room s n e counted =
    rw (e, counted, int32-pos limit small) (ground arith)

module _ (limit : ℕ) (small : limit < 2147483648) (some_room : 0 < limit) where
  abbrev IsWithin : Gate → Type 0
  IsWithin g =
      (g.session.max_concurrent ≡ pos limit) × IsCounted g × (g.let_in ≡ 0) × (g.inside ≤ limit)

  accepts : (g : Gate) → IsWithin g → can_accept_request g.session ≡ ltb g.inside limit
  accepts g h = can_accept_request-ltb limit small some_room g.session g.inside h.0 h.1

  arrives-IsWithin : (g : Gate) → IsWithin g → IsWithin (move (move g asks) counts_in)
  unfolding move
  arrives-IsWithin g h = (
    ground (arith, h.0),
    ground
        (arith, accepts g h, h, small, ap (λ z. int32 (add_one z)) h.1, int32-pos (suc g.inside)),
    ground (arith, h),
    ground (arith, accepts g h, h),
  )

  departs-IsWithin : (g : Gate) → IsWithin g → IsWithin (move g counts_out)
  unfolding move
  departs-IsWithin g h = (
    ground (arith, h.0),
    counts_out-IsCounted g (omega (arith, h.3, small)) h.1,
    ground (arith, h),
    ground (arith, h),
  )

  visits-IsWithin : (vs : List Visit) (g : Gate) → IsWithin g → IsWithin (moves g (visit_moves vs))
  unfolding moves
  visits-IsWithin [] g h = h
  visits-IsWithin (arrives ∷ vs) g h =
      visits-IsWithin vs (move (move g asks) counts_in) (arrives-IsWithin g h)
  visits-IsWithin (departs ∷ vs) g h = visits-IsWithin vs (move g counts_out) (departs-IsWithin g h)

-- If every request is counted in before the next one asks, a session with a limit of 1 to
-- 2^31 - 1 never serves more requests at a time than its limit, and its counter is their number.
pub moves-inside-le :
    (s : TunnelSession) (limit : ℕ) (vs : List Visit)
    → s.max_concurrent ≡ pos limit
    → 0 < limit
    → limit < 2147483648
    → s.active_count ≡ pos 0
    → let g = moves (new_gate s) (visit_moves vs) in
      (g.inside ≤ limit) × (g.session.active_count ≡ pos g.inside)
moves-inside-le s limit vs e some_room small zero_ =
    let within =
      visits-IsWithin limit small some_room vs (new_gate s) (e, zero_, refl, omega arith) in
    (within.3, within.1)

abbrev pub times : ℕ → Move → List Move
times zero m = []
times (suc n) m = m ∷ times n m

moves-append : (ms ns : List Move) (g : Gate) → moves g (ms ++ ns) ≡ moves (moves g ms) ns
unfolding moves
moves-append [] ns g = refl
moves-append (m ∷ ms) ns g = moves-append ms ns (move g m)

moves-asks :
    (n : ℕ) (g : Gate)
    → can_accept_request g.session ≡ true
    → moves g (times n asks) ≡ record g { let_in = g.let_in + n }
unfolding moves move
moves-asks zero g h = ap (λ k. record g { let_in = k }) (omega arith)
moves-asks (suc n) g h =
    let asked = record g { let_in = suc g.let_in } in
    ap
      (λ b.
        moves (if b then asked else record g { turned_away = suc g.turned_away }) (times n asks))
      h
    ∙ moves-asks n asked h
    ∙ ap (λ k. record g { let_in = k }) (omega arith)

move-counts_in :
    (g : Gate)
    → 0 < g.let_in
    → suc g.inside < 2147483648
    → IsCounted g
    → let t = move g counts_in in
      IsCounted t
      × (t.let_in ≡ g.let_in - 1)
      × (t.inside ≡ suc g.inside)
      × (t.turned_away ≡ g.turned_away)
      × (t.session.max_concurrent ≡ g.session.max_concurrent)
unfolding move
move-counts_in g h small counted =
    ground (arith, ap (λ z. int32 (add_one z)) counted, int32-pos (suc g.inside) small)

moves-counts_in :
    (n : ℕ) (g : Gate)
    → n ≤ g.let_in
    → IsCounted g
    → g.inside + n < 2147483648
    → let t = moves g (times n counts_in) in
      IsCounted t
      × (t.inside ≡ g.inside + n)
      × (t.turned_away ≡ g.turned_away)
      × (t.session.max_concurrent ≡ g.session.max_concurrent)
unfolding moves
moves-counts_in zero g h counted few = (counted, omega arith, refl, refl)
moves-counts_in (suc n) g h counted few =
    let (counted', less, more, same, kept) = move-counts_in g (omega arith) (omega arith) counted in
    let (c, i, t, m) =
      moves-counts_in n (move g counts_in) (omega (arith, less)) counted' (omega (arith, more)) in
    (c, omega (arith, i, more), t ∙ same, m ∙ kept)

-- Requests that all ask an idle session before the first of them is counted are all let in, however
-- many they are, below 2^31, and whatever the limit is, from 1 to 2^31 - 1: none is turned away and
-- the counter is their number. The next one that asks is judged by that counter.
pub moves-inside-unbounded :
    (s : TunnelSession) (limit n : ℕ)
    → s.max_concurrent ≡ pos limit
    → 0 < limit
    → limit < 2147483648
    → s.active_count ≡ pos 0
    → n < 2147483648
    → let g = moves (new_gate s) (times n asks ++ times n counts_in) in
      (g.turned_away ≡ 0)
      × (g.inside ≡ n)
      × (g.session.active_count ≡ pos n)
      × (can_accept_request g.session ≡ ltb n limit)
moves-inside-unbounded s limit n e some_room small empty few =
    let room : can_accept_request s ≡ true =
      can_accept_request-ltb limit small some_room s 0 e empty ∙ ground arith in
    let asked : Gate = record (new_gate s) { let_in = 0 + n } in
    let whole =
      moves-append (times n asks) (times n counts_in) (new_gate s)
      ∙ ap (λ g. moves g (times n counts_in)) (moves-asks n (new_gate s) room) in
    let (c, i, t, m) = moves-counts_in n asked (omega arith) empty (omega (arith, few)) in
    let inside_n = i ∙ omega arith in
    rw whole (
      t,
      inside_n,
      c ∙ ap pos inside_n,
      can_accept_request-ltb limit small some_room (moves asked (times n counts_in)).session n
          (m ∙ e) (c ∙ ap pos inside_n),
    )
