-- ===== src/Tunnel/Sockets/Races.antt =====
-- A WebSocket whose handler and the read loop of its tunnel take their steps in between each
-- other's.
use http_tunnels.Prelude.{
  String, false, none, some, List, [], ◌∷◌, ◌++◌, ◌≡◌, refl, ap, sym, ◌∙◌, or_default, str_eq,
}
use http_tunnels.Prelude.Dict.{Dict, lookup}
use http_tunnels.Protocol.{Frame}
use http_tunnels.Tunnel.Sockets.{Gorilla, new_bridge, forward_each, Sockets}
use http_tunnels.Tunnel.Sockets.Steps.{
  Wires, looks, puts, sets, takes, wire_step, wire_run, handled, forwarded,
}
use http_tunnels.Tunnel.Sockets.Orders.{buffered, Own, forward_each-append}
use http_tunnels.Tunnel.Sockets.Runs.{
  wire_run-append, wire_run-forwarded, set_bridge-there, takes-buffered, handled-unbridged,
  handled-bridged, looked-between,
}

-- The frames of a WebSocket whose handler sets its bridge, takes what has been buffered, and then
-- forwards that: `before` comes before it sets the bridge, `between` before it takes, `during`
-- before it forwards, `after` when it has forwarded all, and the read loop does both its steps for a
-- frame with no step of the handler in between. The user gets `between` and `during` ahead of
-- `before`; without those two it gets the frames in the order in which they came.
pub flush-order :
    (ws : Gorilla) (id : String) (s : Sockets) (flushing : Dict (List Frame))
    (before between during after : List Frame)
    → str_eq id "" ≡ false
    → lookup id s.bridges ≡ none
    → buffered s id ≡ []
    → Own id before
    → Own id between
    → Own id during
    → Own id after
    → let w =
        wire_run ws
          (record { sockets = s; found = none; flushing = flushing })
          (handled before
            ++ (sets id
                ∷ (handled between
                    ++ (takes id ∷ (handled during ++ (forwarded id before ++ handled after)))))) in
      lookup id w.sockets.bridges
      ≡ some (forward_each ws (new_bridge id) (between ++ during ++ before ++ after))
unfolding wire_run wire_step
flush-order ws id s flushing before between during after named fresh empty own_b own_m own_d own_a =
    let w0 : Wires = record { sockets = s; found = none; flushing = flushing } in
    let w1 = wire_run ws w0 (handled before) in
    let w2 = wire_step ws w1 (sets id) in
    let w3 = wire_run ws w2 (handled between) in
    let w4 = wire_step ws w3 (takes id) in
    let w5 = wire_run ws w4 (handled during) in
    let w6 = wire_run ws w5 (forwarded id before) in
    let (_, held, found1) = handled-unbridged ws id named before w0 own_b refl fresh in
    let (new, kept2) = set_bridge-there ws id named w1.sockets in
    let (sent3, kept3, found3, _) =
      handled-bridged ws id named between w2 (new_bridge id) own_m found1 new in
    let (taken, same4, _, found4) = takes-buffered ws id named w3 in
    let b3 = forward_each ws (new_bridge id) between in
    let (sent5, _, found5, same5) =
      handled-bridged ws id named during w4 b3 own_d (found4 ∙ found3)
        (ap (lookup id) same4 ∙ sent3) in
    let waiting : buffered w3.sockets id ≡ before =
      ap (λ (d : Dict (List Frame)). or_default (lookup id d) []) (kept3 ∙ kept2)
      ∙ held
      ∙ ap (◌++ before) empty in
    let b5 = forward_each ws b3 during in
    let (sent6, _, found6) =
      wire_run-forwarded ws id named before w5 b5 (ap (lookup id) same5 ∙ taken ∙ ap some waiting)
        sent5 in
    let b6 = forward_each ws b5 before in
    let (sent7, _, _, _) = handled-bridged ws id named after w6 b6 own_a (found6 ∙ found5) sent6 in
    let join = forward_each-append ws id named in
    ap (λ w. lookup id w.sockets.bridges)
      (wire_run-append ws id named (handled before) _ w0
        ∙ wire_run-append ws id named (handled between) _ w2
        ∙ wire_run-append ws id named (handled during) _ w4
        ∙ wire_run-append ws id named (forwarded id before) _ w5)
    ∙ sent7
    ∙ ap (λ b. some (forward_each ws (forward_each ws b before) after))
        (sym (join between during (new_bridge id)))
    ∙ ap (λ b. some (forward_each ws b after))
        (sym (join (between ++ during) before (new_bridge id)))
    ∙ ap some (sym (join (between ++ during ++ before) after (new_bridge id)))

-- The read loop looks for the bridge of a frame just before the handler sets it, and puts the
-- frame into the buffer after the handler has taken what was there: the user never gets the frame,
-- which stays in the buffer, while it gets those that came before and those that come after.
pub looks-lost :
    (ws : Gorilla) (id : String) (s : Sockets) (flushing : Dict (List Frame)) (frame : Frame)
    (before after : List Frame)
    → str_eq id "" ≡ false
    → lookup id s.bridges ≡ none
    → buffered s id ≡ []
    → frame.request_id ≡ id
    → Own id before
    → Own id after
    → let w =
        wire_run ws
          (record { sockets = s; found = none; flushing = flushing })
          (handled before
            ++ (looks frame
                ∷ sets id
                ∷ takes id
                ∷ puts
                ∷ (forwarded id before ++ handled after))) in
      (lookup id w.sockets.bridges ≡ some (forward_each ws (new_bridge id) (before ++ after)))
      × (buffered w.sockets id ≡ frame ∷ [])
unfolding wire_run
looks-lost ws id s flushing frame before after named fresh empty mine own_b own_a =
    let w0 : Wires = record { sockets = s; found = none; flushing = flushing } in
    let w1 = wire_run ws w0 (handled before) in
    let (bridges1, held, found1) = handled-unbridged ws id named before w0 own_b refl fresh in
    let w5 = wire_run ws w1 (looks frame ∷ sets id ∷ takes id ∷ puts ∷ []) in
    let (new, waiting, lost, found5) =
      looked-between ws id named w1 frame before mine found1 (ap (lookup id) bridges1 ∙ fresh)
        (held ∙ ap (◌++ before) empty) in
    let w6 = wire_run ws w5 (forwarded id before) in
    let b6 = forward_each ws (new_bridge id) before in
    let (sent6, kept6, found6) =
      wire_run-forwarded ws id named before w5 (new_bridge id) waiting new in
    let (sent7, kept7, _, _) =
      handled-bridged ws id named after w6 b6 own_a (found6 ∙ found5) sent6 in
    let whole =
      wire_run-append ws id named (handled before) _ w0
      ∙ wire_run-append ws id named (forwarded id before) _ w5 in
    (
      ap (λ w. lookup id w.sockets.bridges) whole
          ∙ sent7
          ∙ ap some (sym (forward_each-append ws id named before after (new_bridge id))),
      ap (λ w. buffered w.sockets id) whole
          ∙ ap (λ (d : Dict (List Frame)). or_default (lookup id d) []) (kept7 ∙ kept6)
          ∙ lost,
    )
