-- ===== src/Tunnel/Sockets/Runs.antt =====
-- Runs of the read loop and of a handler, for the frames of one request.
use http_tunnels.Prelude.{
  String, false, Option, none, some, List, [], ◌∷◌, ◌++◌, ◌≡◌, refl, ap, ◌∙◌, arith, or_default,
  str_eq, eq_refl,
}
use http_tunnels.Prelude.Dict.{Dict, lookup, erase, lookup-insert, lookup-erase}
use http_tunnels.Protocol.{Frame}
use http_tunnels.Tunnel.Sockets.{
  Gorilla, Bridge, new_bridge, forward_tunnel_to_user, forward_each, Sockets, buffer_frame,
  set_bridge, find_bridge, hand_over, forward_to, take_buffered, socket_frame,
}
use http_tunnels.Tunnel.Sockets.Steps.{
  Wires, Step, looks, puts, sets, takes, forwards, look, put, forward_head, wire_step, wire_run,
  handled, forwarded,
}
use http_tunnels.Tunnel.Sockets.Orders.{
  socket_frames, buffered, Own, socket_frames-unbridged, socket_frames-bridged,
}

module _ (ws : Gorilla) (id : String) (named : str_eq id "" ≡ false) where
  pub wire_run-append :
      (xs ys : List Step) (w : Wires) → wire_run ws w (xs ++ ys) ≡ wire_run ws (wire_run ws w xs) ys
  unfolding wire_run
  wire_run-append [] ys w = refl
  wire_run-append (x ∷ xs) ys w = wire_run-append xs ys (wire_step ws w x)

  -- The read loop has no frame in hand.
  abbrev idle : Sockets → Dict (List Frame) → Wires
  idle s flushing = record { sockets = s; found = none; flushing = flushing }

  wire_run-handled :
      (frames : List Frame) (s : Sockets) (flushing : Dict (List Frame))
      → wire_run ws (idle s flushing) (handled frames) ≡ idle (socket_frames ws s frames) flushing
  unfolding wire_run wire_step look put socket_frames socket_frame
  wire_run-handled [] s flushing = refl
  wire_run-handled (frame ∷ frames) s flushing =
      wire_run-handled frames (socket_frame ws s frame) flushing

  forwards-once :
      (w : Wires) (b : Bridge) (frame : Frame) (frames : List Frame)
      → lookup id w.flushing ≡ some (frame ∷ frames)
      → lookup id w.sockets.bridges ≡ some b
      → let t = wire_step ws w (forwards id) in
        (lookup id t.sockets.bridges ≡ some (forward_tunnel_to_user ws b frame))
        × (t.sockets.buffer ≡ w.sockets.buffer)
        × (t.found ≡ w.found)
        × (lookup id t.flushing ≡ some frames)
  unfolding wire_step forward_head forward_to
  forwards-once w b frame frames h there = ground (
    arith,
    h,
    there,
    lookup-insert id id frames w.flushing,
    lookup-insert id id (forward_tunnel_to_user ws b frame) w.sockets.bridges,
    eq_refl id,
  )

  -- The frames that the handler has taken go out, whatever the read loop has in hand.
  pub wire_run-forwarded :
      (frames : List Frame) (w : Wires) (b : Bridge)
      → lookup id w.flushing ≡ some frames
      → lookup id w.sockets.bridges ≡ some b
      → let t = wire_run ws w (forwarded id frames) in
        (lookup id t.sockets.bridges ≡ some (forward_each ws b frames))
        × (t.sockets.buffer ≡ w.sockets.buffer)
        × (t.found ≡ w.found)
  unfolding wire_run forward_each
  wire_run-forwarded [] w b h there = (there, refl, refl)
  wire_run-forwarded (frame ∷ frames) w b h there =
      let next = wire_step ws w (forwards id) in
      let (sent, kept, held, rest) = forwards-once w b frame frames h there in
      let (all, buffer, found) =
        wire_run-forwarded frames next (forward_tunnel_to_user ws b frame) rest sent in
      (all, buffer ∙ kept, found ∙ held)

  -- The handler sets its bridge.
  pub set_bridge-there :
      (s : Sockets)
      → (lookup id (set_bridge s id).bridges ≡ some (new_bridge id))
        × ((set_bridge s id).buffer ≡ s.buffer)
  set_bridge-there s = (lookup-insert id id (new_bridge id) s.bridges ∙ rw eq_refl refl, refl)

  erased : (d : Dict (List Frame)) → lookup id (erase id d) ≡ none
  erased d = lookup-erase id id d ∙ rw eq_refl refl

  -- It takes the buffered frames.
  pub takes-buffered :
      (w : Wires)
      → let t = wire_step ws w (takes id) in
        (lookup id t.flushing ≡ some (buffered w.sockets id))
        × (t.sockets.bridges ≡ w.sockets.bridges)
        × (buffered t.sockets id ≡ [])
        × (t.found ≡ w.found)
  unfolding wire_step take_buffered
  takes-buffered w = (
    lookup-insert id id (buffered w.sockets id) w.flushing ∙ rw eq_refl refl,
    refl,
    ap (λ (o : Option (List Frame)). or_default o []) (erased w.sockets.buffer),
    refl,
  )

  handled-idle :
      (frames : List Frame) (w : Wires)
      → w.found ≡ none
      → wire_run ws w (handled frames) ≡ idle (socket_frames ws w.sockets frames) w.flushing
  handled-idle frames w h =
      ap (λ found. wire_run ws (record w { found = found }) (handled frames)) h
      ∙ wire_run-handled frames w.sockets w.flushing

  pub handled-unbridged :
      (frames : List Frame) (w : Wires)
      → Own id frames
      → w.found ≡ none
      → lookup id w.sockets.bridges ≡ none
      → let t = wire_run ws w (handled frames) in
        (t.sockets.bridges ≡ w.sockets.bridges)
        × (buffered t.sockets id ≡ buffered w.sockets id ++ frames)
        × (t.found ≡ none)
  handled-unbridged frames w own h fresh =
      let (same, more) = socket_frames-unbridged ws id named frames w.sockets own fresh in
      let e = handled-idle frames w h in
      (
        ap (λ t. t.sockets.bridges) e ∙ same,
        ap (λ t. buffered t.sockets id) e ∙ more,
        ap (λ t. t.found) e,
      )

  pub handled-bridged :
      (frames : List Frame) (w : Wires) (b : Bridge)
      → Own id frames
      → w.found ≡ none
      → lookup id w.sockets.bridges ≡ some b
      → let t = wire_run ws w (handled frames) in
        (lookup id t.sockets.bridges ≡ some (forward_each ws b frames))
        × (t.sockets.buffer ≡ w.sockets.buffer)
        × (t.found ≡ none)
        × (t.flushing ≡ w.flushing)
  handled-bridged frames w b own h there =
      let (sent, kept) = socket_frames-bridged ws id named frames w.sockets b own there in
      let e = handled-idle frames w h in
      (
        ap (λ t. lookup id t.sockets.bridges) e ∙ sent,
        ap (λ t. t.sockets.buffer) e ∙ kept,
        ap (λ t. t.found) e,
        ap (λ t. t.flushing) e,
      )

  -- The handler sets its bridge and takes what is buffered between the two steps for a frame.
  pub looked-between :
      (w : Wires) (frame : Frame) (frames : List Frame)
      → frame.request_id ≡ id
      → w.found ≡ none
      → lookup id w.sockets.bridges ≡ none
      → buffered w.sockets id ≡ frames
      → let t = wire_run ws w (looks frame ∷ sets id ∷ takes id ∷ puts ∷ []) in
        (lookup id t.sockets.bridges ≡ some (new_bridge id))
        × (lookup id t.flushing ≡ some frames)
        × (buffered t.sockets id ≡ frame ∷ [])
        × (t.found ≡ none)
  unfolding wire_run wire_step look put find_bridge hand_over take_buffered buffer_frame
  looked-between w frame frames e h fresh waiting = ground (
    arith,
    e,
    h,
    fresh,
    waiting,
    named,
    lookup-insert id id (new_bridge id) w.sockets.bridges,
    lookup-insert id id (buffered w.sockets id) w.flushing,
    erased w.sockets.buffer,
    lookup-insert id id (frame ∷ []) (erase id w.sockets.buffer),
    eq_refl id,
  )
