-- ===== src/Tunnel/Sockets/Orders.antt =====
-- What becomes of the frames of one request when they come one after the other.
use http_tunnels.Prelude.{
  String, false, none, some, List, [], ◌∷◌, ◌++◌, ◌≡◌, refl, ap, sym, ◌∙◌, arith, All, or_default,
  str_eq, eq_refl,
}
use mathlib.Core.List.{append_assoc, append-nil}
use http_tunnels.Prelude.Dict.{lookup, lookup-insert}
use http_tunnels.Protocol.{Frame}
use http_tunnels.Tunnel.Sockets.{
  Gorilla, Bridge, forward_tunnel_to_user, forward_each, Sockets, buffer_frame, find_bridge,
  hand_over, forward_to, socket_frame,
}

module _ (ws : Gorilla) where
  -- The read loop on frame after frame.
  unfoldable pub socket_frames : Sockets → List Frame → Sockets
  socket_frames s [] = s
  socket_frames s (frame ∷ frames) = socket_frames (socket_frame ws s frame) frames

-- The frames that are buffered for a request.
abbrev pub buffered : Sockets → String → List Frame
buffered s id = or_default (lookup id s.buffer) []

abbrev pub Own : String → List Frame → Type 0
Own id = All (λ (frame : Frame). frame.request_id ≡ id)

module _ (ws : Gorilla) (id : String) (named : str_eq id "" ≡ false) where
  socket_frame-unbridged :
      (s : Sockets) (frame : Frame)
      → frame.request_id ≡ id
      → lookup id s.bridges ≡ none
      → let t = socket_frame ws s frame in
        (t.bridges ≡ s.bridges) × (buffered t id ≡ buffered s id ++ frame ∷ [])
  unfolding socket_frame find_bridge hand_over buffer_frame
  socket_frame-unbridged s frame e h =
      ground
        (arith, e, h, named, lookup-insert id id (buffered s id ++ frame ∷ []) s.buffer, eq_refl id)

  socket_frame-bridged :
      (s : Sockets) (frame : Frame) (b : Bridge)
      → frame.request_id ≡ id
      → lookup id s.bridges ≡ some b
      → let t = socket_frame ws s frame in
        (lookup id t.bridges ≡ some (forward_tunnel_to_user ws b frame)) × (t.buffer ≡ s.buffer)
  unfolding socket_frame find_bridge hand_over forward_to
  socket_frame-bridged s frame b e h =
      ground
        (arith, e, h, lookup-insert id id (forward_tunnel_to_user ws b frame) s.bridges, eq_refl id)

  pub socket_frames-unbridged :
      (frames : List Frame) (s : Sockets)
      → Own id frames
      → lookup id s.bridges ≡ none
      → let t = socket_frames ws s frames in
        (t.bridges ≡ s.bridges) × (buffered t id ≡ buffered s id ++ frames)
  unfolding socket_frames
  socket_frames-unbridged [] s own h = (refl, sym (append-nil (buffered s id)))
  socket_frames-unbridged (frame ∷ frames) s own h =
      let (same, more) = socket_frame-unbridged s frame own.0 h in
      let t = socket_frame ws s frame in
      let (kept, rest) = socket_frames-unbridged frames t own.1 (ap (lookup id) same ∙ h) in
      (kept ∙ same, rest ∙ ap (◌++ frames) more ∙ append_assoc (buffered s id) (frame ∷ []) frames)

  pub socket_frames-bridged :
      (frames : List Frame) (s : Sockets) (b : Bridge)
      → Own id frames
      → lookup id s.bridges ≡ some b
      → let t = socket_frames ws s frames in
        (lookup id t.bridges ≡ some (forward_each ws b frames)) × (t.buffer ≡ s.buffer)
  unfolding socket_frames forward_each
  socket_frames-bridged [] s b own h = (h, refl)
  socket_frames-bridged (frame ∷ frames) s b own h =
      let (there, same) = socket_frame-bridged s frame b own.0 h in
      let t = socket_frame ws s frame in
      let (rest, kept) =
        socket_frames-bridged frames t (forward_tunnel_to_user ws b frame) own.1 there in
      (rest, kept ∙ same)

  pub forward_each-append :
      (xs ys : List Frame) (b : Bridge)
      → forward_each ws b (xs ++ ys) ≡ forward_each ws (forward_each ws b xs) ys
  unfolding forward_each
  forward_each-append [] ys b = refl
  forward_each-append (x ∷ xs) ys b = forward_each-append xs ys (forward_tunnel_to_user ws b x)
