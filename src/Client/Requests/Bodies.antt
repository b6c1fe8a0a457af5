-- ===== src/Client/Requests/Bodies.antt =====
-- The chunks of a request's body on their way from the read loop to `bodyPump`.
use http_tunnels.Prelude.{
  ℕ, Bool, false, Option, none, some, List, [], ◌∷◌, ◌++◌, ◌≡◌, refl, ◌∙◌, sym, arith, ◌==◌,
  if◌then◌else◌, ◌⊎◌, inl, inr,
}
use mathlib.Core.Path.{subst}
use mathlib.Core.List.{append_assoc, append-nil}
use http_tunnels.Prelude.Dict.{Dict, lookup}
use http_tunnels.Protocol.{
  FrameType, Frame, ping, pong, request_start, request_body, request_end, request_cancel,
  websocket_text, websocket_binary, websocket_close, websocket_ping, websocket_pong,
}
use http_tunnels.Client.Requests.{
  App, Loop, reading, sending, forwarding, panicked, update, send_chunk, send_frame, body_to,
  handle_request_body, handle_request_end, handle_request_cancel, handle_websocket_frame, frame_to,
  frame_turn,
}
use http_tunnels.Client.Requests.Keeps.{
  body_of, Keeps, IsLive, end_at-Keeps, cancel_at-Keeps, handle_request_start-Keeps, Keeps-Keeps,
  delete_request-Keeps, Keeps-IsLive,
}

-- What the loop is about to send to the place.
abbrev pub sent_to : ℕ → ℕ → List ℕ → List (List ℕ)
sent_to place n chunk = if place == n then chunk ∷ [] else []

-- Unless the loop has panicked, what has arrived at `place` and what is about to are `chunks`.
abbrev pub Holds : ℕ → List (List ℕ) → Loop → Type 0
Holds place chunks (reading a) = IsLive place a × (body_of (a.memory place) ≡ chunks)
Holds place chunks (sending a n chunk) =
    IsLive place a × (body_of (a.memory place) ++ sent_to place n chunk ≡ chunks)
Holds place chunks (forwarding a n frame) = IsLive place a × (body_of (a.memory place) ≡ chunks)
Holds place chunks panicked = Unit {0}

module _ (place : ℕ) where
  appended :
      (a : App) (n : ℕ) (chunk : List ℕ)
      → body_of (
          (update a n (record (a.memory n) { body_ch = (a.memory n).body_ch ++ chunk ∷ [] })).memory
            place)
        ≡ body_of (a.memory place) ++ sent_to place n chunk
  appended a n chunk = grind (arith, append_assoc, append-nil)

  send_chunk-cases :
      (done_first : Bool) (a : App) (n : ℕ) (chunk : List ℕ)
      → a.done ≡ false
      → (send_chunk done_first a n chunk ≡ panicked)
        ⊎ (send_chunk done_first a n chunk ≡ sending a n chunk)
        ⊎ (send_chunk done_first a n chunk
            ≡ reading
                (update a n (record (a.memory n) { body_ch = (a.memory n).body_ch ++ chunk ∷ [] })))
  unfolding send_chunk
  send_chunk-cases done_first a n chunk running = ground arith

  send_frame-cases :
      (done_first : Bool) (a : App) (n : ℕ) (frame : Frame)
      → a.done ≡ false
      → (send_frame done_first a n frame ≡ forwarding a n frame)
        ⊎ (send_frame done_first a n frame
            ≡ reading (
                update a n
                  (record (a.memory n) { ws_frame_ch = (a.memory n).ws_frame_ch ++ frame ∷ [] })))
  unfolding send_frame
  send_frame-cases done_first a n frame running = ground arith

  pub send_chunk-Holds :
      (done_first : Bool) (a : App) (n : ℕ) (chunk : List ℕ)
      → IsLive place a
      → Holds place
          (body_of (a.memory place) ++ sent_to place n chunk)
          (send_chunk done_first a n chunk)
  send_chunk-Holds done_first a n chunk live =
      elim (send_chunk-cases done_first a n chunk live.running) [
        | inl e ↦ subst (Holds place (body_of (a.memory place) ++ sent_to place n chunk)) (sym e) tt
        | inr (inl e) ↦
            subst (Holds place (body_of (a.memory place) ++ sent_to place n chunk)) (sym e)
              (live, refl)
        | inr (inr e) ↦
            subst (Holds place (body_of (a.memory place) ++ sent_to place n chunk)) (sym e)
              (record { running = live.running; old = live.old }, appended a n chunk)
      ]

  pub send_frame-Holds :
      (done_first : Bool) (a : App) (n : ℕ) (frame : Frame)
      → IsLive place a
      → Holds place (body_of (a.memory place)) (send_frame done_first a n frame)
  send_frame-Holds done_first a n frame live =
      elim (send_frame-cases done_first a n frame live.running) [
        | inl e ↦ subst (Holds place (body_of (a.memory place))) (sym e) (live, refl)
        | inr e ↦
            subst (Holds place (body_of (a.memory place))) (sym e)
              (record { running = live.running; old = live.old }, ground arith)
      ]

  pub kept :
      {a b : App}
      → IsLive place a
      → Keeps place a b
      → Holds place (body_of (a.memory place) ++ []) (reading b)
  kept live k = (Keeps-IsLive place k live, k.same ∙ sym (append-nil _))

  kept_as_is : {a : App} → IsLive place a → Holds place (body_of (a.memory place) ++ []) (reading a)
  kept_as_is live = (live, sym (append-nil _))

  -- The chunk that a frame brings for `place`.
  abbrev pub chunk_for : Option ℕ → List ℕ → List (List ℕ)
  chunk_for none chunk = []
  chunk_for (some n) [] = []
  chunk_for (some n) (byte ∷ chunk) = sent_to place n (byte ∷ chunk)

  body_to-Holds :
      (done_first : Bool) (a : App) (at : Option ℕ) (chunk : List ℕ)
      → IsLive place a
      → Holds place (body_of (a.memory place) ++ chunk_for at chunk) (body_to done_first a at chunk)
  unfolding body_to
  body_to-Holds done_first a none chunk live = kept_as_is live
  body_to-Holds done_first a (some n) [] live = kept_as_is live
  body_to-Holds done_first a (some n) (byte ∷ chunk) live =
      send_chunk-Holds done_first a n (byte ∷ chunk) live

  frame_to-Holds :
      (done_first : Bool) (a : App) (at : Option ℕ) (frame : Frame)
      → IsLive place a
      → Holds place (body_of (a.memory place) ++ []) (frame_to done_first a at frame)
  unfolding frame_to
  frame_to-Holds done_first a none frame live = kept_as_is live
  frame_to-Holds done_first a (some n) frame live =
      subst (λ c. Holds place c (send_frame done_first a n frame)) (sym (append-nil _))
        (send_frame-Holds done_first a n frame live)

  -- What a frame of the tunnel brings for the request at `place`.
  abbrev pub brought : FrameType → Dict ℕ → Frame → List (List ℕ)
  brought request_body requests frame = chunk_for (lookup frame.request_id requests) frame.chunk
  brought _ requests frame = []

  pub frame_turn-Holds :
      (done_first : Bool) (type : FrameType) (a : App) (frame : Frame)
      → IsLive place a
      → Holds place
          (body_of (a.memory place) ++ brought type a.requests frame)
          (frame_turn done_first type a frame)
  unfolding frame_turn handle_request_body handle_request_end handle_request_cancel
      handle_websocket_frame
  frame_turn-Holds d ping a frame live =
      (record { running = live.running; old = live.old }, sym (append-nil _))
  frame_turn-Holds d pong a frame live =
      (record { running = live.running; old = live.old }, sym (append-nil _))
  frame_turn-Holds d request_start a frame live =
      kept live (handle_request_start-Keeps a place frame live.old)
  frame_turn-Holds d request_body a frame live =
      body_to-Holds d a (lookup frame.request_id a.requests) frame.chunk live
  frame_turn-Holds d request_end a frame live =
      kept live (end_at-Keeps a place (lookup frame.request_id a.requests))
  frame_turn-Holds d request_cancel a frame live = kept live (
      Keeps-Keeps place (cancel_at-Keeps a place (lookup frame.request_id a.requests))
        (delete_request-Keeps _ place frame.request_id))
  frame_turn-Holds d websocket_text a frame live =
      frame_to-Holds d a (lookup frame.request_id a.requests) frame live
  frame_turn-Holds d websocket_binary a frame live =
      frame_to-Holds d a (lookup frame.request_id a.requests) frame live
  frame_turn-Holds d websocket_close a frame live =
      frame_to-Holds d a (lookup frame.request_id a.requests) frame live
  frame_turn-Holds d websocket_ping a frame live =
      frame_to-Holds d a (lookup frame.request_id a.requests) frame live
  frame_turn-Holds d websocket_pong a frame live =
      frame_to-Holds d a (lookup frame.request_id a.requests) frame live
  frame_turn-Holds d _ a frame live = kept_as_is live
