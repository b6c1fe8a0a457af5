-- ===== src/Tunnel/Frames/Bodies.antt =====
-- The body of a response: what the client sends is what the handler reads.
use http_tunnels.Prelude.{
  ℕ, String, Bool, true, false, ◌&&◌, Option, none, some, List, [], ◌∷◌, ◌++◌, ◌≡◌, refl, sym, ◌∙◌,
  arith, if◌then◌else◌, str_eq, eq_iff, is_some,
}
use mathlib.Core.List.{append-nil}
use http_tunnels.Protocol.{
  Frame, FrameType, response_body, response_start, response_end, response_error,
}
use http_tunnels.Tunnel.{request_error}
use http_tunnels.Tunnel.Pending.{PendingRequest, PendingStore, get, fail, close_body}
use http_tunnels.Tunnel.Sockets.{Gorilla}
use http_tunnels.Tunnel.Frames.{
  Hub, Turn, goes_on, blocks, panics, send_chunk, answer, response_turn, respond, frame_turn,
  object, put_object, body_of, release,
}
use http_tunnels.Tunnel.Frames.Objects.{object-put_object, object-release, object_of_get}

-- What is on its way to the handler: the channel of the request, and the chunk for which the loop
-- waits.
abbrev pub under_way : Turn → String → List (List ℕ)
under_way (goes_on hub) id = body_of (object hub id)
under_way (panics hub) id = body_of (object hub id)
under_way (blocks hub j chunk) id =
    body_of (object hub id) ++ (if str_eq id j then chunk ∷ [] else [])

abbrev pub is_up : Turn → Bool
is_up (panics hub) = false
is_up _ = true

abbrev chunk_list : List ℕ → List (List ℕ)
chunk_list [] = []
chunk_list (byte ∷ chunk) = (byte ∷ chunk) ∷ []

-- The chunk that a frame brings for the request, if it is in the store.
abbrev pub brought : FrameType → PendingStore → String → Frame → List (List ℕ)
brought response_body pending id frame =
    if str_eq id frame.request_id && is_some (get pending frame.request_id)
    then chunk_list frame.chunk
    else []
brought _ pending id frame = []

send_chunk-under_way :
    (hub : Hub) (j id : String) (req : PendingRequest) (chunk : List ℕ)
    → get hub.pending j ≡ some req
    → is_up (send_chunk hub j req chunk) ≡ true
    → under_way (send_chunk hub j req chunk) id
      ≡ body_of (object hub id) ++ (if str_eq id j then chunk_list chunk else [])
unfolding send_chunk
send_chunk-under_way hub j id req [] h up = ground (arith, append-nil (body_of (object hub id)))
send_chunk-under_way hub j id req (byte ∷ chunk) h up = ground (
  arith,
  up,
  object_of_get hub j req h,
  object-put_object hub j id (record req { body_ch = req.body_ch ++ (byte ∷ chunk) ∷ [] }),
  append-nil (body_of (object hub id)),
  eq_iff id j,
)

-- A call on one request leaves its body as it is.
body-put_object :
    (hub : Hub) (j id : String) (req req' : PendingRequest)
    → object hub j ≡ some req
    → req'.body_ch ≡ req.body_ch
    → body_of (object (put_object hub j req') id) ≡ body_of (object hub id)
body-put_object hub j id req req' h e =
    ground (arith, object-put_object hub j id req', h, e, eq_iff id j)

body-release :
    (hub : Hub) (j id : String) (req req' : PendingRequest)
    → object hub j ≡ some req
    → req'.body_ch ≡ req.body_ch
    → body_of (object (release hub j req') id) ≡ body_of (object hub id)
body-release hub j id req req' h e = ground (arith, object-release hub j id req', h, e, eq_iff id j)

response_turn-under_way :
    (type : FrameType) (hub : Hub) (frame : Frame) (req : PendingRequest) (id : String)
    → get hub.pending frame.request_id ≡ some req
    → is_up (response_turn type hub frame req) ≡ true
    → under_way (response_turn type hub frame req) id
      ≡ body_of (object hub id) ++ brought type hub.pending id frame
unfolding response_turn answer close_body fail
response_turn-under_way response_start hub frame req id h up =
    body-put_object hub frame.request_id id req (answer frame req)
      (object_of_get hub frame.request_id req h) refl
    ∙ sym (append-nil (body_of (object hub id)))
response_turn-under_way response_end hub frame req id h up =
    body-release hub frame.request_id id req (close_body req)
      (object_of_get hub frame.request_id req h) refl
    ∙ sym (append-nil (body_of (object hub id)))
response_turn-under_way response_error hub frame req id h up =
    body-release hub frame.request_id id req
      (fail req (some (request_error frame.status frame.error)))
      (object_of_get hub frame.request_id req h) refl
    ∙ sym (append-nil (body_of (object hub id)))
response_turn-under_way response_body hub frame req id h up =
    send_chunk-under_way hub frame.request_id id req frame.chunk h up ∙ ground (arith, h)
response_turn-under_way _ hub frame req id h up = sym (append-nil (body_of (object hub id)))

respond-under_way :
    (type : FrameType) (hub : Hub) (frame : Frame) (id : String) (o : Option PendingRequest)
    → get hub.pending frame.request_id ≡ o
    → is_up (respond type hub frame o) ≡ true
    → under_way (respond type hub frame o) id
      ≡ body_of (object hub id) ++ brought type hub.pending id frame
unfolding respond
respond-under_way type hub frame id (some req) h up =
    response_turn-under_way type hub frame req id h up
respond-under_way response_body hub frame id none h up =
    ground (arith, h, append-nil (body_of (object hub id)))
respond-under_way _ hub frame id none h up = sym (append-nil (body_of (object hub id)))

pub frame_turn-under_way :
    (ws : Gorilla) (type : FrameType) (hub : Hub) (frame : Frame) (id : String)
    → is_up (frame_turn ws type hub frame) ≡ true
    → under_way (frame_turn ws type hub frame) id
      ≡ body_of (object hub id) ++ brought type hub.pending id frame
unfolding frame_turn object
frame_turn-under_way ws response_start hub frame id up =
    respond-under_way response_start hub frame id (get hub.pending frame.request_id) refl up
frame_turn-under_way ws response_body hub frame id up =
    respond-under_way response_body hub frame id (get hub.pending frame.request_id) refl up
frame_turn-under_way ws response_end hub frame id up =
    respond-under_way response_end hub frame id (get hub.pending frame.request_id) refl up
frame_turn-under_way ws response_error hub frame id up =
    respond-under_way response_error hub frame id (get hub.pending frame.request_id) refl up
frame_turn-under_way ws _ hub frame id up = sym (append-nil (body_of (object hub id)))
