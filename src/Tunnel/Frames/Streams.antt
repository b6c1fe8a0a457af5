-- ===== src/Tunnel/Frames/Streams.antt =====
-- The body of a response over all events: what the client sends is what the handler reads.
use http_tunnels.Prelude.{
  ℕ, String, Bool, true, not, Option, none, some, List, [], ◌∷◌, ◌++◌, ◌≡◌, refl, ap, sym, ◌∙◌,
  arith, if◌then◌else◌, str_eq, eq_iff, All, append-glue,
}
use mathlib.Core.List.{append_assoc, append-nil}
use http_tunnels.Tunnel.{Fault}
use http_tunnels.Tunnel.Pending.{PendingRequest, fail, close_body}
use http_tunnels.Tunnel.Sessions.{mark_activity}
use http_tunnels.Tunnel.Sockets.{Gorilla}
use http_tunnels.Tunnel.Frames.{
  Hub, Turn, goes_on, blocks, panics, handle_frame, object, body_of, rest_of, read_chunk, leave,
  resend, Event, comes, reads, leaves, fails, fail_object, turn_step, turn_run,
}
use http_tunnels.Tunnel.Frames.Objects.{
  object-put_object, object-leave, object-read_chunk, object-fail_object, drained, failing,
}
use http_tunnels.Tunnel.Frames.Bodies.{brought, frame_turn-under_way, is_up, under_way}

-- What an event brings for the request, and what its handler reads.
abbrev brought_by : Turn → String → Event → List (List ℕ)
brought_by (goes_on hub) id (comes now frame) = brought frame.type hub.pending id frame
brought_by _ id _ = []

abbrev first_chunk : List (List ℕ) → List (List ℕ)
first_chunk [] = []
first_chunk (chunk ∷ chunks) = chunk ∷ []

abbrev hub_of : Turn → Hub
hub_of (goes_on hub) = hub
hub_of (blocks hub id chunk) = hub
hub_of (panics hub) = hub

abbrev read_by : Turn → String → Event → List (List ℕ)
read_by (panics hub) id event = []
read_by t id (reads j) = if str_eq id j then first_chunk (body_of (object (hub_of t) id)) else []
read_by t id _ = []

-- The handler of the request has not returned.
abbrev stays : String → Event → Bool
stays id (leaves j) = not (str_eq id j)
stays id _ = true

first_chunk-rest_of : (chunks : List (List ℕ)) → first_chunk chunks ++ rest_of chunks ≡ chunks
first_chunk-rest_of [] = refl
first_chunk-rest_of (chunk ∷ chunks) = refl

body-drained : (o : Option PendingRequest) → body_of (drained o) ≡ rest_of (body_of o)
body-drained none = refl
body-drained (some req) = refl

body-failing : (err : Fault) (o : Option PendingRequest) → body_of (failing err o) ≡ body_of o
unfolding fail close_body
body-failing err none = refl
body-failing err (some req) = refl

body-fail_object :
    (hub : Hub) (j id : String) (err : Fault)
    → body_of (object (fail_object hub j err) id) ≡ body_of (object hub id)
body-fail_object hub j id err =
    ground (arith, object-fail_object hub j id err, body-failing err (object hub j), eq_iff id j)

body-leave :
    (hub : Hub) (j id : String)
    → not (str_eq id j) ≡ true
    → body_of (object (leave hub j) id) ≡ body_of (object hub id)
body-leave hub j id h = ground (arith, object-leave hub j id)

read_chunk-under_way :
    (hub : Hub) (j id : String)
    → body_of (object hub id)
      ≡ (if str_eq id j then first_chunk (body_of (object hub id)) else [])
        ++ body_of (object (read_chunk hub j) id)
read_chunk-under_way hub j id = ground (
  arith,
  object-read_chunk hub j id,
  first_chunk-rest_of (body_of (object hub id)),
  body-drained (object hub id),
  eq_iff id j,
)

resend-under_way :
    (hub : Hub) (j id : String) (chunk : List ℕ) (o : Option PendingRequest)
    → object hub j ≡ o
    → is_up (resend hub j chunk o) ≡ true
    → under_way (resend hub j chunk o) id ≡ under_way (blocks hub j chunk) id
unfolding resend
resend-under_way hub j id chunk none h up = refl
resend-under_way hub j id chunk (some req) h up = ground (
  arith,
  up,
  h,
  object-put_object hub j id (record req { body_ch = req.body_ch ++ chunk ∷ [] }),
  append-nil (body_of (object hub id)),
  eq_iff id j,
)

turn_step-under_way :
    (ws : Gorilla) (t : Turn) (event : Event) (id : String)
    → stays id event ≡ true
    → is_up (turn_step ws t event) ≡ true
    → under_way t id ++ brought_by t id event
      ≡ read_by t id event ++ under_way (turn_step ws t event) id
unfolding turn_step handle_frame object
turn_step-under_way ws (goes_on hub) (comes now frame) id s up = sym (
    frame_turn-under_way ws frame.type (record hub { session = mark_activity hub.session now })
      frame id up)
turn_step-under_way ws (goes_on hub) (reads j) id s up =
    append-nil (body_of (object hub id)) ∙ read_chunk-under_way hub j id
turn_step-under_way ws (goes_on hub) (leaves j) id s up =
    append-nil (body_of (object hub id)) ∙ sym (body-leave hub j id s)
turn_step-under_way ws (goes_on hub) (fails j err) id s up =
    append-nil (body_of (object hub id)) ∙ sym (body-fail_object hub j id err)
turn_step-under_way ws (blocks hub k chunk) (comes now frame) id s up =
    append-nil (under_way (blocks hub k chunk) id)
turn_step-under_way ws (blocks hub k chunk) (reads j) id s up =
    let waits_for = if str_eq id k then chunk ∷ [] else [] in
    let read = if str_eq id j then first_chunk (body_of (object hub id)) else [] in
    let after = read_chunk hub j in
    append-nil (under_way (blocks hub k chunk) id)
    ∙ ap (◌++ waits_for) (read_chunk-under_way hub j id)
    ∙ append_assoc read (body_of (object after id)) waits_for
    ∙ ap (read ++◌) (sym (resend-under_way after k id chunk (object after k) refl up))
turn_step-under_way ws (blocks hub k chunk) (leaves j) id s up =
    append-nil (under_way (blocks hub k chunk) id)
    ∙ ap (◌++ (if str_eq id k then chunk ∷ [] else [])) (sym (body-leave hub j id s))
turn_step-under_way ws (blocks hub k chunk) (fails j err) id s up =
    let after = fail_object hub j err in
    append-nil (under_way (blocks hub k chunk) id)
    ∙ ap (◌++ (if str_eq id k then chunk ∷ [] else [])) (sym (body-fail_object hub j id err))
    ∙ sym (resend-under_way after k id chunk (object after k) refl up)
turn_step-under_way ws (panics hub) event id s up = append-nil (body_of (object hub id))

abbrev pub brought_all : Gorilla → Turn → String → List Event → List (List ℕ)
brought_all ws t id [] = []
brought_all ws t id (event ∷ events) =
    brought_by t id event ++ brought_all ws (turn_step ws t event) id events

abbrev pub read_all : Gorilla → Turn → String → List Event → List (List ℕ)
read_all ws t id [] = []
read_all ws t id (event ∷ events) =
    read_by t id event ++ read_all ws (turn_step ws t event) id events

-- The handler of the request does not return meanwhile.
abbrev IsStaying : String → List Event → Type 0
IsStaying id = All (λ event. stays id event ≡ true)

up_of_step :
    (ws : Gorilla) (t : Turn) (event : Event) → is_up (turn_step ws t event) ≡ true → is_up t ≡ true
unfolding turn_step
up_of_step ws (goes_on hub) event h = refl
up_of_step ws (blocks hub id chunk) event h = refl
up_of_step ws (panics hub) event h = h

up_of_run :
    (ws : Gorilla) (events : List Event) (t : Turn)
    → is_up (turn_run ws t events) ≡ true
    → is_up t ≡ true
unfolding turn_run
up_of_run ws [] t h = h
up_of_run ws (event ∷ events) t h =
    up_of_step ws t event (up_of_run ws events (turn_step ws t event) h)

-- The chunks that the handler of a request has read, and those under way to it, are in this order
-- those that were under way before and those that frames of the tunnel have brought for it,
-- whatever frames of other requests come in between, as long as the handler has not returned and
-- the read loop has not panicked. Nothing is lost, doubled, reordered or mixed up between requests.
pub turn_run-body :
    (ws : Gorilla) (events : List Event) (t : Turn) (id : String)
    → IsStaying id events
    → is_up (turn_run ws t events) ≡ true
    → under_way t id ++ brought_all ws t id events
      ≡ read_all ws t id events ++ under_way (turn_run ws t events) id
unfolding turn_run
turn_run-body ws [] t id s up = append-nil (under_way t id)
turn_run-body ws (event ∷ events) t id s up =
    let u = turn_step ws t event in
    append-glue (under_way t id) (brought_by t id event) (brought_all ws u id events)
      (read_by t id event) (under_way u id) (read_all ws u id events)
      (under_way (turn_run ws u events) id)
      (turn_step-under_way ws t event id s.0 (up_of_run ws events u up))
      (turn_run-body ws events u id s.1 up)
