-- ===== src/Client/Requests/Streams.antt =====
-- The body of a request in the client, over any sequence of events.
use http_tunnels.Prelude.{
  ℕ, ◌<◌, Bool, true, false, some, List, [], ◌∷◌, ◌++◌, ◌≡◌, refl, ap, ◌∙◌, sym, arith, ◌&&◌, ◌⊎◌,
  inl, inr,
}
use mathlib.Core.Path.{subst}
use mathlib.Core.List.{append_assoc, append-nil}
use http_tunnels.Protocol.{Frame}
use http_tunnels.Client.Requests.{
  App, Loop, reading, sending, forwarding, panicked, send_chunk, send_frame, handle_frame,
}
use http_tunnels.Client.Requests.Runs.{
  Event, comes, pumps, takes, ends, deletes, closes, others_step, loop_step, loop_run,
}
use http_tunnels.Client.Requests.Bodies.{
  Holds, sent_to, brought, send_chunk-Holds, send_frame-Holds, kept, frame_turn-Holds,
}
use http_tunnels.Client.Requests.Keeps.{
  body_of, Keeps, IsLive, end_at-Keeps, take_frame-Keeps, pump-Keeps, Keeps-IsLive,
  delete_request-Keeps,
}

-- What has arrived at `place`, and what is about to.
abbrev pub under_way : ℕ → Loop → List (List ℕ)
under_way place (reading a) = body_of (a.memory place)
under_way place (sending a n chunk) = body_of (a.memory place) ++ sent_to place n chunk
under_way place (forwarding a n frame) = body_of (a.memory place)
under_way place panicked = []

abbrev pub is_calm : Event → Bool
is_calm closes = false
is_calm _ = true

abbrev pub is_all {ℓ} : {A : Type ℓ} → (A → Bool) → List A → Bool
is_all p [] = true
is_all p (x ∷ xs) = p x && is_all p xs

module _ (place : ℕ) where
  others_step-Keeps :
      (a : App) (event : Event) → is_calm event ≡ true → Keeps place a (others_step a event)
  others_step-Keeps a (comes d now frame) calm = record {
    same = refl;
    running = refl;
    grows = omega arith;
  }
  others_step-Keeps a (pumps n) calm = pump-Keeps a place n
  others_step-Keeps a (takes n) calm = take_frame-Keeps a place n (a.memory n).ws_frame_ch
  others_step-Keeps a (ends n) calm = end_at-Keeps a place (some n)
  others_step-Keeps a (deletes id) calm = delete_request-Keeps a place id
  others_step-Keeps a closes calm = ground arith

  -- The chunk that an event brings for the request at `place`.
  abbrev pub brought_to : Loop → Event → List (List ℕ)
  brought_to (reading a) (comes done_first now frame) = brought place frame.type a.requests frame
  brought_to _ event = []

  resumed :
      (a : App) (event : Event) (n : ℕ) (chunk : List ℕ)
      → is_calm event ≡ true
      → IsLive place a
      → Holds place
          ((body_of (a.memory place) ++ sent_to place n chunk) ++ [])
          (send_chunk false (others_step a event) n chunk)
  resumed a event n chunk calm live =
      let k = others_step-Keeps a event calm in
      subst (λ c. Holds place c (send_chunk false (others_step a event) n chunk))
        (ap (λ b. b ++ sent_to place n chunk) k.same ∙ sym (append-nil _))
        (send_chunk-Holds place false (others_step a event) n chunk (Keeps-IsLive place k live))

  forwarded :
      (a : App) (event : Event) (n : ℕ) (frame : Frame)
      → is_calm event ≡ true
      → IsLive place a
      → Holds place
          (body_of (a.memory place) ++ [])
          (send_frame false (others_step a event) n frame)
  forwarded a event n frame calm live =
      let k = others_step-Keeps a event calm in
      subst (λ c. Holds place c (send_frame false (others_step a event) n frame))
        (k.same ∙ sym (append-nil _))
        (send_frame-Holds place false (others_step a event) n frame (Keeps-IsLive place k live))

  moved :
      (l : Loop) (chunks more : List (List ℕ)) (event : Event)
      → under_way place l ≡ chunks
      → Holds place (under_way place l ++ more) (loop_step l event)
      → Holds place (chunks ++ more) (loop_step l event)
  moved l chunks more event e h = subst (λ c. Holds place (c ++ more) (loop_step l event)) e h

  loop_step-Holds :
      (l : Loop) (event : Event) (chunks : List (List ℕ))
      → is_calm event ≡ true
      → Holds place chunks l
      → Holds place (chunks ++ brought_to l event) (loop_step l event)
  unfolding loop_step handle_frame
  loop_step-Holds (reading a) (comes d now frame) chunks calm (live, e) =
      moved (reading a) chunks (brought place frame.type a.requests frame) (comes d now frame) e (
        frame_turn-Holds place d frame.type (record a { last_active = now }) frame
          (record { running = live.running; old = live.old }))
  loop_step-Holds (reading a) (pumps m) chunks calm (live, e) =
      moved (reading a) chunks [] (pumps m) e (kept place live (others_step-Keeps a (pumps m) calm))
  loop_step-Holds (reading a) (takes m) chunks calm (live, e) =
      moved (reading a) chunks [] (takes m) e (kept place live (others_step-Keeps a (takes m) calm))
  loop_step-Holds (reading a) (ends m) chunks calm (live, e) =
      moved (reading a) chunks [] (ends m) e (kept place live (others_step-Keeps a (ends m) calm))
  loop_step-Holds (reading a) (deletes id) chunks calm (live, e) =
      moved (reading a) chunks [] (deletes id) e
        (kept place live (others_step-Keeps a (deletes id) calm))
  loop_step-Holds (sending a n chunk) (comes d now frame) chunks calm (live, e) =
      moved (sending a n chunk) chunks [] (comes d now frame) e
        (resumed a (comes d now frame) n chunk calm live)
  loop_step-Holds (sending a n chunk) (pumps m) chunks calm (live, e) =
      moved (sending a n chunk) chunks [] (pumps m) e (resumed a (pumps m) n chunk calm live)
  loop_step-Holds (sending a n chunk) (takes m) chunks calm (live, e) =
      moved (sending a n chunk) chunks [] (takes m) e (resumed a (takes m) n chunk calm live)
  loop_step-Holds (sending a n chunk) (ends m) chunks calm (live, e) =
      moved (sending a n chunk) chunks [] (ends m) e (resumed a (ends m) n chunk calm live)
  loop_step-Holds (sending a n chunk) (deletes id) chunks calm (live, e) =
      moved (sending a n chunk) chunks [] (deletes id) e (resumed a (deletes id) n chunk calm live)
  loop_step-Holds (forwarding a n f) (comes d now frame) chunks calm (live, e) =
      moved (forwarding a n f) chunks [] (comes d now frame) e
        (forwarded a (comes d now frame) n f calm live)
  loop_step-Holds (forwarding a n f) (pumps m) chunks calm (live, e) =
      moved (forwarding a n f) chunks [] (pumps m) e (forwarded a (pumps m) n f calm live)
  loop_step-Holds (forwarding a n f) (takes m) chunks calm (live, e) =
      moved (forwarding a n f) chunks [] (takes m) e (forwarded a (takes m) n f calm live)
  loop_step-Holds (forwarding a n f) (ends m) chunks calm (live, e) =
      moved (forwarding a n f) chunks [] (ends m) e (forwarded a (ends m) n f calm live)
  loop_step-Holds (forwarding a n f) (deletes id) chunks calm (live, e) =
      moved (forwarding a n f) chunks [] (deletes id) e (forwarded a (deletes id) n f calm live)
  loop_step-Holds (reading a) closes chunks calm h = ground arith
  loop_step-Holds (sending a n chunk) closes chunks calm h = ground arith
  loop_step-Holds (forwarding a n f) closes chunks calm h = ground arith
  loop_step-Holds panicked event chunks calm h = tt

  -- The chunks that events bring for the request at `place`, frame by frame.
  abbrev pub brought_by : Loop → List Event → List (List ℕ)
  brought_by l [] = []
  brought_by l (event ∷ events) = brought_to l event ++ brought_by (loop_step l event) events

  loop_run-Holds :
      (l : Loop) (events : List Event) (chunks : List (List ℕ))
      → is_all is_calm events ≡ true
      → Holds place chunks l
      → Holds place (chunks ++ brought_by l events) (loop_run l events)
  unfolding loop_run
  loop_run-Holds l [] chunks calm h = subst (λ c. Holds place c l) (sym (append-nil chunks)) h
  loop_run-Holds l (event ∷ events) chunks calm h =
      subst (λ c. Holds place c (loop_run (loop_step l event) events))
        (append_assoc chunks (brought_to l event) (brought_by (loop_step l event) events))
        (loop_run-Holds (loop_step l event) events (chunks ++ brought_to l event) (ground arith)
          (loop_step-Holds l event chunks (ground arith) h))

  Holds-cases :
      (l : Loop) (chunks : List (List ℕ))
      → Holds place chunks l
      → (l ≡ panicked) ⊎ (under_way place l ≡ chunks)
  Holds-cases (reading a) chunks (live, e) = inr e
  Holds-cases (sending a n chunk) chunks (live, e) = inr e
  Holds-cases (forwarding a n frame) chunks (live, e) = inr e
  Holds-cases panicked chunks h = inl refl

-- As long as the client is not closing and its read loop has not panicked, the chunks that
-- `bodyPump` has taken from the channel of a request, those in the channel and the one that the loop
-- waits to send there are, in this order, those that were there before and those that frames of the
-- tunnel have brought for that request since, whatever frames of other requests come in between.
pub loop_run-body :
    (place : ℕ) (a : App) (events : List Event)
    → a.done ≡ false
    → place < a.free
    → is_all is_calm events ≡ true
    → (loop_run (reading a) events ≡ panicked)
      ⊎ (under_way place (loop_run (reading a) events)
          ≡ body_of (a.memory place) ++ brought_by place (reading a) events)
loop_run-body place a events running old calm = Holds-cases place (loop_run (reading a) events) _ (
    loop_run-Holds place (reading a) events (body_of (a.memory place)) calm
      (record { running = running; old = old }, refl))
