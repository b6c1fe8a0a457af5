-- ===== src/Client/Requests/Keeps.antt =====
-- The steps of the client that leave the body of a request as it is.
use http_tunnels.Prelude.{
  ℕ, ◌≤◌, ◌<◌, String, false, Option, none, some, List, [], ◌∷◌, ◌++◌, ◌≡◌, refl, ◌∙◌, arith,
}
use mathlib.Core.List.{append_assoc}
use http_tunnels.Prelude.Dict.{lookup}
use http_tunnels.Protocol.{Frame}
use http_tunnels.Client.Requests.{
  App, ActiveRequest, handle_request_start, end_at, cancel_at, delete_request, pump, take_frame,
}

abbrev pub body_of : ActiveRequest → List (List ℕ)
body_of r = r.pumped ++ r.body_ch

-- A step of the client that leaves the body at `place` as it is.
pub record Keeps (place : ℕ) (a b : App) : Type 0 where
  pub same : body_of (b.memory place) ≡ body_of (a.memory place)
  pub running : b.done ≡ a.done
  pub grows : a.free ≤ b.free

pub end_at-Keeps : (a : App) (place : ℕ) (at : Option ℕ) → Keeps place a (end_at a at)
unfolding end_at
end_at-Keeps a place none = record { same = refl; running = refl; grows = omega arith }
end_at-Keeps a place (some n) = record { same = ground arith; running = refl; grows = omega arith }

pub cancel_at-Keeps : (a : App) (place : ℕ) (at : Option ℕ) → Keeps place a (cancel_at a at)
unfolding cancel_at
cancel_at-Keeps a place none = record { same = refl; running = refl; grows = omega arith }
cancel_at-Keeps a place (some n) = record {
  same = ground arith;
  running = refl;
  grows = omega arith;
}

pub take_frame-Keeps :
    (a : App) (place n : ℕ) (frames : List Frame) → Keeps place a (take_frame a n frames)
unfolding take_frame
take_frame-Keeps a place n [] = record { same = refl; running = refl; grows = omega arith }
take_frame-Keeps a place n (f ∷ fs) = record {
  same = ground arith;
  running = refl;
  grows = omega arith;
}

pump-Keeps_of :
    (a : App) (place n : ℕ) (chunks : List (List ℕ))
    → (a.memory n).body_ch ≡ chunks
    → Keeps place a (pump a n chunks)
unfolding pump
pump-Keeps_of a place n [] e = record { same = refl; running = refl; grows = omega arith }
pump-Keeps_of a place n (chunk ∷ rest) e = record {
  same = grind (arith, append_assoc);
  running = refl;
  grows = omega arith;
}

pub pump-Keeps : (a : App) (place n : ℕ) → Keeps place a (pump a n (a.memory n).body_ch)
pump-Keeps a place n = pump-Keeps_of a place n (a.memory n).body_ch refl

pub handle_request_start-Keeps :
    (a : App) (place : ℕ) (frame : Frame)
    → place < a.free
    → Keeps place a (handle_request_start a frame)
unfolding handle_request_start
handle_request_start-Keeps a place frame old = record {
  same = ground arith;
  running = refl;
  grows = omega arith;
}

pub Keeps-Keeps : {a b c : App} (place : ℕ) → Keeps place a b → Keeps place b c → Keeps place a c
Keeps-Keeps place k m = record {
  same = m.same ∙ k.same;
  running = m.running ∙ k.running;
  grows = omega (arith, k.grows, m.grows);
}

pub delete_request-Keeps : (a : App) (place : ℕ) (id : String) → Keeps place a (delete_request a id)
unfolding delete_request
delete_request-Keeps a place id =
    let k = end_at-Keeps a place (lookup id a.requests) in
    record { same = k.same; running = k.running; grows = k.grows }

-- The client is not closing, and the place is in use.
pub record IsLive (place : ℕ) (a : App) : Type 0 where
  pub running : a.done ≡ false
  pub old : place < a.free

pub Keeps-IsLive : {a b : App} (place : ℕ) → Keeps place a b → IsLive place a → IsLive place b
Keeps-IsLive place k live = record {
  running = k.running ∙ live.running;
  old = omega (arith, k.grows, live.old);
}
