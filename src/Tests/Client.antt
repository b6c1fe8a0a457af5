-- ===== src/Tests/Client.antt =====
-- A client with an update that the system hinders, and with an upload that its backend does not read.
use http_tunnels.Prelude.{ℕ, List, [], ◌∷◌, ◌++◌, ◌≡◌, ◌⊎◌, refl, arith, false}
use http_tunnels.Prelude.Int.{pos}
use http_tunnels.Protocol.{Frame, frame_of, request_body}
use http_tunnels.Protocol.Scheduler.{new_frame_scheduler}
use http_tunnels.Client.Requests.{
  App, reading, panicked, handle_frame, frame_turn, handle_request_body, body_to, send_chunk,
}
use http_tunnels.Client.Requests.Runs.{Event, comes, pumps, ends, closes, loop_step, loop_run}
use http_tunnels.Client.Requests.Panics.{loop_run-panics}
use http_tunnels.Client.Requests.Streams.{under_way, loop_run-body}
use http_tunnels.Prelude.Dict.{lookup}
use http_tunnels.Client.Update.{Files, works, fails, Fates, replace_executable}
use http_tunnels.Client.Update.Laws.{IsSafe, replace_executable-IsSafe}

abbrev files : Files
files = ("tunnel", 1 ∷ []) ∷ ("download", 2 ∷ []) ∷ []

-- Neither the installation nor the way back works.
abbrev fates : Fates
fates = record {
  copying = works;
  clearing = works;
  backing_up = works;
  installing = fails;
  restoring = fails;
  discarding = works;
  tidying = works;
}

replace_executable-IsSafe_example :
    IsSafe fates "tunnel" (1 ∷ []) (2 ∷ []) (replace_executable fates files "tunnel" "download")
unfolding lookup
replace_executable-IsSafe_example =
    replace_executable-IsSafe fates files "tunnel" "download" (1 ∷ []) (2 ∷ []) refl refl

abbrev sixteen : List ℕ → List (List ℕ)
sixteen c = let four = c ∷ c ∷ c ∷ c ∷ [] in let eight = four ++ four in eight ++ eight

-- An upload that the backend does not read.
abbrev upload : App
upload = record {
  outbound = new_frame_scheduler (pos 16);
  done = false;
  last_active = 0;
  awaiting_pong = false;
  requests = ("r", 0) ∷ [];
  memory = λ place. record {
    cancelled = false;
    body_ch = sixteen (7 ∷ []);
    body_closed = false;
    pumped = [];
    ws_frame_ch = [];
  };
  free = 1;
}

abbrev chunk_frame : Frame
chunk_frame = record (frame_of request_body "r") { chunk = 8 ∷ [] }

loop_run-panics_example :
    (loop_run (reading upload) (comes false 5 chunk_frame ∷ ends 0 ∷ closes ∷ []) ≡ panicked)
    × (loop_run (reading upload) (ends 0 ∷ comes false 5 chunk_frame ∷ closes ∷ []) ≡ panicked)
unfolding lookup
loop_run-panics_example =
    loop_run-panics false 5 8 0 upload chunk_frame [] (closes ∷ []) refl refl refl refl
      (omega arith)

abbrev events : List Event
events = comes false 5 chunk_frame ∷ pumps 0 ∷ []

loop_run-body_example :
    (loop_run (reading upload) events ≡ panicked)
    ⊎ (under_way 0 (loop_run (reading upload) events) ≡ sixteen (7 ∷ []) ++ (8 ∷ []) ∷ [])
unfolding lookup loop_step handle_frame frame_turn handle_request_body body_to send_chunk
loop_run-body_example = loop_run-body 0 upload events refl (omega arith) refl
