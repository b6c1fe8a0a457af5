-- ===== src/Ws/Laws.antt =====
-- When the client's process ends, and with which code.
use http_tunnels.Prelude.{
  ℕ, Bool, true, false, List, [], ◌∷◌, ◌++◌, ◌≡◌, refl, ap, ◌∙◌, if◌then◌else◌, codes,
}
use http_tunnels.Ws.{
  includes, ClientEvent, opened, message, closed, error, ClientEffect, log, log_error, send, close,
  exit_later, new_client, client_step, client_run, shown_text,
}

-- The codes of the exits among the effects.
abbrev pub exits : List ClientEffect → List ℕ
exits [] = []
exits (exit_later code ∷ effects) = code ∷ exits effects
exits (e ∷ effects) = exits effects

-- The code that ends the process, of the first event that ends the connection.
abbrev first_end : List ClientEvent → List ℕ
first_end [] = []
first_end (closed code reason ∷ es) = 0 ∷ []
first_end (error m ∷ es) = 1 ∷ []
first_end (e ∷ es) = first_end es

exits-append : (xs ys : List ClientEffect) → exits (xs ++ ys) ≡ exits xs ++ exits ys
exits-append [] ys = refl
exits-append (exit_later code ∷ xs) ys = ap (code ∷◌) (exits-append xs ys)
exits-append (log t ∷ xs) ys = exits-append xs ys
exits-append (log_error t ∷ xs) ys = exits-append xs ys
exits-append (send m ∷ xs) ys = exits-append xs ys
exits-append (close code t ∷ xs) ys = exits-append xs ys

exits-reply :
    (b : Bool) (rest : List ℕ)
    → exits (if b then close 1000 (codes "done") ∷ [] else []) ++ rest ≡ rest
exits-reply true rest = refl
exits-reply false rest = refl

-- Once the process is about to end, no event sets another timer.
exits-done : (es : List ClientEvent) → exits (client_run (record { done = true }) es).1 ≡ []
unfolding client_run client_step
exits-done [] = refl
exits-done (opened ∷ es) = exits-done es
exits-done (message m ∷ es) =
    exits-append
      (if includes (shown_text m) (codes "echo:hello") then close 1000 (codes "done") ∷ [] else [])
      _
    ∙ exits-reply (includes (shown_text m) (codes "echo:hello")) _
    ∙ exits-done es
exits-done (closed code reason ∷ es) = exits-done es
exits-done (error m ∷ es) = exits-done es

-- Whatever the client receives, its process ends at most once, for the first event that closes the
-- connection or reports an error, with code 0 for the one and 1 for the other.
exits-client_run : (es : List ClientEvent) → exits (client_run new_client es).1 ≡ first_end es
unfolding client_run client_step
exits-client_run [] = refl
exits-client_run (opened ∷ es) = exits-client_run es
exits-client_run (message m ∷ es) =
    exits-append
      (if includes (shown_text m) (codes "echo:hello") then close 1000 (codes "done") ∷ [] else [])
      _
    ∙ exits-reply (includes (shown_text m) (codes "echo:hello")) _
    ∙ exits-client_run es
exits-client_run (closed code reason ∷ es) = ap (0 ∷◌) (exits-done es)
exits-client_run (error m ∷ es) = ap (1 ∷◌) (exits-done es)
