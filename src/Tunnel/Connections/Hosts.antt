-- ===== src/Tunnel/Connections/Hosts.antt =====
-- The look-up of the session for a host in `handleTunnelHTTP`
-- (internal/server/handlers_tunnel.go).
use http_tunnels.Prelude.{
  ℕ, String, Bool, false, ◌||◌, Option, none, some, List, [], ◌∷◌, ◌≡◌, ◌↔◌, refl, arith,
  if◌then◌else◌, str_eq, codes, same_text, All, first_of,
}
use http_tunnels.Prelude.Dict.{Dict, lookup}

-- A text ends with another.
abbrev pub ends_with : List ℕ → List ℕ → Bool
ends_with [] suffix = same_text [] suffix
ends_with (c ∷ cs) suffix = same_text (c ∷ cs) suffix || ends_with cs suffix

-- `strings.HasSuffix(host, "."+domain) || host == domain`
abbrev is_below : String → String → Bool
is_below host domain = ends_with (codes host) (b'.' ∷ codes domain) || str_eq host domain

-- The loop over the sessions, in the order in which the map gives them.
find_below : String → Dict ℕ → Option ℕ
find_below host [] = none
find_below host ((domain, session) ∷ sessions) =
    let rest = find_below host sessions in if is_below host domain then some session else rest

-- The session for a request's host, with its port stripped; `none` is answered with a 404.
find_session : Dict ℕ → String → Option ℕ
find_session sessions host = first_of (lookup host sessions) (find_below host sessions)

find_below-none :
    (host : String) (sessions : Dict ℕ)
    → (find_below host sessions ≡ none)
      ↔ All (λ (entry : String × ℕ). is_below host entry.0 ≡ false) sessions
unfolding find_below
find_below-none host [] = (λ h. tt, λ h. refl)
find_below-none host ((domain, session) ∷ sessions) = ground (arith, find_below-none host sessions)

lookup-found :
    (host : String) (session : ℕ) (sessions : Dict ℕ)
    → lookup host sessions ≡ some session
    → ¬ All (λ (entry : String × ℕ). is_below host entry.0 ≡ false) sessions
unfolding lookup
lookup-found host session [] h a = cc
lookup-found host session ((domain, n) ∷ sessions) h a = ground (
  arith,
  h,
  a.0,
  λ (e : lookup host sessions ≡ some session). lookup-found host session sessions e a.1,
)

first_of-none_iff :
    (host : String) (sessions : Dict ℕ) (o : Option ℕ)
    → lookup host sessions ≡ o
    → (first_of o (find_below host sessions) ≡ none)
      ↔ All (λ (entry : String × ℕ). is_below host entry.0 ≡ false) sessions
first_of-none_iff host sessions none h = find_below-none host sessions
first_of-none_iff host sessions (some session) h =
    (λ e. cc, λ a. absurd (lookup-found host session sessions h a))

-- A request gets a 404 just when its host is neither the domain of a session nor below one.
find_session-none_iff :
    (sessions : Dict ℕ) (host : String)
    → (find_session sessions host ≡ none)
      ↔ All (λ (entry : String × ℕ). is_below host entry.0 ≡ false) sessions
unfolding find_session
find_session-none_iff sessions host = first_of-none_iff host sessions (lookup host sessions) refl
