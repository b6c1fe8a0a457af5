-- ===== src/Tunnel/Connections.antt =====
-- Which connection serves a domain: the start and the end of `handleTunnelWS`
-- (internal/server/handlers_tunnel.go).
pub mod Serving
pub mod Hosts
use http_tunnels.Prelude.{
  ℕ, String, Bool, true, false, ◌||◌, Option, none, some, List, [], ◌∷◌, ◌≡◌, ◌≢◌, ◌↔◌, refl, sym,
  ◌∙◌, arith, ◌==◌, ==_iff, if◌then◌else◌, str_eq, eq_refl, codes, same_text, All, ◌⊎◌, inl, inr,
  first_of,
}
use http_tunnels.Prelude.Dict.{Dict, lookup, erase, lookup-insert, lookup-erase}
use http_tunnels.Tunnel.{connection_closed}
use http_tunnels.Tunnel.Pending.{PendingRequest, PendingStore, get, is_of_tunnel, fail_by_tunnel}
use http_tunnels.Tunnel.Pending.Laws.{IsUnique, keep_option, fail_by_tunnel-outcome}
use http_tunnels.Tunnel.Sessions.{set_session}

-- A connection that has registered, with its domain as `NormalizeHost` gives it.
pub record Connection : Type 0 where
  pub number : ℕ
  pub tunnel_id : String
  pub domain : String

-- The sessions by their domain, the session that each connection has taken the place of, the
-- connections that are closed, the requests that wait, and the tunnels that the database takes for
-- connected.
pub record Registry : Type 0 where
  pub sessions : Dict ℕ
  pub replaced : ℕ → Option ℕ
  pub closed : ℕ → Bool
  pub pending : PendingStore
  pub connected : String → Bool

abbrev close_number : (ℕ → Bool) → Option ℕ → ℕ → Bool
close_number closed none n = closed n
close_number closed (some m) n = n == m || closed n

abbrev mark_connected : (String → Bool) → String → Bool → String → Bool
mark_connected connected tunnel_id value id = if str_eq id tunnel_id then value else connected id

-- The calls with which a connection takes its place, and those with which its handler cleans up
-- behind the read loop. Each is a step of its own: other connections go on in between.
pub data Step : Type 0 where
  sets closes_replaced marks_active : Connection → Step
  deletes fails_requests closes marks_disconnected : Connection → Step

pub registry_step : Registry → Step → Registry
registry_step r (sets c) =
    let (prev, sessions) = set_session r.sessions c.domain c.number in
    record r { sessions = sessions; replaced = λ n. if n == c.number then prev else r.replaced n }
registry_step r (closes_replaced c) = record r {
  closed = close_number r.closed (r.replaced c.number);
}
registry_step r (marks_active c) = record r {
  connected = mark_connected r.connected c.tunnel_id true;
}
registry_step r (deletes c) = record r { sessions = erase c.domain r.sessions }
registry_step r (fails_requests c) = record r {
  pending = (fail_by_tunnel r.pending c.tunnel_id (some connection_closed)).0;
}
registry_step r (closes c) = record r { closed = close_number r.closed (some c.number) }
registry_step r (marks_disconnected c) = record r {
  connected = mark_connected r.connected c.tunnel_id false;
}

pub registry_run : Registry → List Step → Registry
registry_run r [] = r
registry_run r (step ∷ steps) = registry_run (registry_step r step) steps

-- The connection takes the place of the one before, which is closed, with no other step between.
pub connects : Registry → Connection → Registry
connects r c = registry_run r (sets c ∷ closes_replaced c ∷ marks_active c ∷ [])

-- The read loop of the connection has ended, and its handler cleans up in one go.
pub disconnects : Registry → Connection → Registry
disconnects r c =
    registry_run r (deletes c ∷ fails_requests c ∷ closes c ∷ marks_disconnected c ∷ [])

keep_option-some :
    (p : PendingRequest → Bool) (o : Option PendingRequest) (req : PendingRequest)
    → keep_option p o ≡ some req
    → p req ≡ false
keep_option-some p none req h = cc
keep_option-some p (some r) req h = ground arith

-- When a client connects again before the server has noticed the end of its old connection, the
-- end of the old one takes the new one down: the open connection is no session any more, the
-- requests that were sent to it have failed, and the tunnel counts as not connected.
pub disconnects-replaced :
    (r : Registry) (old new : Connection) (id : String)
    → new.domain ≡ old.domain
    → new.tunnel_id ≡ old.tunnel_id
    → lookup old.domain r.sessions ≡ some old.number
    → new.number ≢ old.number
    → r.closed new.number ≡ false
    → IsUnique r.pending.requests
    → let s = disconnects (connects r new) old in
      (s.closed new.number ≡ false)
      × (lookup new.domain s.sessions ≡ none)
      × ((req : PendingRequest)
          → get s.pending id ≡ some req
          → str_eq req.tunnel_id new.tunnel_id ≡ false)
      × (s.connected new.tunnel_id ≡ false)
unfolding connects disconnects registry_run registry_step set_session
disconnects-replaced r old new id same_domain same_tunnel there different open_ u = (
  ground (arith, same_domain, there, open_, different, ==_iff new.number old.number),
  lookup-erase new.domain old.domain _ ∙ rw same_domain (rw eq_refl refl),
  λ req h. rw same_tunnel (
      keep_option-some (is_of_tunnel old.tunnel_id) (get r.pending id) req
        (sym ((fail_by_tunnel-outcome r.pending old.tunnel_id connection_closed u).0 id) ∙ h)),
  rw same_tunnel (rw eq_refl refl),
)
