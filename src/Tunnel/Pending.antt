-- ===== src/Tunnel/Pending.antt =====
-- internal/server/pending.go: the requests that wait for a client's response. The channels of a
-- request are buffers: `ErrorCh` and `ResponseCh` of one entry, `bodyCh` of sixteen chunks. A
-- request that a call takes out of the store is returned in its last state: its handler goes on
-- with it.
pub mod Laws
pub mod Expiry
use http_tunnels.Prelude.{
  ℕ, suc, ◌+◌, ◌-◌, String, Bool, true, false, not, ◌&&◌, Option, none, some, List, [], ◌∷◌, length,
  ltb, if◌then◌else◌, str_eq,
}
use http_tunnels.Prelude.Int.{ℤ}
use http_tunnels.Prelude.Dict.{Dict, lookup, insert, erase}
use http_tunnels.Tunnel.{Fault, request_timeout}

pub record PendingResponse : Type 0 where
  pub status : ℤ
  pub headers : Dict (List String)

pub record PendingRequest : Type 0 where
  pub id : String
  pub tunnel_id : String
  pub method : String
  pub path : String
  pub headers : Dict (List String)
  pub content_len : ℤ
  pub response_ch : Option PendingResponse
  pub error_ch : Option Fault
  pub body_ch : List (List ℕ)
  -- `closeBodyOnce` has run, and has closed `bodyCh`.
  pub body_closed : Bool
  pub created_at : ℕ
  pub response_started : Bool

abbrev pub mark_response_started : PendingRequest → PendingRequest
mark_response_started r = record r { response_started = true }

unfoldable pub close_body : PendingRequest → PendingRequest
close_body r = record r { body_closed = true }

-- A send that is dropped when the buffer has its entry.
abbrev pub offer {ℓ} : {A : Type ℓ} → Option A → A → Option A
offer (some old) x = some old
offer none x = some x

unfoldable pub fail : PendingRequest → Option Fault → PendingRequest
fail r none = r
fail r (some err) = close_body (record r { error_ch = offer r.error_ch err })

pub record PendingStore : Type 0 where
  pub requests : Dict PendingRequest
  pub timeout : ℕ

abbrev new_pending_store : ℕ → PendingStore
new_pending_store timeout = record { requests = []; timeout = timeout }

unfoldable add : PendingStore → PendingRequest → ℕ → PendingStore
add ps req now = record ps {
  requests = insert req.id (record req { created_at = now }) ps.requests;
}

unfoldable pub get : PendingStore → String → Option PendingRequest
get ps id = lookup id ps.requests

unfoldable pub remove : PendingStore → String → PendingStore
remove ps id = record ps { requests = erase id ps.requests }

-- A loop over the map that takes out the requests that pass the test.
pub keep_not : (PendingRequest → Bool) → Dict PendingRequest → Dict PendingRequest
keep_not p [] = []
keep_not p ((id, req) ∷ d) = let rest = keep_not p d in if p req then rest else (id, req) ∷ rest

pub taken : (PendingRequest → Bool) → Dict PendingRequest → List PendingRequest
taken p [] = []
taken p ((id, req) ∷ d) = let rest = taken p d in if p req then req ∷ rest else rest

abbrev pub is_of_tunnel : String → PendingRequest → Bool
is_of_tunnel tunnel_id req = str_eq req.tunnel_id tunnel_id

unfoldable cleanup_by_tunnel : PendingStore → String → PendingStore
cleanup_by_tunnel ps tunnel_id = record ps {
  requests = keep_not (is_of_tunnel tunnel_id) ps.requests;
}

pub fail_each : Option Fault → List PendingRequest → List PendingRequest
fail_each err [] = []
fail_each err (req ∷ reqs) = fail req err ∷ fail_each err reqs

pub fail_by_tunnel : PendingStore → String → Option Fault → PendingStore × List PendingRequest
fail_by_tunnel ps tunnel_id err = (
  record ps { requests = keep_not (is_of_tunnel tunnel_id) ps.requests },
  fail_each err (taken (is_of_tunnel tunnel_id) ps.requests),
)

pub count : PendingStore → ℕ
count ps = length ps.requests

pub count_by_tunnel : PendingStore → String → ℕ
count_by_tunnel ps tunnel_id = length (taken (is_of_tunnel tunnel_id) ps.requests)

pub is_expired : ℕ → ℕ → PendingRequest → Bool
is_expired timeout now req = not req.response_started && ltb timeout (now - req.created_at)

pub cleanup_expired : PendingStore → ℕ → PendingStore × List PendingRequest
cleanup_expired ps now = (
  record ps { requests = keep_not (is_expired ps.timeout now) ps.requests },
  fail_each (some request_timeout) (taken (is_expired ps.timeout now) ps.requests),
)
