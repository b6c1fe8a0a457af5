-- ===== src/Tunnel/Pending/Expiry.antt =====
-- Which requests the clean-up of the store takes out.
use http_tunnels.Prelude.{
  ℕ, ◌+◌, ◌≤◌, ◌<◌, String, Bool, true, false, Option, none, some, List, [], ◌∷◌, ◌≡◌, ◌⊎◌, inl,
  inr, refl, ap, ◌∙◌, arith, length, if◌then◌else◌, In,
}
use http_tunnels.Prelude.Dict.{Dict, lookup}
use http_tunnels.Tunnel.{Fault, request_timeout}
use http_tunnels.Tunnel.Pending.{
  PendingRequest, PendingStore, get, keep_not, taken, fail_each, fail, count, is_expired,
  cleanup_expired, close_body,
}
use http_tunnels.Tunnel.Pending.Laws.{
  IsUnique, IsFailed, keep_option, lookup-keep_not, length-keep_not, length-fail_each,
}

-- A request has waited for longer than the timeout without a response having begun.
abbrev pub IsOverdue : ℕ → ℕ → PendingRequest → Type 0
IsOverdue timeout now req = (req.response_started ≡ false) × (req.created_at + timeout < now)

-- A response has begun, or the timeout has not passed yet.
abbrev pub IsInTime : ℕ → ℕ → PendingRequest → Type 0
IsInTime timeout now req = (req.response_started ≡ true) ⊎ (now ≤ req.created_at + timeout)

is_expired-IsOverdue :
    (timeout now : ℕ) (req : PendingRequest)
    → ((is_expired timeout now req ≡ true) × IsOverdue timeout now req)
      ⊎ ((is_expired timeout now req ≡ false) × IsInTime timeout now req)
unfolding is_expired
is_expired-IsOverdue timeout now req = ground arith

In-taken :
    (p : PendingRequest → Bool) (id : String) (req : PendingRequest) (d : Dict PendingRequest)
    → lookup id d ≡ some req
    → p req ≡ true
    → In req (taken p d)
unfolding lookup taken
In-taken p id req [] h e = cc
In-taken p id req ((j, r) ∷ d) h e =
    ground (arith, h, e, λ (l : lookup id d ≡ some req). In-taken p id req d l e)

In-fail_each :
    (err : Option Fault) (req : PendingRequest) (reqs : List PendingRequest)
    → In req reqs
    → In (fail req err) (fail_each err reqs)
unfolding fail_each
In-fail_each err req [] there = there
In-fail_each err req (r ∷ reqs) (inl e) = inl (ap (λ q. fail q err) e)
In-fail_each err req (r ∷ reqs) (inr there) = inr (In-fail_each err req reqs there)

fail-IsFailed : (err : Fault) (req : PendingRequest) → IsFailed err req (fail req (some err))
unfolding fail close_body
fail-IsFailed err req = (refl, ground arith, refl)

-- The clean-up takes a request of the store out just when it has waited for longer than the
-- timeout without a response having begun, and fails it with the timeout, unless it has failed
-- before; the others stay as they are, and no more requests fail than leave the store.
pub cleanup_expired-outcome :
    (ps : PendingStore) (now : ℕ) (id : String) (req : PendingRequest)
    → IsUnique ps.requests
    → get ps id ≡ some req
    → let (after, failed) = cleanup_expired ps now in
      ((IsOverdue ps.timeout now req
          × (get after id ≡ none)
          × (gone : PendingRequest) × In gone failed
          × IsFailed request_timeout req gone)
        ⊎ (IsInTime ps.timeout now req × (get after id ≡ some req)))
      × (count after + length failed ≡ count ps)
unfolding cleanup_expired get count
cleanup_expired-outcome ps now id req u there =
    let p = is_expired ps.timeout now in
    let left : lookup id (keep_not p ps.requests) ≡ (if p req then none else some req) =
      lookup-keep_not p id ps.requests u ∙ ap (keep_option p) there in
    (
      elim (is_expired-IsOverdue ps.timeout now req) [
        | inl (expired, overdue) ↦ inl (
          overdue,
          left ∙ rw expired refl,
          fail req (some request_timeout),
          In-fail_each (some request_timeout) req (taken p ps.requests)
              (In-taken p id req ps.requests there expired),
          fail-IsFailed request_timeout req,
        )
        | inr (fresh, in_time) ↦ inr (in_time, left ∙ rw fresh refl)
      ],
      omega (
        arith,
        length-fail_each (some request_timeout) (taken p ps.requests),
        length-keep_not p ps.requests,
      ),
    )
