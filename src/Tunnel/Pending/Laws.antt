-- ===== src/Tunnel/Pending/Laws.antt =====
-- What the calls of the store do to each request.
use http_tunnels.Prelude.{
  suc, ◌+◌, String, Bool, true, Option, none, some, List, [], ◌∷◌, ◌≡◌, refl, ap, arith, length,
  if◌then◌else◌, eq_iff, or_default,
}
use http_tunnels.Prelude.Dict.{Dict, lookup, insert, erase, lookup-nil, lookup-insert, lookup-erase}
use http_tunnels.Tunnel.{Fault}
use http_tunnels.Tunnel.Pending.{
  PendingRequest, PendingStore, close_body, fail, get, keep_not, taken, is_of_tunnel, fail_each,
  fail_by_tunnel, count, count_by_tunnel,
}

-- No key has two entries.
abbrev pub IsUnique : Dict PendingRequest → Type 0
IsUnique [] = Unit
IsUnique ((id, req) ∷ d) = (lookup id d ≡ none) × IsUnique d

-- What the loop leaves of an entry.
abbrev pub keep_option : (PendingRequest → Bool) → Option PendingRequest → Option PendingRequest
keep_option p none = none
keep_option p (some req) = if p req then none else some req

pub lookup-keep_not :
    (p : PendingRequest → Bool) (id : String) (d : Dict PendingRequest)
    → IsUnique d
    → lookup id (keep_not p d) ≡ keep_option p (lookup id d)
unfolding lookup keep_not
lookup-keep_not p id [] u = refl
lookup-keep_not p id ((j, req) ∷ d) (fresh, u) =
    ground (arith, lookup-keep_not p id d u, fresh, eq_iff id j)

keep_not-IsUnique :
    (p : PendingRequest → Bool) (d : Dict PendingRequest) → IsUnique d → IsUnique (keep_not p d)
unfolding keep_not
keep_not-IsUnique p [] u = tt
keep_not-IsUnique p ((id, req) ∷ d) (fresh, u) =
    ground (arith, keep_not-IsUnique p d u, lookup-keep_not p id d u, fresh)

insert-IsUnique :
    (id : String) (req : PendingRequest) (d : Dict PendingRequest)
    → IsUnique d
    → IsUnique (insert id req d)
unfolding insert
insert-IsUnique id req [] u = (lookup-nil id, tt)
insert-IsUnique id req ((j, old) ∷ d) (fresh, u) =
    ground
      (arith, insert-IsUnique id req d u, lookup-insert j id req d, fresh, eq_iff id j, eq_iff j id)

erase-IsUnique : (id : String) (d : Dict PendingRequest) → IsUnique d → IsUnique (erase id d)
unfolding erase
erase-IsUnique id [] u = tt
erase-IsUnique id ((j, old) ∷ d) (fresh, u) =
    ground (arith, erase-IsUnique id d u, lookup-erase j id d, fresh)

pub length-keep_not :
    (p : PendingRequest → Bool) (d : Dict PendingRequest)
    → length (keep_not p d) + length (taken p d) ≡ length d
unfolding keep_not taken
length-keep_not p [] = omega arith
length-keep_not p ((id, req) ∷ d) = ground (arith, length-keep_not p d)

pub length-fail_each :
    (err : Option Fault) (reqs : List PendingRequest) → length (fail_each err reqs) ≡ length reqs
unfolding fail_each
length-fail_each err [] = refl
length-fail_each err (req ∷ reqs) = ap suc (length-fail_each err reqs)

-- A request that has failed: the error that came first is in its channel, and its body is closed.
abbrev pub IsFailed : Fault → PendingRequest → PendingRequest → Type 0
IsFailed err before now =
    (now.id ≡ before.id)
    × (now.error_ch ≡ some (or_default before.error_ch err))
    × (now.body_closed ≡ true)

-- `All` over two lists of one length.
abbrev pub Pairwise :
    (PendingRequest → PendingRequest → Type 0) → List PendingRequest → List PendingRequest → Type 0
Pairwise R [] [] = Unit
Pairwise R (x ∷ xs) (y ∷ ys) = R x y × Pairwise R xs ys
Pairwise R _ _ = ⊥

fail_each-Pairwise :
    (err : Fault) (reqs : List PendingRequest)
    → Pairwise (IsFailed err) reqs (fail_each (some err) reqs)
unfolding fail_each fail close_body
fail_each-Pairwise err [] = tt
fail_each-Pairwise err (req ∷ reqs) = ((refl, ground arith, refl), fail_each-Pairwise err reqs)

-- When a tunnel fails, its requests leave the store, all others stay as they are, and each of its
-- requests has the error that came first, and a closed body.
pub fail_by_tunnel-outcome :
    (ps : PendingStore) (tunnel_id : String) (err : Fault)
    → IsUnique ps.requests
    → let (after, failed) = fail_by_tunnel ps tunnel_id (some err) in
      ((id : String) → get after id ≡ keep_option (is_of_tunnel tunnel_id) (get ps id))
      × Pairwise (IsFailed err) (taken (is_of_tunnel tunnel_id) ps.requests) failed
      × (count after + length failed ≡ count ps)
      × (length failed ≡ count_by_tunnel ps tunnel_id)
unfolding fail_by_tunnel get count count_by_tunnel
fail_by_tunnel-outcome ps tunnel_id err u =
    let p = is_of_tunnel tunnel_id in
    let failed = taken p ps.requests in
    let same = length-fail_each (some err) failed in
    (
      λ id. lookup-keep_not p id ps.requests u,
      fail_each-Pairwise err failed,
      omega (arith, same, length-keep_not p ps.requests),
      same,
    )
