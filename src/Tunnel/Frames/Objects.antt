-- ===== src/Tunnel/Frames/Objects.antt =====
-- Reading and writing the requests of a hub.
use http_tunnels.Prelude.{
  String, Option, none, some, ◌≡◌, refl, ap, arith, if◌then◌else◌, str_eq, eq_iff, first_of,
}
use http_tunnels.Prelude.Dict.{lookup, lookup-insert, lookup-erase}
use http_tunnels.Tunnel.{Fault}
use http_tunnels.Tunnel.Pending.{PendingRequest, fail, get, remove}
use http_tunnels.Tunnel.Frames.{
  Hub, object, put_object, take_chunk, rest_of, read_chunk, leave, release, fail_with, fail_object,
}

pub object-put_object :
    (hub : Hub) (id j : String) (req : PendingRequest)
    → object (put_object hub id req) j ≡ (if str_eq j id then some req else object hub j)
unfolding object put_object get
object-put_object hub id j req = ground (
  arith,
  lookup-insert j id req hub.pending.requests,
  lookup-insert j id req hub.left,
  eq_iff j id,
)

pub object-leave :
    (hub : Hub) (id j : String)
    → object (leave hub id) j ≡ (if str_eq j id then none else object hub j)
unfolding object leave get remove
object-leave hub id j =
    ground (arith, lookup-erase j id hub.pending.requests, lookup-erase j id hub.left)

abbrev pub drained : Option PendingRequest → Option PendingRequest
drained none = none
drained (some req) = some (record req { body_ch = rest_of req.body_ch })

object-take_chunk :
    (hub : Hub) (id j : String) (o : Option PendingRequest)
    → object hub id ≡ o
    → object (take_chunk hub id o) j ≡ (if str_eq j id then drained o else object hub j)
unfolding take_chunk
object-take_chunk hub id j none h = ground (arith, h, eq_iff j id)
object-take_chunk hub id j (some req) h =
    object-put_object hub id j (record req { body_ch = rest_of req.body_ch })

pub object-read_chunk :
    (hub : Hub) (id j : String)
    → object (read_chunk hub id) j ≡ (if str_eq j id then drained (object hub id) else object hub j)
unfolding read_chunk
object-read_chunk hub id j = object-take_chunk hub id j (object hub id) refl

abbrev pub failing : Fault → Option PendingRequest → Option PendingRequest
failing err none = none
failing err (some req) = some (fail req (some err))

object-fail_with :
    (hub : Hub) (id j : String) (err : Fault) (o : Option PendingRequest)
    → object hub id ≡ o
    → object (fail_with hub id err o) j ≡ (if str_eq j id then failing err o else object hub j)
unfolding fail_with
object-fail_with hub id j err none h = ground (arith, h, eq_iff j id)
object-fail_with hub id j err (some req) h = object-put_object hub id j (fail req (some err))

pub object-fail_object :
    (hub : Hub) (id j : String) (err : Fault)
    → object (fail_object hub id err) j
      ≡ (if str_eq j id then failing err (object hub id) else object hub j)
unfolding fail_object
object-fail_object hub id j err = object-fail_with hub id j err (object hub id) refl

pub object-release :
    (hub : Hub) (id j : String) (req : PendingRequest)
    → object (release hub id req) j ≡ (if str_eq j id then some req else object hub j)
unfolding object get remove
object-release hub id j req =
    ground (arith, lookup-erase j id hub.pending.requests, lookup-insert j id req hub.left)

pub object_of_get :
    (hub : Hub) (id : String) (req : PendingRequest)
    → get hub.pending id ≡ some req
    → object hub id ≡ some req
unfolding object
object_of_get hub id req h = ap (λ o. first_of o (lookup id hub.left)) h
