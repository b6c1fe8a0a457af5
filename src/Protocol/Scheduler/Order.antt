-- ===== src/Protocol/Scheduler/Order.antt =====
-- The list `order` of a scheduler: membership, entries without a second copy, and the entry at an
-- index.
use http_tunnels.Prelude.{
  ℕ, zero, suc, ◌<◌, String, Bool, false, ◌||◌, some, List, [], ◌∷◌, ◌++◌, ◌≡◌, refl, ap, arith,
  length, str_eq, eq_iff,
}
use mathlib.Core.List.{append-nil}
use http_tunnels.Protocol.Scheduler.{get_elem?, erase_idx}

abbrev pub contains : String → List String → Bool
contains x [] = false
contains x (y ∷ ys) = str_eq x y || contains x ys

abbrev pub IsNodup : List String → Type 0
IsNodup [] = Unit
IsNodup (x ∷ xs) = (contains x xs ≡ false) × IsNodup xs

pub contains-append :
    (x : String) (ys zs : List String) → contains x (ys ++ zs) ≡ (contains x ys || contains x zs)
contains-append x [] zs = refl
contains-append x (y ∷ ys) zs = ground (arith, contains-append x ys zs)

pub contains_middle :
    (x y : String) (ys zs : List String)
    → contains x (ys ++ y ∷ zs) ≡ (str_eq x y || contains x (ys ++ zs))
contains_middle x y ys zs = rw (contains-append, contains-append) (ground arith)

pub IsNodup-middle :
    (y : String) (ys zs : List String)
    → IsNodup (ys ++ y ∷ zs)
    → IsNodup (ys ++ zs) × (contains y (ys ++ zs) ≡ false)
IsNodup-middle y [] zs h = (h.1, h.0)
IsNodup-middle y (x ∷ ys) zs h =
    ground (arith, IsNodup-middle y ys zs h.1, contains_middle x y ys zs, eq_iff x y, eq_iff y x)

pub IsNodup-insert :
    (y : String) (ys zs : List String)
    → IsNodup (ys ++ zs)
    → contains y (ys ++ zs) ≡ false
    → IsNodup (ys ++ y ∷ zs)
IsNodup-insert y [] zs h m = (m, h)
IsNodup-insert y (x ∷ ys) zs h m =
    ground (arith, IsNodup-insert y ys zs h.1, contains_middle x y ys zs, eq_iff x y, eq_iff y x)

pub IsNodup-snoc :
    (y : String) (ys : List String) → IsNodup ys → contains y ys ≡ false → IsNodup (ys ++ y ∷ [])
IsNodup-snoc y ys h m = IsNodup-insert y ys [] (rw append-nil h) (rw append-nil m)

-- The entry at an index, with what stands before and behind it.
pub record Split (xs : List String) (i : ℕ) : Type 0 where
  pub before : List String
  pub here : String
  pub after : List String
  pub parts : xs ≡ before ++ here ∷ after
  pub index : i ≡ length before

pub split_at : (xs : List String) (i : ℕ) → i < length xs → Split xs i
split_at [] i h = elim h [ ]
split_at (x ∷ xs) zero h = record { before = []; here = x; after = xs; parts = refl; index = refl }
split_at (x ∷ xs) (suc i) h =
    let rest = split_at xs i (omega arith) in
    record {
      before = x ∷ rest.before;
      here = rest.here;
      after = rest.after;
      parts = ap (x ∷◌) rest.parts;
      index = ap suc rest.index;
    }

pub get_elem?-middle :
    (ys : List String) (y : String) (zs : List String)
    → get_elem? (ys ++ y ∷ zs) (length ys) ≡ some y
unfolding get_elem?
get_elem?-middle [] y zs = refl
get_elem?-middle (x ∷ ys) y zs = get_elem?-middle ys y zs

pub erase_idx-middle :
    (ys : List String) (y : String) (zs : List String)
    → erase_idx (ys ++ y ∷ zs) (length ys) ≡ ys ++ zs
unfolding erase_idx
erase_idx-middle [] y zs = refl
erase_idx-middle (x ∷ ys) y zs = ap (x ∷◌) (erase_idx-middle ys y zs)
