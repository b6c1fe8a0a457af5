-- ===== src/Mobile.antt =====
-- hooks/use-mobile.ts of cmd/server/web/src: whether the window is narrow, by a listener on a media
-- query. Widths are whole pixels.
pub mod Laws
use http_tunnels.Prelude.{
  ℕ, ◌-◌, Bool, true, false, not, Option, none, some, List, [], ◌∷◌, ltb, leb, or_default,
  if◌then◌else◌,
}

abbrev pub mobile_breakpoint : ℕ
mobile_breakpoint = 768

-- The state of the hook, undefined before the effect has run, and whether its listener is added.
pub record Mobile : Type 0 where
  pub is_mobile : Option Bool
  pub listening : Bool

abbrev pub unmounted : Mobile
unmounted = record { is_mobile = none; listening = false }

pub data MobileEvent : Type 0 where
  mount : MobileEvent
  change : MobileEvent
  unmount : MobileEvent

-- An event at that `window.innerWidth`.
pub mobile_step : ℕ → Mobile → MobileEvent → Mobile
mobile_step width s mount = record {
  is_mobile = some (ltb width mobile_breakpoint);
  listening = true;
}
mobile_step width s change =
    if s.listening then record s { is_mobile = some (ltb width mobile_breakpoint) } else s
mobile_step width s unmount = record s { listening = false }

-- What the hook returns.
abbrev pub use_is_mobile : Mobile → Bool
use_is_mobile s = or_default s.is_mobile false

-- The query `(max-width: 767px)`.
abbrev pub matches : ℕ → Bool
matches width = leb width (mobile_breakpoint - 1)

abbrev differs : Bool → Bool → Bool
differs true b = not b
differs false b = b

-- The window gets another width: the query reports a change when it matches and did not, or did and
-- does not.
pub resize : ℕ → ℕ → Mobile → Mobile
unfolding mobile_step
resize from to s = if differs (matches from) (matches to) then mobile_step to s change else s

-- The window takes the widths one behind the other.
pub resize_all : ℕ → List ℕ → Mobile → Mobile
resize_all from [] s = s
resize_all from (to ∷ widths) s = resize_all to widths (resize from to s)

abbrev pub last_width : ℕ → List ℕ → ℕ
last_width from [] = from
last_width from (to ∷ widths) = last_width to widths
