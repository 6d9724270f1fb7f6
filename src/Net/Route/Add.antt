-- ===== src/Net/Route/Add.antt =====
-- `add` of crates/zenus-net/src/route.rs.
use zenus.Base.{
  ℕ, suc, ◌≡◌, ◌<◌, Bool, true, false, Option, none, some, [], ◌∷◌, length, get_or, set, take, All,
  arith, refl,
}
use zenus.Net.Route.{Route, Table, add_route}

abbrev pub Taken : Option Route → Type 0
Taken none = ⊥
Taken (some r) = Unit

-- A full table refuses the route; else it goes into the first free slot.
pub data Added (ts : Table) (r : Route) : Bool × Table → Type 0 where
  full : All Taken ts → Added ts r (false, ts)
  placed :
      (k : ℕ)
      → k < length ts
      → get_or ts k none ≡ none
      → All Taken (take k ts)
      → Added ts r (true, set ts k (some r))

Added-cons :
    (x r : Route) (ts : Table) (out : Bool × Table)
    → Added ts r out
    → Added (some x ∷ ts) r (out.0, some x ∷ out.1)
Added-cons x r ts out (full a) = full (tt, a)
Added-cons x r ts out (placed k i f a) = placed (suc k) (omega arith) f (tt, a)

-- `add` of a route puts it into the first free slot and changes no other, and on a full table
-- reports the failure and changes nothing.
pub add_route-Added : (ts : Table) (r : Route) → Added ts r (add_route ts r)
unfolding add_route
add_route-Added [] r = full tt
add_route-Added (none ∷ ts) r = placed 0 (omega arith) refl tt
add_route-Added (some x ∷ ts) r = Added-cons x r ts (add_route ts r) (add_route-Added ts r)
