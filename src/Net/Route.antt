-- ===== src/Net/Route.antt =====
-- The routing table, crates/zenus-net/src/route.rs: eight slots, each free or with a route.
pub mod Scan
pub mod Longest
pub mod Add
mod Tests
use zenus.Base.{
  ℕ, zero, suc, ◌+◌, ◌/◌, ◌%◌, ◌==◌, ltb, if◌then◌else◌, Bool, true, false, ◌&&◌, Option, none,
  some, List, [], ◌∷◌, replicate,
}
use Prim.Native.Nat.{bit_and}

-- `[u8; 4]`
pub record Ipv4 : Type 0 where
  pub a : ℕ
  pub b : ℕ
  pub c : ℕ
  pub d : ℕ

pub record Route : Type 0 where
  pub dest : Ipv4
  pub mask : Ipv4
  pub gateway : Ipv4
  pub iface : ℕ

pub data GatewayAction : Type 0 where
  direct : GatewayAction
  via : Ipv4 → GatewayAction

abbrev pub max_routes : ℕ
max_routes = 8

abbrev pub zero_ip : Ipv4
zero_ip = record { a = 0; b = 0; c = 0; d = 0 }

abbrev pub Table : Type 0
Table = List (Option Route)

pub clear : Table
clear = replicate max_routes none

abbrev pub same_ip : Ipv4 → Ipv4 → Bool
same_ip x y = x.a == y.a && x.b == y.b && x.c == y.c && x.d == y.d

-- The first free slot takes the route.
pub add_route : Table → Route → Bool × Table
add_route [] r = (false, [])
add_route (none ∷ ts) r = (true, some r ∷ ts)
add_route (some x ∷ ts) r = let (done, ts') = add_route ts r in (done, some x ∷ ts')

abbrev pub add : Table → Ipv4 → Ipv4 → Ipv4 → ℕ → Bool × Table
add ts dest mask gateway iface =
    add_route ts (record { dest = dest; mask = mask; gateway = gateway; iface = iface })

pub add_default : Table → Ipv4 → ℕ → Bool × Table
add_default ts gateway iface = add ts zero_ip zero_ip gateway iface

pub add_direct : Table → Ipv4 → Ipv4 → ℕ → Bool × Table
add_direct ts network mask iface = add ts network mask zero_ip iface

-- The bits that are set among the `n` lowest.
pub count_ones : ℕ → ℕ → ℕ
count_ones zero x = 0
count_ones (suc n) x = x % 2 + count_ones n (x / 2)

pub prefix_len : Ipv4 → ℕ
unfolding count_ones
prefix_len m = count_ones 8 m.a + count_ones 8 m.b + count_ones 8 m.c + count_ones 8 m.d

pub ip_masked : Ipv4 → Ipv4 → Ipv4
ip_masked ip m = record {
  a = bit_and ip.a m.a;
  b = bit_and ip.b m.b;
  c = bit_and ip.c m.c;
  d = bit_and ip.d m.d;
}

abbrev pub action : Route → GatewayAction
action r = if same_ip r.gateway zero_ip then direct else via r.gateway

-- `best`: the action, the interface and the prefix length.
pub record Best : Type 0 where
  pub gateway : GatewayAction
  pub iface : ℕ
  pub plen : ℕ

abbrev pub best_of : Route → Best
best_of r = record { gateway = action r; iface = r.iface; plen = prefix_len r.mask }

abbrev pub matches : Ipv4 → Route → Bool
matches ip r = same_ip (ip_masked ip r.mask) r.dest

-- `best.map(|b| plen > b.2).unwrap_or(true)`
abbrev pub beats : ℕ → Option Best → Bool
beats n none = true
beats n (some b) = ltb b.plen n

pub scan : Ipv4 → Table → Option Best → Option Best
scan ip [] best = best
scan ip (none ∷ ts) best = scan ip ts best
scan ip (some r ∷ ts) best =
    scan ip ts (if matches ip r && beats (prefix_len r.mask) best then some (best_of r) else best)

pub lookup : Table → Ipv4 → Option (GatewayAction × ℕ)
unfolding scan
lookup ts ip = elim (scan ip ts none) [ none ↦ none | some b ↦ some (b.gateway, b.iface) ]
