-- ===== src/Net/Route/Longest.antt =====
-- `lookup` of crates/zenus-net/src/route.rs picks the longest prefix.
use zenus.Base.{
  ℕ, ◌≡◌, ◌≤◌, ◌<◌, true, Option, none, some, length, get_or, take, All, All-map, arith, refl, inl,
  inr, Bool-cases, ap, ◌+◌, ◌%◌, ◌/◌, ◌≢◌,
}
use Prim.Native.Nat.{bit_and}
use zenus.Net.Route.{
  Ipv4, Route, GatewayAction, Table, action, matches, prefix_len, lookup, direct, via, zero_ip,
  same_ip, ip_masked, count_ones,
}
use zenus.Net.Route.Scan.{Longest, Shorter, Unmatched, Within, scan-Scanned}

-- How a route sends a packet on: straight to the host, or by a gateway that is not 0.0.0.0.
pub data Forwards (r : Route) : GatewayAction → Type 0 where
  straight : r.gateway ≡ zero_ip → Forwards r direct
  by_gateway : r.gateway ≢ zero_ip → Forwards r (via r.gateway)

pub same_ip-path : (x y : Ipv4) → same_ip x y ≡ true → x ≡ y
same_ip-path x y h =
    let a : x.a ≡ y.a = ground (arith, h) in
    let b : x.b ≡ y.b = ground (arith, h) in
    let c : x.c ≡ y.c = ground (arith, h) in
    let d : x.d ≡ y.d = ground (arith, h) in λ i. record { a = a i; b = b i; c = c i; d = d i }

action-Forwards : (r : Route) → Forwards r (action r)
action-Forwards r = elim (Bool-cases (same_ip r.gateway zero_ip)) [
  | inl e ↦ rw e (straight (same_ip-path r.gateway zero_ip e))
  | inr e ↦ rw e (
      by_gateway (λ q.
        absurd
          (ground (arith, e, ap (λ i. i.a) q, ap (λ i. i.b) q, ap (λ i. i.c) q, ap (λ i. i.d) q))))
]

-- The destination, on the bits of the mask, is the route's network, octet by octet.
pub record Reaches (ip : Ipv4) (r : Route) : Type 0 where
  pub a : bit_and ip.a r.mask.a ≡ r.dest.a
  pub b : bit_and ip.b r.mask.b ≡ r.dest.b
  pub c : bit_and ip.c r.mask.c ≡ r.dest.c
  pub d : bit_and ip.d r.mask.d ≡ r.dest.d

matches-Reaches : (ip : Ipv4) (r : Route) → matches ip r ≡ true → Reaches ip r
unfolding ip_masked
matches-Reaches ip r h = record {
  a = ground arith;
  b = ground arith;
  c = ground arith;
  d = ground arith;
}

Reaches-matches : (ip : Ipv4) (r : Route) → Reaches ip r → matches ip r ≡ true
unfolding ip_masked
Reaches-matches ip r g = ground (arith, g.a, g.b, g.c, g.d)

-- The number of bits of an octet that are set, bit by bit.
abbrev pub octet_bits : ℕ → ℕ
octet_bits x =
    x % 2 + x / 2 % 2 + x / 4 % 2 + x / 8 % 2 + x / 16 % 2 + x / 32 % 2 + x / 64 % 2 + x / 128 % 2

abbrev pub mask_bits : Ipv4 → ℕ
mask_bits m = octet_bits m.a + octet_bits m.b + octet_bits m.c + octet_bits m.d

count_ones_octet : (x : ℕ) → count_ones 8 x ≡ octet_bits x
unfolding count_ones
count_ones_octet x = omega arith

prefix_len_bits : (m : Ipv4) → prefix_len m ≡ mask_bits m
unfolding prefix_len
prefix_len_bits m =
    rw (count_ones_octet m.a, count_ones_octet m.b, count_ones_octet m.c, count_ones_octet m.d) refl

-- The slot is free, or its route does not lead there, or has at most `m` bits in its mask.
abbrev pub AtMost : Ipv4 → ℕ → Option Route → Type 0
AtMost ip m none = Unit
AtMost ip m (some r) = Reaches ip r → mask_bits r.mask ≤ m

-- The same with fewer bits.
abbrev pub Fewer : Ipv4 → ℕ → Option Route → Type 0
Fewer ip m none = Unit
Fewer ip m (some r) = Reaches ip r → mask_bits r.mask < m

abbrev pub Unreached : Ipv4 → Option Route → Type 0
Unreached ip none = Unit
Unreached ip (some r) = ¬ Reaches ip r

-- Slot `k` has route `r`, which leads there; no route that does has more bits in its mask, and none
-- before it as many.
pub record Leads (ip : Ipv4) (ts : Table) (k : ℕ) (r : Route) : Type 0 where
  pub inside : k < length ts
  pub at : get_or ts k none ≡ some r
  pub reaches : Reaches ip r
  pub most : All (AtMost ip (mask_bits r.mask)) ts
  pub first : All (Fewer ip (mask_bits r.mask)) (take k ts)

Within-AtMost :
    (ip : Ipv4) (m : Ipv4) (slot : Option Route)
    → Within ip (prefix_len m) slot
    → AtMost ip (mask_bits m) slot
Within-AtMost ip m none w = tt
Within-AtMost ip m (some r) w =
    λ h. omega (arith, w (Reaches-matches ip r h), prefix_len_bits m, prefix_len_bits r.mask)

Shorter-Fewer :
    (ip : Ipv4) (m : Ipv4) (slot : Option Route)
    → Shorter ip (prefix_len m) slot
    → Fewer ip (mask_bits m) slot
Shorter-Fewer ip m none w = tt
Shorter-Fewer ip m (some r) w =
    λ h. omega (arith, w (Reaches-matches ip r h), prefix_len_bits m, prefix_len_bits r.mask)

Unmatched-Unreached : (ip : Ipv4) (slot : Option Route) → Unmatched ip slot → Unreached ip slot
Unmatched-Unreached ip none u = tt
Unmatched-Unreached ip (some r) u = λ h. absurd (ground (arith, u, Reaches-matches ip r h))

Longest-Leads : (ip : Ipv4) (ts : Table) (k : ℕ) (r : Route) → Longest ip ts k r → Leads ip ts k r
Longest-Leads ip ts k r l = record {
  inside = l.inside;
  at = l.at;
  reaches = matches-Reaches ip r l.fits;
  most =
      All-map (Within ip (prefix_len r.mask)) (AtMost ip (mask_bits r.mask)) ts
        (Within-AtMost ip r.mask) l.most;
  first =
      All-map (Shorter ip (prefix_len r.mask)) (Fewer ip (mask_bits r.mask)) (take k ts)
        (Shorter-Fewer ip r.mask) l.first;
}

-- What `lookup` returns, `none` for `None`.
pub data Routed (ip : Ipv4) (ts : Table) : Option (GatewayAction × ℕ) → Type 0 where
  unreachable : All (Unreached ip) ts → Routed ip ts none
  routed :
      (k : ℕ) (r : Route) (act : GatewayAction)
      → Leads ip ts k r
      → Forwards r act
      → Routed ip ts (some (act, r.iface))

-- `lookup` finds nothing only if no route leads to the address. Else it takes the first of the
-- routes with the most bits in their masks among those whose network is the address on the bits of
-- the mask, and returns its interface, and its gateway, or that there is none to use if it is
-- 0.0.0.0.
pub lookup-Routed : (ip : Ipv4) (ts : Table) → Routed ip ts (lookup ts ip)
unfolding lookup
lookup-Routed ip ts = elim (scan-Scanned ip ts none) [
  | inl (e, a) ↦
      rw (lookup, e)
        (unreachable (All-map (Unmatched ip) (Unreached ip) ts (Unmatched-Unreached ip) a))
  | inr (k, r, c) ↦
      rw (lookup, c.is)
        (routed k r (action r) (Longest-Leads ip ts k r c.longest) (action-Forwards r))
]
