-- ===== src/Net/Route/Tests.antt =====
-- Runs of the routing table, and the theorems about it at a concrete table.
use zenus.Base.{ℕ, ◌≡◌, some, refl}
use zenus.Net.Route.{
  Ipv4, Route, Table, direct, via, clear, add_route, add_default, add_direct, lookup, scan,
  prefix_len, ip_masked, zero_ip,
}
use zenus.Net.Route.Longest.{Routed, lookup-Routed}

abbrev ip : ℕ → ℕ → ℕ → ℕ → Ipv4
ip a b c d = record { a = a; b = b; c = c; d = d }

-- A default route by 10.0.2.2, then the network 10.0.2.0/24.
routes : Table
unfolding add_direct add_default add_route clear
routes = (add_direct (add_default clear (ip 10 0 2 2) 0).1 (ip 10 0 2 0) (ip 255 255 255 0) 1).1

on_network : lookup routes (ip 10 0 2 15) ≡ some (direct, 1)
unfolding lookup scan routes prefix_len ip_masked add_route clear add_direct add_default
on_network = refl

elsewhere : lookup routes (ip 8 8 8 8) ≡ some (via (ip 10 0 2 2), 0)
unfolding lookup scan routes prefix_len ip_masked add_route clear add_direct add_default
elsewhere = refl

lookup-Routed_example : Routed (ip 10 0 2 15) routes (lookup routes (ip 10 0 2 15))
lookup-Routed_example = lookup-Routed (ip 10 0 2 15) routes

spare_route : Route
spare_route = record { dest = zero_ip; mask = zero_ip; gateway = ip 10 0 2 3; iface = 2 }
