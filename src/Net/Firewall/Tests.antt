-- ===== src/Net/Firewall/Tests.antt =====
-- Runs of the packet filter, and the theorems about it at a concrete state.
use zenus.Base.{ℕ, ◌≡◌, [], refl, true, false}
use zenus.Net.Route.{Ipv4}
use zenus.Net.Firewall.{
  ConnTrack, FirewallRule, FirewallState, PacketInfo, accept, applies, check_rules, drop,
  established_conn, expire, find_conn, firewall_add_rule, firewall_check,
  firewall_clear_connections, firewall_init, firewall_remove_rule, firewall_track_connection,
  flow_of, found_established, place_conn, place_rule, refresh_conn, same_flow, tcp, track, udp,
}
use zenus.Net.Firewall.Check.{Decided, firewall_check-Decided}
use zenus.Net.Firewall.Track.{Tracked, firewall_track_connection-Tracked}

abbrev ip : ℕ → ℕ → ℕ → ℕ → Ipv4
ip a b c d = record { a = a; b = b; c = c; d = d }

-- Drop what goes to TCP port 23.
abbrev no_telnet : FirewallRule
no_telnet = record {
  name = [];
  enabled = true;
  action = drop;
  proto = tcp;
  src_ip = ip 0 0 0 0;
  src_mask = ip 0 0 0 0;
  dst_ip = ip 0 0 0 0;
  dst_mask = ip 0 0 0 0;
  src_port = 0;
  dst_port = 23;
  established = false;
  packets_matched = 0;
}

abbrev telnet : ConnTrack
telnet = record {
  src_ip = ip 10 0 2 2;
  dst_ip = ip 10 0 2 15;
  src_port = 4000;
  dst_port = 23;
  proto = tcp;
  state = established_conn;
  last_seen = 100;
}

abbrev query : PacketInfo
query = record {
  src_ip = ip 10 0 2 2;
  dst_ip = ip 10 0 2 15;
  src_port = 4000;
  dst_port = 53;
  proto = udp;
}

guarded : FirewallState
unfolding firewall_add_rule place_rule firewall_init
guarded = (firewall_add_rule firewall_init no_telnet).1

dropped : (firewall_check guarded (flow_of telnet)).0 ≡ drop
unfolding firewall_check check_rules applies found_established find_conn guarded firewall_add_rule
    place_rule firewall_init
dropped = refl

passed : (firewall_check guarded query).0 ≡ accept
unfolding firewall_check check_rules applies found_established find_conn guarded firewall_add_rule
    place_rule firewall_init
passed = refl

removed : (firewall_remove_rule guarded 0).0 ≡ true
unfolding firewall_remove_rule guarded firewall_add_rule place_rule firewall_init
removed = refl

seen : found_established (firewall_track_connection guarded telnet).conns (flow_of telnet) ≡ true
unfolding firewall_track_connection track refresh_conn place_conn found_established find_conn
    guarded firewall_add_rule place_rule firewall_init
seen = refl

expired :
    found_established
      (firewall_clear_connections (firewall_track_connection guarded telnet) 401).conns
      (flow_of telnet)
    ≡ false
unfolding firewall_clear_connections expire firewall_track_connection track refresh_conn place_conn
    found_established find_conn guarded firewall_add_rule place_rule firewall_init
expired = refl

firewall_check-Decided_example :
    let (a, fw') = firewall_check guarded query in
    Decided query guarded.conns guarded.rules (a, fw'.rules) × (fw'.conns ≡ guarded.conns)
firewall_check-Decided_example = firewall_check-Decided guarded query

firewall_track_connection-Tracked_example :
    Tracked guarded.conns telnet (firewall_track_connection guarded telnet).conns
firewall_track_connection-Tracked_example = firewall_track_connection-Tracked guarded telnet

other_flow : same_flow telnet query ≡ false
other_flow = refl
