-- ===== src/Net/Firewall.antt =====
-- The packet filter, crates/zenus-net/src/firewall.rs: rules that are tried in order, and a table of
-- connections. A rule's name is a list of bytes; the tick counter is an argument.
pub mod Applies
pub mod Check
pub mod Track
mod Tests
use zenus.Base.{
  ℕ, zero, suc, ◌+◌, ◌-◌, ◌%◌, ◌^◌, ◌==◌, ltb, leb, if◌then◌else◌, Bool, true, false, not, ◌&&◌,
  ◌||◌, Option, none, some, List, [], ◌∷◌, get_or, set, replicate, add64, sub64,
}
use Prim.Native.Nat.{bit_and}
use zenus.Net.Route.{Ipv4, same_ip}

pub data FirewallAction : Type 0 where
  accept : FirewallAction
  drop : FirewallAction
  reject : FirewallAction

pub data FirewallProto : Type 0 where
  any : FirewallProto
  tcp : FirewallProto
  udp : FirewallProto
  icmp : FirewallProto

abbrev pub proto_code : FirewallProto → ℕ
proto_code any = 0
proto_code tcp = 1
proto_code udp = 2
proto_code icmp = 3

-- The derived `PartialEq`.
abbrev pub same_proto : FirewallProto → FirewallProto → Bool
same_proto p q = proto_code p == proto_code q

abbrev pub max_rules : ℕ
max_rules = 32

abbrev pub max_conntrack : ℕ
max_conntrack = 64

pub record FirewallRule : Type 0 where
  pub name : List ℕ
  pub enabled : Bool
  pub action : FirewallAction
  pub proto : FirewallProto
  pub src_ip : Ipv4
  pub src_mask : Ipv4
  pub dst_ip : Ipv4
  pub dst_mask : Ipv4
  pub src_port : ℕ
  pub dst_port : ℕ
  pub established : Bool
  pub packets_matched : ℕ

pub data ConnState : Type 0 where
  new_conn : ConnState
  established_conn : ConnState
  related_conn : ConnState

pub record ConnTrack : Type 0 where
  pub src_ip : Ipv4
  pub dst_ip : Ipv4
  pub src_port : ℕ
  pub dst_port : ℕ
  pub proto : FirewallProto
  pub state : ConnState
  pub last_seen : ℕ

pub record PacketInfo : Type 0 where
  pub src_ip : Ipv4
  pub dst_ip : Ipv4
  pub src_port : ℕ
  pub dst_port : ℕ
  pub proto : FirewallProto

abbrev pub Rules : Type 0
Rules = List (Option FirewallRule)

abbrev pub Conns : Type 0
Conns = List (Option ConnTrack)

pub record FirewallState : Type 0 where
  pub rules : Rules
  pub conns : Conns

pub firewall_init : FirewallState
firewall_init = record { rules = replicate max_rules none; conns = replicate max_conntrack none }

pub place_rule : Rules → FirewallRule → Bool × Rules
place_rule [] r = (false, [])
place_rule (none ∷ rs) r = (true, some r ∷ rs)
place_rule (some x ∷ rs) r = let (done, rs') = place_rule rs r in (done, some x ∷ rs')

pub firewall_add_rule : FirewallState → FirewallRule → Bool × FirewallState
unfolding place_rule
firewall_add_rule fw rule =
    let (done, rs) = place_rule fw.rules rule in (done, record fw { rules = rs })

pub firewall_remove_rule : FirewallState → ℕ → Bool × FirewallState
firewall_remove_rule fw index =
    if leb max_rules index then (false, fw) else elim (get_or fw.rules index none) [
      | none ↦ (false, fw)
      | some r ↦ (true, record fw { rules = set fw.rules index none })
    ]

-- What a packet and a connection are compared by.
abbrev pub same_flow : ConnTrack → PacketInfo → Bool
same_flow c p =
    same_ip c.src_ip p.src_ip
    && same_ip c.dst_ip p.dst_ip
    && c.src_port == p.src_port
    && c.dst_port == p.dst_port
    && same_proto c.proto p.proto

-- The first loop of `firewall_check` stops at the first connection of the packet.
pub find_conn : Conns → PacketInfo → Option ConnTrack
find_conn [] p = none
find_conn (none ∷ cs) p = find_conn cs p
find_conn (some c ∷ cs) p = let rest = find_conn cs p in if same_flow c p then some c else rest

abbrev pub is_open : ConnState → Bool
is_open new_conn = false
is_open established_conn = true
is_open related_conn = true

pub found_established : Conns → PacketInfo → Bool
unfolding find_conn
found_established cs p = elim (find_conn cs p) [ none ↦ false | some c ↦ is_open c.state ]

abbrev pub masked_eq : Ipv4 → Ipv4 → Ipv4 → Bool
masked_eq x y m =
    bit_and x.a m.a == bit_and y.a m.a
    && bit_and x.b m.b == bit_and y.b m.b
    && bit_and x.c m.c == bit_and y.c m.c
    && bit_and x.d m.d == bit_and y.d m.d

abbrev pub port_ok : ℕ → ℕ → Bool
port_ok want port = want == 0 || want == port

-- The `continue`s of the second loop, in their order.
pub applies : PacketInfo → Bool → FirewallRule → Bool
applies p est r =
    r.enabled
    && (same_proto r.proto any || same_proto r.proto p.proto)
    && masked_eq p.src_ip r.src_ip r.src_mask
    && masked_eq p.dst_ip r.dst_ip r.dst_mask
    && (not (same_proto p.proto tcp || same_proto p.proto udp)
        || (port_ok r.src_port p.src_port && port_ok r.dst_port p.dst_port))
    && (not r.established || est)

abbrev pub counted : FirewallRule → FirewallRule
counted r = record r { packets_matched = add64 r.packets_matched 1 }

pub check_rules : PacketInfo → Bool → Rules → FirewallAction × Rules
check_rules p est [] = (accept, [])
check_rules p est (none ∷ rs) = let (a, rs') = check_rules p est rs in (a, none ∷ rs')
check_rules p est (some r ∷ rs) =
    let (a, rs') = check_rules p est rs in
    if applies p est r then (r.action, some (counted r) ∷ rs) else (a, some r ∷ rs')

pub firewall_check : FirewallState → PacketInfo → FirewallAction × FirewallState
unfolding check_rules
firewall_check fw p =
    let (a, rs) = check_rules p (found_established fw.conns p) fw.rules in
    (a, record fw { rules = rs })

abbrev pub flow_of : ConnTrack → PacketInfo
flow_of c = record {
  src_ip = c.src_ip;
  dst_ip = c.dst_ip;
  src_port = c.src_port;
  dst_port = c.dst_port;
  proto = c.proto;
}

-- The first loop of `firewall_track_connection`: whether it returned, and the table.
pub refresh_conn : Conns → ConnTrack → Bool × Conns
refresh_conn [] x = (false, [])
refresh_conn (none ∷ cs) x = let (done, cs') = refresh_conn cs x in (done, none ∷ cs')
refresh_conn (some c ∷ cs) x =
    let (done, cs') = refresh_conn cs x in
    if same_flow c (flow_of x)
    then (true, some (record c { state = x.state; last_seen = x.last_seen }) ∷ cs)
    else (done, some c ∷ cs')

-- The second.
pub place_conn : Conns → ConnTrack → Conns
place_conn [] x = []
place_conn (none ∷ cs) x = some x ∷ cs
place_conn (some c ∷ cs) x = some c ∷ place_conn cs x

pub track : Conns → ConnTrack → Conns
unfolding refresh_conn place_conn
track cs x = let (done, cs') = refresh_conn cs x in if done then cs' else place_conn cs x

pub firewall_track_connection : FirewallState → ConnTrack → FirewallState
unfolding track
firewall_track_connection fw x = record fw { conns = track fw.conns x }

pub expire : ℕ → Conns → Conns
expire ticks [] = []
expire ticks (none ∷ cs) = none ∷ expire ticks cs
expire ticks (some c ∷ cs) =
    (if ltb 300 (sub64 ticks c.last_seen) then none else some c) ∷ expire ticks cs

pub firewall_clear_connections : FirewallState → ℕ → FirewallState
unfolding expire
firewall_clear_connections fw ticks = record fw { conns = expire ticks fw.conns }
