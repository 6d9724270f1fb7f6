-- ===== src/Net/Firewall/Applies.antt =====
-- When a rule of crates/zenus-net/src/firewall.rs applies to a packet, said without the tests that
-- `firewall_check` makes.
use zenus.Base.{
  ◌≡◌, ◌≢◌, ◌⊎◌, true, false, not, ◌&&◌, ◌||◌, none, some, [], ◌∷◌, arith, refl, ap, inl, inr,
  Bool-cases,
}
use Prim.Native.Nat.{bit_and}
use zenus.Net.Route.{Ipv4}
use zenus.Net.Route.Longest.{same_ip-path}
use zenus.Net.Firewall.{
  Conns, ConnState, ConnTrack, FirewallProto, FirewallRule, PacketInfo, any, applies,
  established_conn, find_conn, found_established, icmp, is_open, masked_eq, new_conn, port_ok,
  proto_code, related_conn, same_flow, same_proto, tcp, udp,
}

-- Two addresses agree on the bits of a mask, octet by octet.
pub record Agree (x y m : Ipv4) : Type 0 where
  pub a : bit_and x.a m.a ≡ bit_and y.a m.a
  pub b : bit_and x.b m.b ≡ bit_and y.b m.b
  pub c : bit_and x.c m.c ≡ bit_and y.c m.c
  pub d : bit_and x.d m.d ≡ bit_and y.d m.d

-- The connection is one of the packet.
pub record SameFlow (c : ConnTrack) (p : PacketInfo) : Type 0 where
  pub src_ip : c.src_ip ≡ p.src_ip
  pub dst_ip : c.dst_ip ≡ p.dst_ip
  pub src_port : c.src_port ≡ p.src_port
  pub dst_port : c.dst_port ≡ p.dst_port
  pub proto : c.proto ≡ p.proto

-- The first connection of the packet in the table is past its first packet.
pub data Established (p : PacketInfo) : Conns → Type 0 where
  free : {cs : Conns} → Established p cs → Established p (none ∷ cs)
  here :
      {c : ConnTrack} {cs : Conns} → SameFlow c p → c.state ≢ new_conn → Established p (some c ∷ cs)
  there :
      {c : ConnTrack} {cs : Conns} → ¬ SameFlow c p → Established p cs → Established p (some c ∷ cs)

-- A port of 0 is a wildcard, and only TCP and UDP packets have ports to compare.
abbrev pub PortsFit : FirewallRule → PacketInfo → Type 0
PortsFit r p =
    ((p.proto ≢ tcp) × (p.proto ≢ udp))
    ⊎ (((r.src_port ≡ 0) ⊎ (r.src_port ≡ p.src_port))
        × ((r.dst_port ≡ 0) ⊎ (r.dst_port ≡ p.dst_port)))

-- What the rule asks of the packet and of the connections.
pub record Applies (p : PacketInfo) (cs : Conns) (r : FirewallRule) : Type 0 where
  pub enabled : r.enabled ≡ true
  pub proto : (r.proto ≡ any) ⊎ (r.proto ≡ p.proto)
  pub src : Agree p.src_ip r.src_ip r.src_mask
  pub dst : Agree p.dst_ip r.dst_ip r.dst_mask
  pub ports : PortsFit r p
  pub established : (r.established ≡ false) ⊎ Established p cs

proto_code-eq : (p q : FirewallProto) → proto_code p ≡ proto_code q → p ≡ q
proto_code-eq any any h = refl
proto_code-eq tcp tcp h = refl
proto_code-eq udp udp h = refl
proto_code-eq icmp icmp h = refl
proto_code-eq any tcp h = absurd (omega (arith, h))
proto_code-eq any udp h = absurd (omega (arith, h))
proto_code-eq any icmp h = absurd (omega (arith, h))
proto_code-eq tcp any h = absurd (omega (arith, h))
proto_code-eq tcp udp h = absurd (omega (arith, h))
proto_code-eq tcp icmp h = absurd (omega (arith, h))
proto_code-eq udp any h = absurd (omega (arith, h))
proto_code-eq udp tcp h = absurd (omega (arith, h))
proto_code-eq udp icmp h = absurd (omega (arith, h))
proto_code-eq icmp any h = absurd (omega (arith, h))
proto_code-eq icmp tcp h = absurd (omega (arith, h))
proto_code-eq icmp udp h = absurd (omega (arith, h))

same_proto-eq : (p q : FirewallProto) → same_proto p q ≡ true → p ≡ q
same_proto-eq p q h = proto_code-eq p q (ground (arith, h))

same_proto_ne : (p q : FirewallProto) → same_proto p q ≡ false → p ≢ q
same_proto_ne p q h e = absurd (ground (arith, ap proto_code e))

masked_eq-Agree : (x y m : Ipv4) → masked_eq x y m ≡ true → Agree x y m
masked_eq-Agree x y m h = record {
  a = ground arith;
  b = ground arith;
  c = ground arith;
  d = ground arith;
}

Agree-masked_eq : (x y m : Ipv4) → Agree x y m → masked_eq x y m ≡ true
Agree-masked_eq x y m g = ground (arith, g.a, g.b, g.c, g.d)

same_flow-SameFlow : (c : ConnTrack) (p : PacketInfo) → same_flow c p ≡ true → SameFlow c p
same_flow-SameFlow c p h = record {
  src_ip = same_ip-path c.src_ip p.src_ip (ground (arith, h));
  dst_ip = same_ip-path c.dst_ip p.dst_ip (ground (arith, h));
  src_port = ground (arith, h);
  dst_port = ground (arith, h);
  proto = same_proto-eq c.proto p.proto (ground (arith, h));
}

SameFlow-same_flow : (c : ConnTrack) (p : PacketInfo) → SameFlow c p → same_flow c p ≡ true
SameFlow-same_flow c p f = ground (
  arith,
  ap (λ i. i.a) f.src_ip,
  ap (λ i. i.b) f.src_ip,
  ap (λ i. i.c) f.src_ip,
  ap (λ i. i.d) f.src_ip,
  ap (λ i. i.a) f.dst_ip,
  ap (λ i. i.b) f.dst_ip,
  ap (λ i. i.c) f.dst_ip,
  ap (λ i. i.d) f.dst_ip,
  f.src_port,
  f.dst_port,
  ap proto_code f.proto,
)

is_open_new : (s : ConnState) → is_open s ≡ true → s ≢ new_conn
is_open_new s h e = absurd (ground (arith, ap is_open e))

new-is_open : (s : ConnState) → is_open s ≡ false → s ≡ new_conn
new-is_open new_conn h = refl
new-is_open established_conn h = absurd (ground arith)
new-is_open related_conn h = absurd (ground arith)

-- What `found_established` computes.
found_established-Established :
    (p : PacketInfo) (cs : Conns) → found_established cs p ≡ true → Established p cs
unfolding found_established find_conn
found_established-Established p [] h = absurd (ground arith)
found_established-Established p (none ∷ cs) h = free (found_established-Established p cs h)
found_established-Established p (some c ∷ cs) h = elim (Bool-cases (same_flow c p)) [
  | inl e ↦ here (same_flow-SameFlow c p e) (is_open_new c.state (ground (arith, h)))
  | inr e ↦
      there (λ f. absurd (ground (arith, SameFlow-same_flow c p f)))
        (found_established-Established p cs (ground (arith, h)))
]

Established-found_established :
    (p : PacketInfo) (cs : Conns) → Established p cs → found_established cs p ≡ true
unfolding found_established find_conn
Established-found_established p [] e = elim e [ ]
Established-found_established p (none ∷ cs) (free e) = Established-found_established p cs e
Established-found_established p (some c ∷ cs) (here f n) = elim (Bool-cases (is_open c.state)) [
  | inl o ↦ ground (arith, SameFlow-same_flow c p f)
  | inr o ↦ absurd (n (new-is_open c.state o))
]
Established-found_established p (some c ∷ cs) (there n e) = elim (Bool-cases (same_flow c p)) [
  | inl s ↦ absurd (n (same_flow-SameFlow c p s))
  | inr s ↦ ground (arith, Established-found_established p cs e)
]

ports-PortsFit :
    (r : FirewallRule) (p : PacketInfo)
    → (not (same_proto p.proto tcp || same_proto p.proto udp)
        || (port_ok r.src_port p.src_port && port_ok r.dst_port p.dst_port))
      ≡ true
    → PortsFit r p
ports-PortsFit r p h = elim (Bool-cases (same_proto p.proto tcp || same_proto p.proto udp)) [
  | inl e ↦ inr (ground (arith, h, e), ground (arith, h, e))
  | inr e ↦
      inl (
        same_proto_ne p.proto tcp (ground (arith, e)),
        same_proto_ne p.proto udp (ground (arith, e)),
      )
]

PortsFit-ports :
    (r : FirewallRule) (p : PacketInfo)
    → PortsFit r p
    → (not (same_proto p.proto tcp || same_proto p.proto udp)
        || (port_ok r.src_port p.src_port && port_ok r.dst_port p.dst_port))
      ≡ true
PortsFit-ports r p (inl (a, b)) =
    let x : same_proto p.proto tcp ≡ false = elim (Bool-cases (same_proto p.proto tcp)) [
      | inl e ↦ absurd (a (same_proto-eq p.proto tcp e))
      | inr e ↦ e
    ] in
    let y : same_proto p.proto udp ≡ false = elim (Bool-cases (same_proto p.proto udp)) [
      | inl e ↦ absurd (b (same_proto-eq p.proto udp e))
      | inr e ↦ e
    ] in
    rw (x, y) refl
PortsFit-ports r p (inr (a, b)) = ground (arith, a, b)

pub applies-Applies :
    (p : PacketInfo) (cs : Conns) (r : FirewallRule)
    → applies p (found_established cs p) r ≡ true
    → Applies p cs r
unfolding applies
applies-Applies p cs r h =
    let e : (r.established ≡ false) ⊎ (found_established cs p ≡ true) = ground (arith, h) in
    let q : (same_proto r.proto any ≡ true) ⊎ (same_proto r.proto p.proto ≡ true) =
      ground (arith, h) in
    record {
      enabled = ground (arith, h);
      proto = elim q [
        | inl a ↦ inl (same_proto-eq r.proto any a)
        | inr a ↦ inr (same_proto-eq r.proto p.proto a)
      ];
      src = masked_eq-Agree p.src_ip r.src_ip r.src_mask (ground (arith, h));
      dst = masked_eq-Agree p.dst_ip r.dst_ip r.dst_mask (ground (arith, h));
      ports = ports-PortsFit r p (ground (arith, h));
      established = elim e [ inl a ↦ inl a | inr a ↦ inr (found_established-Established p cs a) ];
    }

pub Applies-applies :
    (p : PacketInfo) (cs : Conns) (r : FirewallRule)
    → Applies p cs r
    → applies p (found_established cs p) r ≡ true
unfolding applies
Applies-applies p cs r a =
    let e : (r.established ≡ false) ⊎ (found_established cs p ≡ true) = elim a.established [
      | inl x ↦ inl x
      | inr x ↦ inr (Established-found_established p cs x)
    ] in
    let q : (same_proto r.proto any || same_proto r.proto p.proto) ≡ true = elim a.proto [
      | inl x ↦ ground (arith, ap proto_code x)
      | inr x ↦ ground (arith, ap proto_code x)
    ] in
    ground (
      arith,
      e,
      q,
      a.enabled,
      Agree-masked_eq p.src_ip r.src_ip r.src_mask a.src,
      Agree-masked_eq p.dst_ip r.dst_ip r.dst_mask a.dst,
      PortsFit-ports r p a.ports,
    )
