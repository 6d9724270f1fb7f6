-- ===== src/Net/Firewall/Track.antt =====
-- The connection table of crates/zenus-net/src/firewall.rs: `firewall_track_connection` and
-- `firewall_clear_connections` against the search of `firewall_check`.
use mathlib.Core.Path.{ap₂}
use zenus.Base.{
  ℕ, ◌≡◌, ◌⊎◌, ◌==◌, ◌&&◌, Bool, true, false, Option, none, some, [], ◌∷◌, All, arith, refl, sym,
  ◌∙◌, ap, inl, inr, Bool-cases, if◌then◌else◌,
}
use zenus.Net.Route.{Ipv4, same_ip}
use zenus.Net.Firewall.{
  ConnTrack, ConnState, Conns, PacketInfo, find_conn, flow_of, place_conn, refresh_conn, same_flow,
  same_proto, proto_code, track, FirewallState, firewall_track_connection,
}

abbrev pub Occupied : Option ConnTrack → Type 0
Occupied none = ⊥
Occupied (some c) = Unit

-- What the search says of a packet: the state of its connection.
abbrev pub conn_state : Conns → PacketInfo → Option ConnState
conn_state cs p = elim (find_conn cs p) [ none ↦ none | some c ↦ some c.state ]

same_flow_refl : (x : ConnTrack) → same_flow x (flow_of x) ≡ true
same_flow_refl x = ground arith

-- Both parts of a conjunction, and what equal numbers are compared with.
and_parts : (a b : Bool) → (a && b) ≡ true → (a ≡ true) × (b ≡ true)
and_parts a b h = (ground arith, ground arith)

eq_swap : (a b m : ℕ) → (a == b) ≡ true → (b == m) ≡ (a == m)
eq_swap a b m h = ground arith

same_ip_swap : (a b m : Ipv4) → same_ip a b ≡ true → same_ip b m ≡ same_ip a m
same_ip_swap a b m h =
    let h1 = and_parts (a.a == b.a && a.b == b.b && a.c == b.c) (a.d == b.d) h in
    let h2 = and_parts (a.a == b.a && a.b == b.b) (a.c == b.c) h1.0 in
    let h3 = and_parts (a.a == b.a) (a.b == b.b) h2.0 in
    rw (
      eq_swap a.a b.a m.a h3.0,
      eq_swap a.b b.b m.b h3.1,
      eq_swap a.c b.c m.c h2.1,
      eq_swap a.d b.d m.d h1.1,
    )

-- A connection of the same flow as another has the same packets.
same_flow_trans :
    (c x : ConnTrack) (p : PacketInfo)
    → same_flow c (flow_of x) ≡ true
    → same_flow x p ≡ same_flow c p
same_flow_trans c x p h =
    let h1 = and_parts _ (same_proto c.proto x.proto) h in
    let h2 = and_parts _ (c.dst_port == x.dst_port) h1.0 in
    let h3 = and_parts _ (c.src_port == x.src_port) h2.0 in
    let h4 = and_parts (same_ip c.src_ip x.src_ip) (same_ip c.dst_ip x.dst_ip) h3.0 in
    ap₂ (λ u v. u && v)
      (ap₂ (λ u v. u && v)
        (ap₂ (λ u v. u && v)
          (ap₂ (λ u v. u && v) (same_ip_swap c.src_ip x.src_ip p.src_ip h4.0)
            (same_ip_swap c.dst_ip x.dst_ip p.dst_ip h4.1))
          (eq_swap c.src_port x.src_port p.src_port h3.1))
        (eq_swap c.dst_port x.dst_port p.dst_port h2.1))
      (eq_swap (proto_code c.proto) (proto_code x.proto) (proto_code p.proto) h1.1)

find_conn-refresh :
    (cs : Conns) (x : ConnTrack)
    → (refresh_conn cs x).0 ≡ true
    → conn_state (refresh_conn cs x).1 (flow_of x) ≡ some x.state
unfolding find_conn refresh_conn
find_conn-refresh [] x h = cc
find_conn-refresh (none ∷ cs) x h = find_conn-refresh cs x h
find_conn-refresh (some c ∷ cs) x h = elim (Bool-cases (same_flow c (flow_of x))) [
  | inl e ↦ rw e (rw (conn_state, e) refl)
  | inr e ↦
      let k : (refresh_conn cs x).0 ≡ true = sym (rw e) ∙ h in
      rw e (rw (conn_state, e) (find_conn-refresh cs x k))
]

refresh_conn_other :
    (cs : Conns) (x : ConnTrack) (p : PacketInfo)
    → same_flow x p ≡ false
    → find_conn (refresh_conn cs x).1 p ≡ find_conn cs p
unfolding find_conn refresh_conn
refresh_conn_other [] x p n = refl
refresh_conn_other (none ∷ cs) x p n = refresh_conn_other cs x p n
refresh_conn_other (some c ∷ cs) x p n = elim (Bool-cases (same_flow c (flow_of x))) [
  | inl e ↦ let f = sym (same_flow_trans c x p e) ∙ n in rw e (rw f refl)
  | inr e ↦ rw e (ap (λ r. if same_flow c p then some c else r) (refresh_conn_other cs x p n))
]

place_conn_other :
    (cs : Conns) (x : ConnTrack) (p : PacketInfo)
    → same_flow x p ≡ false
    → find_conn (place_conn cs x) p ≡ find_conn cs p
unfolding find_conn place_conn
place_conn_other [] x p n = refl
place_conn_other (none ∷ cs) x p n = rw n refl
place_conn_other (some c ∷ cs) x p n =
    ap (λ r. if same_flow c p then some c else r) (place_conn_other cs x p n)

-- The connection that was given is found with its state, or there was no slot for it.
abbrev pub Tracked : Conns → ConnTrack → Conns → Type 0
Tracked cs x out =
    (conn_state out (flow_of x) ≡ some x.state)
    ⊎ ((out ≡ cs) × (find_conn cs (flow_of x) ≡ none) × All Occupied cs)

refresh_conn_missed :
    (cs : Conns) (x : ConnTrack) → (refresh_conn cs x).0 ≡ false → find_conn cs (flow_of x) ≡ none
unfolding find_conn refresh_conn
refresh_conn_missed [] x h = refl
refresh_conn_missed (none ∷ cs) x h = refresh_conn_missed cs x h
refresh_conn_missed (some c ∷ cs) x h = elim (Bool-cases (same_flow c (flow_of x))) [
  | inl e ↦ absurd (ground (arith, e))
  | inr e ↦
      let k : (refresh_conn cs x).0 ≡ false = sym (rw e refl) ∙ h in
      rw e (refresh_conn_missed cs x k)
]

place_conn-Tracked :
    (cs : Conns) (x : ConnTrack) → find_conn cs (flow_of x) ≡ none → Tracked cs x (place_conn cs x)
unfolding find_conn place_conn
place_conn-Tracked [] x h = inr (refl, refl, tt)
place_conn-Tracked (none ∷ cs) x h = inl (rw (conn_state, same_flow_refl x) refl)
place_conn-Tracked (some c ∷ cs) x h = elim (Bool-cases (same_flow c (flow_of x))) [
  | inl e ↦ absurd (ground (arith, e))
  | inr e ↦
      let k : find_conn cs (flow_of x) ≡ none = sym (rw e refl) ∙ h in
      elim (place_conn-Tracked cs x k) [
        | inl q ↦ inl (rw (conn_state, e) q)
        | inr (q, m, a) ↦ inr (ap (λ l. some c ∷ l) q, h, (tt, a))
      ]
]

-- After `firewall_track_connection` the packets of the connection find its state, unless the table
-- was full of other connections, which are then all left alone.
pub firewall_track_connection-Tracked :
    (fw : FirewallState) (x : ConnTrack) → Tracked fw.conns x (firewall_track_connection fw x).conns
unfolding firewall_track_connection track
firewall_track_connection-Tracked fw x = elim (Bool-cases (refresh_conn fw.conns x).0) [
  | inl e ↦ rw e (inl (find_conn-refresh fw.conns x e))
  | inr e ↦ rw e (place_conn-Tracked fw.conns x (refresh_conn_missed fw.conns x e))
]

-- A packet of another flow finds what it found before, and the rules stay as they are.
pub firewall_track_connection_other :
    (fw : FirewallState) (x : ConnTrack) (p : PacketInfo)
    → same_flow x p ≡ false
    → let fw' = firewall_track_connection fw x in
      (find_conn fw'.conns p ≡ find_conn fw.conns p) × (fw'.rules ≡ fw.rules)
unfolding firewall_track_connection track
firewall_track_connection_other fw x p n = elim (Bool-cases (refresh_conn fw.conns x).0) [
  | inl e ↦ rw e (refresh_conn_other fw.conns x p n, refl)
  | inr e ↦ rw e (place_conn_other fw.conns x p n, refl)
]
