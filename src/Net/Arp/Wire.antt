-- ===== src/Net/Arp/Wire.antt =====
-- Addresses and packets as crates/zenus-net/src/arp.rs lays them out.
use zenus.Base.{
  ℕ, ◌+◌, ◌*◌, ◌/◌, ◌%◌, ◌==◌, ltb, if◌then◌else◌, Bool, ◌&&◌, Option, none, some, List, [], ◌∷◌,
  get_or, set, replicate, length,
}

abbrev pub hardware_type_eth : ℕ
hardware_type_eth = 1

abbrev pub protocol_type_ipv4 : ℕ
protocol_type_ipv4 = 2048

abbrev pub arp_request : ℕ
arp_request = 1

abbrev pub arp_reply : ℕ
arp_reply = 2

-- `ethernet::ETH_ARP`.
abbrev pub eth_arp : ℕ
eth_arp = 2054

-- `[u8; 4]`
pub record Ip : Type 0 where
  pub a : ℕ
  pub b : ℕ
  pub c : ℕ
  pub d : ℕ

-- `[u8; 6]`
pub record Mac : Type 0 where
  pub a : ℕ
  pub b : ℕ
  pub c : ℕ
  pub d : ℕ
  pub e : ℕ
  pub f : ℕ

abbrev pub ip_bytes : Ip → List ℕ
ip_bytes x = x.a ∷ x.b ∷ x.c ∷ x.d ∷ []

abbrev pub mac_bytes : Mac → List ℕ
mac_bytes x = x.a ∷ x.b ∷ x.c ∷ x.d ∷ x.e ∷ x.f ∷ []

unfoldable pub same_ip : Ip → Ip → Bool
same_ip x y = x.a == y.a && (x.b == y.b && (x.c == y.c && x.d == y.d))

unfoldable pub same_mac : Mac → Mac → Bool
same_mac x y =
    x.a == y.a && (x.b == y.b && (x.c == y.c && (x.d == y.d && (x.e == y.e && x.f == y.f))))

-- `buf[off..].copy_from_slice(src)`
unfoldable pub put_bytes : List ℕ → ℕ → List ℕ → List ℕ
put_bytes buf off [] = buf
put_bytes buf off (x ∷ xs) = put_bytes (set buf off x) (off + 1) xs

-- `to_be_bytes` of a u16.
abbrev pub be_bytes : ℕ → List ℕ
be_bytes x = (x / 256) % 256 ∷ x % 256 ∷ []

unfoldable pub arp_packet : Mac → Ip → Mac → Ip → ℕ → List ℕ
unfolding put_bytes
arp_packet src_mac src_ip dst_mac dst_ip opcode =
    let b0 = replicate 42 0 in
    let b1 = put_bytes b0 0 (mac_bytes dst_mac) in
    let b2 = put_bytes b1 6 (mac_bytes src_mac) in
    let b3 = put_bytes b2 12 (be_bytes eth_arp) in
    let b4 = put_bytes b3 14 (be_bytes hardware_type_eth) in
    let b5 = put_bytes b4 16 (be_bytes protocol_type_ipv4) in
    let b6 = set (set b5 18 6) 19 4 in
    let b7 = put_bytes b6 20 (be_bytes opcode) in
    let b8 = put_bytes b7 22 (mac_bytes src_mac) in
    let b9 = put_bytes b8 28 (ip_bytes src_ip) in
    let b10 = put_bytes b9 32 (mac_bytes dst_mac) in put_bytes b10 38 (ip_bytes dst_ip)

unfoldable pub build_reply : Mac → Ip → Mac → Ip → List ℕ
unfolding arp_packet
build_reply our_mac our_ip requester_mac requester_ip =
    arp_packet our_mac our_ip requester_mac requester_ip arp_reply

abbrev pub byte_at : List ℕ → ℕ → ℕ
byte_at xs i = get_or xs i 0

abbrev pub be16_at : List ℕ → ℕ → ℕ
be16_at xs i = byte_at xs i * 256 + byte_at xs (i + 1)

abbrev pub ip_at : List ℕ → ℕ → Ip
ip_at xs i = record {
  a = byte_at xs i;
  b = byte_at xs (i + 1);
  c = byte_at xs (i + 2);
  d = byte_at xs (i + 3);
}

abbrev pub mac_at : List ℕ → ℕ → Mac
mac_at xs i = record {
  a = byte_at xs i;
  b = byte_at xs (i + 1);
  c = byte_at xs (i + 2);
  d = byte_at xs (i + 3);
  e = byte_at xs (i + 4);
  f = byte_at xs (i + 5);
}

abbrev pub target_address : List ℕ → Option Ip
target_address payload = if ltb (length payload) 28 then none else some (ip_at payload 24)
