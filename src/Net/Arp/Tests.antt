-- ===== src/Net/Arp/Tests.antt =====
-- The theorems on crates/zenus-net/src/arp.rs at concrete inputs.
use zenus.Base.{◌≡◌, ℕ, none, some, List, refl}
use zenus.Net.Arp.{
  ArpState, Ip, Mac, add_static, arp_insert, arp_lookup, arp_packet, arp_request, handle, ip_at,
  mac_at, new_arp, find_mac, same_ip, same_mac, is_well_formed, put_bytes, classify_insert, judged,
  learn, put_first,
}
use zenus.Net.Arp.Insert.{Safe, handle-Safe}
use zenus.Net.Arp.Packet.{payload_of}
use zenus.Net.Arp.Static.{add_static-Sound, new_arp-Sound}

abbrev host : ℕ → Ip
host n = record { a = 10; b = 0; c = 2; d = n }

abbrev card : ℕ → Mac
card n = record { a = 82; b = 84; c = 0; d = 18; e = 52; f = n }

abbrev with_gateway : ArpState
with_gateway = add_static new_arp (host 2) (card 1)

abbrev spoofed : List ℕ
spoofed = payload_of (arp_packet (card 9) (host 2) (card 255) (host 15) arp_request)

-- A packet that claims the gateway's address.
handle-Safe_example :
    Safe with_gateway
      (ip_at spoofed 14)
      (mac_at spoofed 8)
      (handle with_gateway spoofed (host 15) (card 3)).1
handle-Safe_example =
    handle-Safe with_gateway spoofed (host 15) (card 3)
      (add_static-Sound new_arp (host 2) (card 1) new_arp-Sound).0

gateway_kept :
    arp_lookup (handle with_gateway spoofed (host 15) (card 3)).1 (host 2) ≡ some (card 1)
unfolding handle is_well_formed arp_packet put_bytes arp_insert classify_insert judged find_mac
    new_arp same_ip same_mac add_static put_first
gateway_kept = refl

gateway_never_learned : arp_lookup (handle new_arp spoofed (host 15) (card 3)).1 (host 2) ≡ none
unfolding handle is_well_formed arp_packet put_bytes arp_insert classify_insert judged learn
    find_mac new_arp same_ip same_mac
gateway_never_learned = refl
