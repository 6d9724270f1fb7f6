-- ===== src/Net/Arp/Packet.antt =====
-- A request, the reply to it and what the requester then knows, crates/zenus-net/src/arp.rs.
use zenus.Base.{
  ℕ, ◌≡◌, ◌≢◌, ◌≤◌, true, false, Option, none, some, List, [], ◌∷◌, length, drop, arith, refl, sym,
  ◌∙◌, subst, inl, inr, Bool-cases,
}
use zenus.Net.Arp.{
  ArpEntry, ArpState, Ip, Mac, arp_insert, arp_lookup, arp_packet, arp_request, build_reply,
  classify_insert, entry_for, evict, handle, is_evictable, is_free, learn, no_ip, answer,
  is_well_formed, judged, put_bytes, place_entry, same_ip, settled,
}
use zenus.Net.Arp.Cache.{
  Sound, find_mac-none, put_first-overwrite, same_ip_refl, same_ip-eq, some_fits,
}
use zenus.Net.Arp.Insert.{Placed, all_used, place_entry-Placed}

-- Of two entries in use one is not the gateway's.
one_evictable :
    (gateway : Ip) (x y : ArpEntry) (xs : List ArpEntry)
    → Sound (x ∷ (y ∷ xs))
    → x.valid ≡ true
    → y.valid ≡ true
    → some_fits (is_evictable gateway) (x ∷ (y ∷ xs)) ≡ true
unfolding some_fits Sound
one_evictable gateway x y xs (first, s) xv yv = elim (Bool-cases (same_ip x.ip gateway)) [
  | inr h ↦ rw h refl
  | inl h ↦
      let miss = (find_mac-none y xs x.ip (first xv)).0 in
      elim (Bool-cases (same_ip y.ip gateway)) [
        | inr k ↦ ground (arith, k)
        | inl k ↦
            let q : y.ip ≡ x.ip = same_ip-eq y.ip gateway k ∙ sym (same_ip-eq x.ip gateway h) in
            let same : same_ip y.ip x.ip ≡ true =
              subst (λ i. same_ip y.ip i ≡ true) q (same_ip_refl y.ip) in
            absurd (ground (arith, miss, same, yv))
      ]
]

-- A cache of three entries or more has a place for every new one.
put_entry_room :
    (gateway : Ip) (xs : List ArpEntry) (e : ArpEntry)
    → Sound xs
    → 3 ≤ length xs
    → place_entry gateway xs e ≢ none
unfolding place_entry evict Sound
put_entry_room gateway [] e s l = absurd (omega (arith, l))
put_entry_room gateway (x ∷ []) e s l = absurd (omega (arith, l))
put_entry_room gateway (x ∷ (y ∷ [])) e s l = absurd (omega (arith, l))
put_entry_room gateway (x ∷ (y ∷ (z ∷ xs))) e (first, (free, s)) l =
    let all : List ArpEntry = x ∷ (y ∷ (z ∷ xs)) in
    elim (Bool-cases (some_fits is_free all)) [
      | inl h ↦ rw (place_entry, put_first-overwrite is_free all e, h) (λ q. ground (arith, q))
      | inr h ↦
          let (xv, (yv, (zv, u))) = all_used all h in
          let fits = one_evictable gateway y z xs s yv zv in
          rw
            (
              place_entry,
              put_first-overwrite is_free all e,
              h,
              evict,
              put_first-overwrite (is_evictable gateway) (y ∷ (z ∷ xs)) e,
              fits,
            )
            (λ q. ground (arith, q))
    ]

settled-hit :
    (s : ArpState) (ip : Ip) (mac : Mac) (o : Option (List ArpEntry))
    → Placed s.gateway s.cache (entry_for ip mac) o
    → o ≢ none
    → arp_lookup (settled s o).1 ip ≡ some mac
unfolding settled Placed
settled-hit s ip mac none u h = absurd (h refl)
settled-hit s ip mac (some ys) (sound, (hit, changes)) h = hit

-- A new address is known afterwards.
arp_insert-hit :
    (s : ArpState) (ip : Ip) (mac : Mac)
    → Sound s.cache
    → 3 ≤ length s.cache
    → arp_lookup s ip ≡ none
    → same_ip ip no_ip ≡ false
    → same_ip ip s.gateway ≡ false
    → arp_lookup (arp_insert s ip mac).1 ip ≡ some mac
unfolding arp_insert judged classify_insert learn
arp_insert-hit s ip mac v l n z o =
    rw (arp_insert, n, z, o)
      (settled-hit s ip mac (place_entry s.gateway s.cache (entry_for ip mac))
        (place_entry-Placed s.gateway s.cache (entry_for ip mac) v refl n)
        (put_entry_room s.gateway s.cache (entry_for ip mac) v l))

-- The payload of a frame, after the Ethernet header.
abbrev pub payload_of : List ℕ → List ℕ
payload_of frame = drop 14 frame

-- The host with the address that a request asks for answers it, and the reply makes a requester that did
-- not know the address look it up as the MAC of that host, unless it is 0.0.0.0 or the requester's
-- gateway.
pub handle-build_reply :
    (s t : ArpState) (ip ip' : Ip) (mac mac' dst : Mac)
    → Sound s.cache
    → 3 ≤ length s.cache
    → arp_lookup s ip' ≡ none
    → same_ip ip' no_ip ≡ false
    → same_ip ip' s.gateway ≡ false
    → let reply = build_reply mac' ip' mac ip in
      ((handle t (payload_of (arp_packet mac ip dst ip' arp_request)) ip' mac').0 ≡ some reply)
      × (arp_lookup (handle s (payload_of reply) ip mac).1 ip' ≡ some mac')
unfolding handle is_well_formed answer build_reply arp_packet put_bytes
handle-build_reply s t ip ip' mac mac' dst v l n z o =
    (rw (same_ip_refl ip') refl, arp_insert-hit s ip' mac' v l n z o)
