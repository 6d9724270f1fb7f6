-- ===== src/Net/Dhcp/Serve.antt =====
-- The messages that the server of crates/zenus-net/src/dhcp_server.rs answers, one after the other.
use zenus.Base.{
  ℕ, zero, suc, ◌+◌, ◌≡◌, ◌==◌, ◌||◌, Bool, true, false, Option, none, some, List, [], ◌∷◌, arith,
  refl, subst, Bool-cases, replicate, inl, inr,
}
use zenus.Net.Arp.{Mac}
use zenus.Net.Dhcp.{
  Lease, Leases, allocate_ip, any_slot, discover, find_lease_by_ip, find_lease_by_mac, find_slot,
  free_ip, address_of, offer, is_valid, new_leases, lease_table_size, Message, discover_msg,
  request_msg, serve, holds_ip, holds_mac, lease_ip, may_have, pool_size, pool_start, reap_expired,
  request,
}
use zenus.Net.Dhcp.Table.{Found, any_slot-at, at, find_slot-Found}
use zenus.Net.Dhcp.Table.Found.{hit, miss}
use zenus.Net.Dhcp.Unique.{Own, Unique, absent, grant-Unique, reap-Unique}

-- An address that `allocate_ip` gives is nobody else's.
free_ip-none :
    (n offset server_ip : ℕ) (ls : Leases) (ip : ℕ)
    → free_ip n offset server_ip ls ≡ some ip
    → any_slot (holds_ip ip) ls ≡ false
unfolding free_ip
free_ip-none zero offset server_ip ls ip e = ground (arith, e)
free_ip-none (suc n) offset server_ip ls ip e =
    let x = pool_start + offset in
    elim (Bool-cases (x == server_ip || any_slot (holds_ip x) ls)) [
      | inl h ↦ free_ip-none n (offset + 1) server_ip ls ip (ground (arith, h, e))
      | inr h ↦
          let q : x ≡ ip = ground (arith, h, e) in
          subst (λ z. any_slot (holds_ip z) ls ≡ false) q (ground (arith, h))
    ]

lease_ip-Own :
    (ls : Leases) (mac : Mac) (i ip : ℕ)
    → Unique ls
    → holds_mac mac (at ls i) ≡ true
    → lease_ip (at ls i) ≡ some ip
    → Own ls mac ip
unfolding Own
lease_ip-Own ls mac i ip u h e j t =
    let held : holds_ip ip (at ls i) ≡ true = leased (at ls i) e in
    subst (λ k. holds_mac mac (at ls k) ≡ true) (u.one_ip ip i j held t) h
  where
    leased : (x : Option Lease) → lease_ip x ≡ some ip → holds_ip ip x ≡ true
    leased none e = ground (arith, e)
    leased (some l) e = ground (arith, e)

address_of-Own :
    (ls : Leases) (mac : Mac) (server_ip ip : ℕ) {o : Option ℕ}
    → Unique ls
    → Found (holds_mac mac) ls o
    → address_of server_ip ls o ≡ some ip
    → Own ls mac ip
unfolding address_of Own
address_of-Own ls mac server_ip ip u (hit i l q) e = lease_ip-Own ls mac i ip u q e
address_of-Own ls mac server_ip ip u (miss m) e = λ j t.
    let free = any_slot-at (holds_ip ip) ls j refl (free_ip-none pool_size 0 server_ip ls ip e) in
    absurd (ground (arith, free, t))

offer-Unique :
    (now : ℕ) (mac : Mac) (secs : ℕ) (ls : Leases) (o : Option ℕ)
    → Unique ls
    → ((ip : ℕ) → o ≡ some ip → Own ls mac ip)
    → Unique (offer now mac secs ls o).1
unfolding offer
offer-Unique now mac secs ls none u own = u
offer-Unique now mac secs ls (some ip) u own = grant-Unique now ls mac ip secs u (own ip refl)

discover-Unique :
    (now server_ip : ℕ) (ls : Leases) (mac : Mac) (secs : ℕ)
    → Unique ls
    → Unique (discover now server_ip ls mac secs).1
unfolding discover allocate_ip find_lease_by_mac
discover-Unique now server_ip ls mac secs u =
    let ls' = reap_expired now ls in
    let u' = reap-Unique now ls u in
    let found = find_slot-Found (holds_mac mac) ls' in
    offer-Unique now mac secs ls' (address_of server_ip ls' (find_slot (holds_mac mac) ls')) u'
      (λ ip e. address_of-Own ls' mac server_ip ip u' found e)

-- A request is acknowledged only for an address that nobody else has.
is_valid-Own :
    (ls : Leases) (mac : Mac) (server_ip req_ip : ℕ) {o : Option ℕ}
    → Unique ls
    → Found (holds_ip req_ip) ls o
    → is_valid server_ip ls mac req_ip o ≡ true
    → Own ls mac req_ip
unfolding is_valid Own
is_valid-Own ls mac server_ip req_ip u (hit i l q) e =
    λ j t. subst (λ k. holds_mac mac (at ls k) ≡ true) (u.one_ip req_ip i j q t) e
is_valid-Own ls mac server_ip req_ip u (miss m) e =
    λ j t. let free = absent (holds_ip req_ip) ls j refl m in absurd (ground (arith, free, t))

request-Unique :
    (now server_ip : ℕ) (ls : Leases) (mac : Mac) (req_ip secs : ℕ)
    → Unique ls
    → Unique (request now server_ip ls mac req_ip secs).1
unfolding request may_have find_lease_by_ip
request-Unique now server_ip ls mac req_ip secs u =
    let ls' = reap_expired now ls in
    let u' = reap-Unique now ls u in
    let o = find_slot (holds_ip req_ip) ls' in
    elim (Bool-cases (req_ip == 0)) [
      | inl z ↦ rw z u
      | inr z ↦ elim (Bool-cases (is_valid server_ip ls' mac req_ip o)) [
        | inr e ↦ rw (z, e) u'
        | inl e ↦
            rw (z, e)
              (grant-Unique now ls' mac req_ip secs u' (
                is_valid-Own ls' mac server_ip req_ip u' (find_slot-Found (holds_ip req_ip) ls') e))
      ]
    ]

pub new_leases-Unique : Unique new_leases
unfolding new_leases
new_leases-Unique = record {
  one_ip = λ ip i j a b. absurd (ground (arith, a, vacant lease_table_size i (holds_ip ip) refl));
  one_mac =
      λ mac i j a b. absurd (ground (arith, a, vacant lease_table_size i (holds_mac mac) refl));
}
  where
    vacant :
        (n i : ℕ) (p : Option Lease → Bool) → p none ≡ false → p (at (replicate n none) i) ≡ false
    vacant zero i p z = z
    vacant (suc n) zero p z = z
    vacant (suc n) (suc i) p z = vacant n i p z

-- Messages, each with the time at which it comes.
unfoldable pub serve_all : ℕ → Leases → List (ℕ × Message) → Leases
unfolding serve
serve_all server_ip ls [] = ls
serve_all server_ip ls ((now, msg) ∷ msgs) = serve_all server_ip (serve now server_ip ls msg).1 msgs

serve-Unique :
    (now server_ip : ℕ) (ls : Leases) (msg : Message)
    → Unique ls
    → Unique (serve now server_ip ls msg).1
unfolding serve
serve-Unique now server_ip ls (discover_msg mac secs) u =
    discover-Unique now server_ip ls mac secs u
serve-Unique now server_ip ls (request_msg mac req_ip secs) u =
    request-Unique now server_ip ls mac req_ip secs u

-- From a table where no two leases share an address or a client, whatever messages come at whatever
-- times, no two leases share an address or a client.
pub serve_all-Unique :
    (server_ip : ℕ) (ls : Leases) (msgs : List (ℕ × Message))
    → Unique ls
    → Unique (serve_all server_ip ls msgs)
unfolding serve_all
serve_all-Unique server_ip ls [] u = u
serve_all-Unique server_ip ls ((now, msg) ∷ msgs) u =
    serve_all-Unique server_ip (serve now server_ip ls msg).1 msgs
      (serve-Unique now server_ip ls msg u)
