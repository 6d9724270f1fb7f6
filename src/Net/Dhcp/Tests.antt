-- ===== src/Net/Dhcp/Tests.antt =====
-- The theorems on crates/zenus-net/src/dhcp_server.rs at concrete inputs.
use zenus.Base.{
  ℕ, ◌≡◌, ◌≢◌, none, some, List, [], ◌∷◌, ◌++◌, replicate, length-replicate, arith, refl,
}
use zenus.Net.Arp.{Mac}
use zenus.Net.Dhcp.{
  Message, discover_msg, find_option, new_leases, request_msg, serve, discover, allocate_ip,
  find_lease_by_mac, find_slot, reap_expired, reap_one, address_of, free_ip, any_slot, offer, grant,
  record_lease, lease_slot, slot_or_new, alloc_lease,
}
use zenus.Net.Dhcp.Unique.{Unique}
use zenus.Net.Dhcp.Serve.{new_leases-Unique, serve_all, serve_all-Unique}
use zenus.Net.Dhcp.Options.{
  encode_options, find_option-encode_options, find_option_ends, lookup_option,
}

abbrev client : ℕ → Mac
client n = record { a = 82; b = 84; c = 0; d = 18; e = 52; f = n }

abbrev server : ℕ
server = 0x0A00_0264

-- Two clients, the second of which asks for the address of the first.
abbrev messages : List (ℕ × Message)
messages =
    (100, discover_msg (client 1) 60)
    ∷ (101, discover_msg (client 2) 60)
    ∷ (102, request_msg (client 2) (0x0A00_0265) 60)
    ∷ []

serve_all-Unique_example : Unique (serve_all server new_leases messages)
serve_all-Unique_example = serve_all-Unique server new_leases messages new_leases-Unique

-- A message type and a lease time.
abbrev options : List (ℕ × List ℕ)
options = (53, 1 ∷ []) ∷ (51, 0 ∷ 0 ∷ 14 ∷ 16 ∷ []) ∷ []

find_option-encode_options_example :
    find_option 3 (replicate 240 0 ++ (encode_options options ++ (255 ∷ []))) 240 51
    ≡ some (lookup_option options 51)
find_option-encode_options_example =
    find_option-encode_options 3 (replicate 240 0) options [] 51
      (
        ((λ e. omega (arith, e)), (λ e. omega (arith, e))),
        (((λ e. omega (arith, e)), (λ e. omega (arith, e))), tt),
      )
      (omega arith) (length-replicate {A = ℕ} 240 0)

find_option_ends_example : find_option 4 (53 ∷ 1 ∷ 1 ∷ []) 0 51 ≢ none
find_option_ends_example = find_option_ends 3 (53 ∷ 1 ∷ 1 ∷ []) 0 51 (omega arith)

first_offer : (serve 100 server new_leases (discover_msg (client 1) 60)).0 ≡ some 0x0A00_0265
unfolding serve discover allocate_ip find_lease_by_mac find_slot reap_expired reap_one address_of
    free_ip any_slot new_leases offer grant record_lease lease_slot slot_or_new alloc_lease
first_offer = refl
