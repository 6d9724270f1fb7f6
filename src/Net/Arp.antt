-- ===== src/Net/Arp.antt =====
-- The ARP cache and the answers to requests, crates/zenus-net/src/arp.rs. The cache is an argument of
-- every operation; the lock is left out, as are the warning on the console and the sending of frames.
mod Wire
pub mod Cache
pub mod Insert
pub mod Packet
pub mod Static
mod Tests
use zenus.Base.{
  ℕ, zero, suc, ◌+◌, ◌*◌, ◌/◌, ◌%◌, ◌==◌, ltb, if◌then◌else◌, Bool, true, false, not, ◌&&◌, ◌||◌,
  Option, none, some, List, [], ◌∷◌, get_or, set, replicate, length,
}
unfoldable pub use Wire.*

abbrev pub arp_cache_size : ℕ
arp_cache_size = 16

abbrev pub no_ip : Ip
no_ip = record { a = 0; b = 0; c = 0; d = 0 }

abbrev pub no_mac : Mac
no_mac = record { a = 0; b = 0; c = 0; d = 0; e = 0; f = 0 }

pub record ArpEntry : Type 0 where
  pub ip : Ip
  pub mac : Mac
  pub valid : Bool

pub record ArpState : Type 0 where
  pub gateway : Ip
  pub cache : List ArpEntry

-- `ARP_STATE` as it starts.
pub new_arp : ArpState
new_arp = record {
  gateway = record { a = 10; b = 0; c = 2; d = 2 };
  cache = replicate arp_cache_size (record { ip = no_ip; mac = no_mac; valid = false });
}

pub set_gateway : ArpState → Ip → ArpState
set_gateway s gw = record s { gateway = gw }

-- The loop of `arp_lookup`.
pub find_mac : List ArpEntry → Ip → Option Mac
find_mac [] target_ip = none
find_mac (x ∷ xs) target_ip =
    let rest = find_mac xs target_ip in
    if x.valid && same_ip x.ip target_ip then some x.mac else rest

abbrev pub arp_lookup : ArpState → Ip → Option Mac
arp_lookup s target_ip = find_mac s.cache target_ip

-- A loop that overwrites the first entry with the property and returns.
pub put_first : (ArpEntry → Bool) → List ArpEntry → ArpEntry → Option (List ArpEntry)
put_first p [] e = none
put_first p (x ∷ xs) e =
    let rest = put_first p xs e in
    if p x then some (e ∷ xs) else elim rest [ none ↦ none | some ys ↦ some (x ∷ ys) ]

abbrev pub entry_for : Ip → Mac → ArpEntry
entry_for ip mac = record { ip = ip; mac = mac; valid = true }

abbrev pub is_free : ArpEntry → Bool
is_free x = not x.valid

-- `add_static` takes the first entry that is free or holds the address.
abbrev pub takes_static : Ip → ArpEntry → Bool
takes_static ip x = not x.valid || same_ip x.ip ip

pub add_static : ArpState → Ip → Mac → ArpState
unfolding put_first
add_static s ip mac = elim (put_first (takes_static ip) s.cache (entry_for ip mac)) [
  | none ↦ s
  | some cache ↦ record s { cache = cache }
]

pub data ArpInsert : Type 0 where
  known : ArpInsert
  learned : ArpInsert
  refused : ArpInsert
  conflict : ArpInsert

pub classify_insert : Option Mac → Ip → Mac → ArpInsert
unfolding same_ip same_mac
classify_insert none incoming_ip incoming_mac =
    if same_ip incoming_ip no_ip then refused else learned
classify_insert (some existing) incoming_ip incoming_mac =
    if same_mac existing incoming_mac then known else conflict

-- An entry that may be evicted.
abbrev pub is_evictable : Ip → ArpEntry → Bool
is_evictable gateway x = not (same_ip x.ip gateway)

-- The second loop of `arp_insert`, which spares the first entry.
pub evict : Ip → List ArpEntry → ArpEntry → Option (List ArpEntry)
unfolding put_first
evict gateway [] e = none
evict gateway (x ∷ xs) e = elim (put_first (is_evictable gateway) xs e) [
  | none ↦ none
  | some ys ↦ some (x ∷ ys)
]

-- Both loops.
pub place_entry : Ip → List ArpEntry → ArpEntry → Option (List ArpEntry)
unfolding put_first evict
place_entry gateway xs e = elim (put_first is_free xs e) [
  | some ys ↦ some ys
  | none ↦ evict gateway xs e
]

-- The ends of `arp_insert`: an entry was written, or no place was found.
pub settled : ArpState → Option (List ArpEntry) → ArpInsert × ArpState
settled s none = (conflict, s)
settled s (some cache) = (learned, record s { cache = cache })

-- What `arp_insert` does where the verdict is `Learned`.
pub learn : ArpState → Ip → Mac → ArpInsert × ArpState
unfolding same_ip place_entry settled
learn s ip mac =
    if same_ip ip s.gateway
    then (refused, s)
    else settled s (place_entry s.gateway s.cache (entry_for ip mac))

-- The verdict of `classify_insert`, acted on.
pub judged : ArpState → Ip → Mac → ArpInsert → ArpInsert × ArpState
unfolding learn
judged s ip mac known = (known, s)
judged s ip mac refused = (refused, s)
judged s ip mac conflict = (conflict, s)
judged s ip mac learned = learn s ip mac

pub arp_insert : ArpState → Ip → Mac → ArpInsert × ArpState
unfolding find_mac classify_insert judged
arp_insert s ip mac = judged s ip mac (classify_insert (arp_lookup s ip) ip mac)

-- The guards of `handle` that return before the cache is touched.
pub is_well_formed : List ℕ → Bool
is_well_formed payload =
    not (ltb (length payload) 28)
    && (be16_at payload 0 == hardware_type_eth
        && (be16_at payload 2 == protocol_type_ipv4
            && (byte_at payload 4 == 6 && byte_at payload 5 == 4)))

-- The answer of `handle` once the sender is in the cache.
pub answer : List ℕ → Ip → Mac → Option (List ℕ)
unfolding same_ip build_reply
answer payload our_ip our_mac =
    if be16_at payload 6 == arp_request
    then elim (target_address payload) [
      | none ↦ none
      | some target_ip ↦
          if not (same_ip target_ip our_ip)
          then none
          else some (build_reply our_mac our_ip (mac_at payload 8) (ip_at payload 14))
    ]
    else none

pub handle : ArpState → List ℕ → Ip → Mac → Option (List ℕ) × ArpState
unfolding is_well_formed answer arp_insert
handle s payload our_ip our_mac =
    if is_well_formed payload
    then (answer payload our_ip our_mac, (arp_insert s (ip_at payload 14) (mac_at payload 8)).1)
    else (none, s)
