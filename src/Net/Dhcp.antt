-- ===== src/Net/Dhcp.antt =====
-- The leases of the DHCP server, crates/zenus-net/src/dhcp_server.rs. The table, the time in seconds and
-- the address of the server are arguments; a message is handled at one instant. The parse of the frame and
-- the layout of the replies are left out.
pub mod Table
pub mod Unique
pub mod Serve
pub mod Options
mod Tests
use zenus.Base.{
  ℕ, zero, suc, ◌+◌, ◌-◌, ◌*◌, ◌/◌, ◌%◌, ◌^◌, ◌==◌, ltb, leb, if◌then◌else◌, Bool, true, false, not,
  ◌&&◌, ◌||◌, Option, none, some, List, [], ◌∷◌, get_or, set, replicate, length, take, drop,
}
use zenus.Net.Arp.{Mac, same_mac}

abbrev pub lease_table_size : ℕ
lease_table_size = 16

abbrev pub pool_size : ℕ
pool_size = 16

abbrev pub default_lease_secs : ℕ
default_lease_secs = 86400

-- `u32::from_be_bytes(POOL_START_OCTETS)`, the number of 10.0.2.100. An address is the number that
-- its four bytes make, the first the highest.
abbrev pub pool_start : ℕ
pool_start = 0x0A00_0264

pub record Lease : Type 0 where
  pub ip : ℕ
  pub mac : Mac
  pub expires : ℕ

abbrev pub Leases : Type 0
Leases = List (Option Lease)

pub new_leases : Leases
new_leases = replicate lease_table_size none

abbrev pub is_expired : ℕ → Lease → Bool
is_expired now l = not (l.expires == 0) && leb l.expires now

pub reap_one : ℕ → Option Lease → Option Lease
reap_one now none = none
reap_one now (some l) = if is_expired now l then none else some l

pub reap_expired : ℕ → Leases → Leases
unfolding reap_one
reap_expired now [] = []
reap_expired now (x ∷ xs) = reap_one now x ∷ reap_expired now xs

pub ip_to_pool_offset : ℕ → Option ℕ
ip_to_pool_offset ip =
    if leb pool_start ip && ltb ip (pool_start + pool_size) then some (ip - pool_start) else none

abbrev pub holds_mac : Mac → Option Lease → Bool
holds_mac mac none = false
holds_mac mac (some l) = same_mac l.mac mac

abbrev pub holds_ip : ℕ → Option Lease → Bool
holds_ip ip none = false
holds_ip ip (some l) = l.ip == ip

abbrev pub is_vacant : Option Lease → Bool
is_vacant none = true
is_vacant (some l) = false

-- The loops that look for an entry.
pub find_slot : (Option Lease → Bool) → Leases → Option ℕ
find_slot p [] = none
find_slot p (x ∷ xs) =
    let rest = find_slot p xs in
    if p x then some 0 else elim rest [ none ↦ none | some i ↦ some (suc i) ]

pub any_slot : (Option Lease → Bool) → Leases → Bool
any_slot p [] = false
any_slot p (x ∷ xs) = p x || any_slot p xs

pub find_lease_by_mac : ℕ → Leases → Mac → Option ℕ × Leases
unfolding find_slot reap_expired
find_lease_by_mac now ls mac = let ls' = reap_expired now ls in (find_slot (holds_mac mac) ls', ls')

pub find_lease_by_ip : ℕ → Leases → ℕ → Option ℕ × Leases
unfolding find_slot reap_expired
find_lease_by_ip now ls ip = let ls' = reap_expired now ls in (find_slot (holds_ip ip) ls', ls')

pub alloc_lease : ℕ → Leases → Option ℕ × Leases
unfolding find_slot reap_expired
alloc_lease now ls = let ls' = reap_expired now ls in (find_slot is_vacant ls', ls')

-- The loop of `allocate_ip`, with `n` offsets left.
pub free_ip : ℕ → ℕ → ℕ → Leases → Option ℕ
unfolding any_slot
free_ip zero offset server_ip ls = none
free_ip (suc n) offset server_ip ls =
    let ip = pool_start + offset in
    let rest = free_ip n (offset + 1) server_ip ls in
    if ip == server_ip || any_slot (holds_ip ip) ls then rest else some ip

abbrev pub lease_ip : Option Lease → Option ℕ
lease_ip none = none
lease_ip (some l) = some l.ip

-- The address of the lease that was found, or one that is free.
pub address_of : ℕ → Leases → Option ℕ → Option ℕ
unfolding free_ip
address_of server_ip ls (some idx) = lease_ip (get_or ls idx none)
address_of server_ip ls none = free_ip pool_size 0 server_ip ls

pub allocate_ip : ℕ → ℕ → Leases → Mac → Option ℕ × Leases
unfolding find_lease_by_mac address_of
allocate_ip now server_ip ls mac =
    let (found, ls') = find_lease_by_mac now ls mac in (address_of server_ip ls' found, ls')

pub slot_or_new : ℕ → Leases → Option ℕ → Option ℕ × Leases
unfolding alloc_lease
slot_or_new now ls (some idx) = (some idx, ls)
slot_or_new now ls none = alloc_lease now ls

-- The slot for the lease of a MAC.
pub lease_slot : ℕ → Leases → Mac → Option ℕ × Leases
unfolding find_lease_by_mac slot_or_new
lease_slot now ls mac = let (found, ls') = find_lease_by_mac now ls mac in slot_or_new now ls' found

abbrev pub lease_until : ℕ → ℕ → Mac → ℕ → Lease
lease_until now ip mac secs = record { ip = ip; mac = mac; expires = (now + secs) % 2 ^ 32 }

-- The lease is recorded and the reply carries the address; `none` is a return of `false`.
pub record_lease : ℕ → Mac → ℕ → ℕ → Leases → Option ℕ → Option ℕ × Leases
record_lease now mac ip secs ls none = (none, ls)
record_lease now mac ip secs ls (some idx) =
    (some ip, set ls idx (some (lease_until now ip mac secs)))

pub grant : ℕ → Leases → Mac → ℕ → ℕ → Option ℕ × Leases
unfolding lease_slot record_lease
grant now ls mac ip secs =
    let (slot, ls') = lease_slot now ls mac in record_lease now mac ip secs ls' slot

pub offer : ℕ → Mac → ℕ → Leases → Option ℕ → Option ℕ × Leases
unfolding grant
offer now mac secs ls none = (none, ls)
offer now mac secs ls (some ip) = grant now ls mac ip secs

-- `MSG_DISCOVER`: the address that is offered.
pub discover : ℕ → ℕ → Leases → Mac → ℕ → Option ℕ × Leases
unfolding allocate_ip offer
discover now server_ip ls mac secs =
    let (ip, ls') = allocate_ip now server_ip ls mac in offer now mac secs ls' ip

-- Whether the address that was asked for can be had, by the slot that holds it.
pub is_valid : ℕ → Leases → Mac → ℕ → Option ℕ → Bool
unfolding ip_to_pool_offset
is_valid server_ip ls mac req_ip (some idx) = holds_mac mac (get_or ls idx none)
is_valid server_ip ls mac req_ip none = elim (ip_to_pool_offset req_ip) [
  | none ↦ false
  | some o ↦ not (req_ip == server_ip)
]

-- Whether a request is answered by an ACK.
pub may_have : ℕ → ℕ → Leases → Mac → ℕ → Bool × Leases
unfolding find_lease_by_ip is_valid
may_have now server_ip ls mac req_ip =
    let (found, ls') = find_lease_by_ip now ls req_ip in
    (is_valid server_ip ls' mac req_ip found, ls')

-- `MSG_REQUEST`: the address of the ACK; of a NAK, which carries no address, it is 0.
pub request : ℕ → ℕ → Leases → Mac → ℕ → ℕ → Option ℕ × Leases
unfolding may_have grant
request now server_ip ls mac req_ip secs =
    let (valid, ls') = may_have now server_ip ls mac req_ip in
    if req_ip == 0
    then (none, ls)
    else if valid
    then grant now ls' mac req_ip secs
    else (some 0, ls')

abbrev pub opt_pad : ℕ
opt_pad = 0

abbrev pub opt_end : ℕ
opt_end = 255

-- `find_option`, at an offset and with `fuel` rounds left; `none` is for no fuel.
pub find_option : ℕ → List ℕ → ℕ → ℕ → Option (Option (List ℕ))
find_option zero payload off opt_type = none
find_option (suc fuel) payload off opt_type =
    let t = get_or payload off 0 in
    let len = get_or payload (off + 1) 0 in
    let next = find_option fuel payload (off + 1) opt_type in
    let rest = find_option fuel payload (off + 2 + len) opt_type in
    if not (ltb (off + 1) (length payload)) || t == opt_end
    then some none
    else if t == opt_pad
    then next
    else if ltb (length payload) (off + 2 + len)
    then some none
    else if t == opt_type
    then some (some (take len (drop (off + 2) payload)))
    else rest

-- `u32::from_be_bytes` of the first four bytes.
abbrev pub be32 : List ℕ → ℕ
be32 xs = ((get_or xs 0 0 * 256 + get_or xs 1 0) * 256 + get_or xs 2 0) * 256 + get_or xs 3 0

pub get_lease_secs : Option (List ℕ) → ℕ
get_lease_secs none = default_lease_secs
get_lease_secs (some val) =
    if not (ltb (length val) 4) && (ltb 0 (be32 val) && leb (be32 val) default_lease_secs)
    then be32 val
    else default_lease_secs

-- `MSG_DISCOVER` and `MSG_REQUEST`, with what the server reads of them.
pub data Message : Type 0 where
  discover_msg : Mac → (secs : ℕ) → Message
  request_msg : Mac → (req_ip secs : ℕ) → Message

pub serve : ℕ → ℕ → Leases → Message → Option ℕ × Leases
unfolding discover request
serve now server_ip ls (discover_msg mac secs) = discover now server_ip ls mac secs
serve now server_ip ls (request_msg mac req_ip secs) = request now server_ip ls mac req_ip secs
