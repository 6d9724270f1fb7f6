-- ===== src/Net/Arp/Static.antt =====
-- The entries that are known ahead of time, `add_static` of crates/zenus-net/src/arp.rs.
use zenus.Base.{
  ℕ, zero, suc, ◌≡◌, true, false, none, some, List, [], ◌∷◌, replicate, arith, refl, ◌∙◌, subst,
  inl, inr, Bool-cases, All,
}
use zenus.Net.Arp.{
  ArpEntry, ArpState, Ip, Mac, add_static, arp_cache_size, entry_for, find_mac, new_arp, no_ip,
  no_mac, takes_static,
}
use zenus.Net.Arp.Cache.{
  Fits, Sound, find_mac-miss, find_mac-hit, overwrite, overwrite-Sound, put_first-overwrite,
  same_ip-eq, same_ip_refl, same_ip-sym, some_fits,
}

free_none : (xs : List ArpEntry) (g : Ip) → All (λ y. y.valid ≡ false) xs → find_mac xs g ≡ none
unfolding find_mac
free_none [] g u = refl
free_none (x ∷ xs) g (a, u) = rw a (free_none xs g u)

static-Fits :
    (ip : Ip) (mac : Mac) (xs : List ArpEntry)
    → Sound xs
    → Fits (takes_static ip) (entry_for ip mac) xs
unfolding Fits Sound
static-Fits ip mac [] s = tt
static-Fits ip mac (x ∷ xs) (first, (free, s)) = (
  (λ a. elim (Bool-cases x.valid) [
    | inr f ↦ free_none xs ip (free f)
    | inl v ↦
        subst (λ i. find_mac xs i ≡ none) (same_ip-eq x.ip ip (ground (arith, a, v))) (first v)
  ]),
  (λ a. (ground (arith, a), (same_ip-sym x.ip ip (ground (arith, a)), static-Fits ip mac xs s))),
)

-- An entry that was put over the first match is the first of its address.
static_found :
    (ip : Ip) (mac : Mac) (xs : List ArpEntry)
    → some_fits (takes_static ip) xs ≡ true
    → find_mac (overwrite (takes_static ip) xs (entry_for ip mac)) ip ≡ some mac
unfolding some_fits overwrite
static_found ip mac [] h = absurd (ground (arith, h))
static_found ip mac (x ∷ xs) h =
    let p = takes_static ip in
    let e = entry_for ip mac in
    elim (Bool-cases (p x)) [
      | inl a ↦ rw a (find_mac-hit e xs ip (same_ip_refl ip))
      | inr a ↦ rw a (
          find_mac-miss x (overwrite p xs e) ip (ground (arith, a))
          ∙ static_found ip mac xs (ground (arith, h, a)))
    ]

-- A static entry keeps the cache sound, and is found unless every entry is in use under another address.
pub add_static-Sound :
    (s : ArpState) (ip : Ip) (mac : Mac)
    → Sound s.cache
    → (Sound (add_static s ip mac).cache)
      × (some_fits (takes_static ip) s.cache ≡ true
          → find_mac (add_static s ip mac).cache ip ≡ some mac)
unfolding add_static
add_static-Sound s ip mac v = elim (Bool-cases (some_fits (takes_static ip) s.cache)) [
  | inr h ↦
      rw (add_static, put_first-overwrite (takes_static ip) s.cache (entry_for ip mac), h)
        (v, (λ w. ground (arith, w)))
  | inl h ↦
      rw (add_static, put_first-overwrite (takes_static ip) s.cache (entry_for ip mac), h)
        (
          overwrite-Sound (takes_static ip) (entry_for ip mac) s.cache v refl
              (static-Fits ip mac s.cache v),
          (λ w. static_found ip mac s.cache h),
        )
]

free_entries-Sound :
    (n : ℕ)
    → (Sound (replicate n (record { ip = no_ip; mac = no_mac; valid = false })))
      × (All {A = ArpEntry}
          (λ y. y.valid ≡ false)
          (replicate n (record { ip = no_ip; mac = no_mac; valid = false })))
unfolding Sound
free_entries-Sound zero = (tt, tt)
free_entries-Sound (suc n) =
    let (s, u) = free_entries-Sound n in (((λ w. ground (arith, w)), ((λ w. u), s)), (refl, u))

pub new_arp-Sound : Sound new_arp.cache
unfolding new_arp
new_arp-Sound = (free_entries-Sound arp_cache_size).0
