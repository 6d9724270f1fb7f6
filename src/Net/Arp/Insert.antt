-- ===== src/Net/Arp/Insert.antt =====
-- What a packet does to the cache, `arp_insert` and `handle` of crates/zenus-net/src/arp.rs.
use zenus.Base.{
  ℕ, ◌≡◌, Bool, true, false, Option, none, some, List, [], ◌∷◌, arith, refl, sym, ◌∙◌, subst, inl,
  inr, Bool-cases, All,
}
use zenus.Net.Arp.{
  ArpEntry, ArpInsert, ArpState, Ip, Mac, arp_insert, arp_lookup, classify_insert, conflict,
  entry_for, evict, find_mac, handle, ip_at, is_evictable, is_free, is_well_formed, known, learn,
  learned, mac_at, place_entry, refused, settled, judged, same_ip,
}
use zenus.Net.Arp.Cache.{
  Change, Change-cons, Fits, Fits-fresh, Sound, Sound-cons, same_ip-sym, find_mac-miss,
  find_mac-none, overwrite, overwrite-Change, overwrite-Sound, overwrite-hit, put_first-overwrite,
  same_ip_refl, some_fits,
}
use zenus.Net.Arp.Cache.Change.{kept, evicted}

-- What `place_entry` promises of the list that it returns.
unfoldable pub Placed : Ip → List ArpEntry → ArpEntry → Option (List ArpEntry) → Type 0
Placed gateway xs e none = Unit
Placed gateway xs e (some ys) =
    Sound ys
    × ((find_mac ys e.ip ≡ some e.mac)
        × ((g : Ip) → Change (is_evictable gateway) e g (find_mac xs g) (find_mac ys g)))

pub all_used : (xs : List ArpEntry) → some_fits is_free xs ≡ false → All (λ x. x.valid ≡ true) xs
unfolding some_fits
all_used [] h = tt
all_used (x ∷ xs) h = (ground (arith, h), all_used xs (ground (arith, h)))

used_weaken :
    (p : ArpEntry → Bool) (xs : List ArpEntry)
    → All (λ x. x.valid ≡ true) xs
    → All (λ x. p x ≡ false → x.valid ≡ true) xs
used_weaken p [] u = tt
used_weaken p (x ∷ xs) (a, u) = ((λ w. a), used_weaken p xs u)

free_covers : (xs : List ArpEntry) → All (λ x. is_free x ≡ false → x.valid ≡ true) xs
free_covers [] = tt
free_covers (x ∷ xs) = ((λ w. ground (arith, w)), free_covers xs)

-- Nothing is evicted where a free entry is taken.
Change-free :
    (gateway : Ip) (e : ArpEntry) (g : Ip) (before after : Option Mac)
    → Change is_free e g before after
    → Change (is_evictable gateway) e g before after
Change-free gateway e g b a (kept h) = kept h
Change-free gateway e g b a (evicted x f v q h) = absurd (ground (arith, f, v))
Change-free gateway e g b a (Change.learned q n h) = Change.learned q n h

evict-Placed :
    (gateway : Ip) (xs : List ArpEntry) (e : ArpEntry)
    → Sound xs
    → All (λ x. x.valid ≡ true) xs
    → e.valid ≡ true
    → find_mac xs e.ip ≡ none
    → Placed gateway xs e (evict gateway xs e)
unfolding evict Placed Sound Fits
evict-Placed gateway [] e s u v n = tt
evict-Placed gateway (x ∷ xs) e (first, (free, s)) (xv, u) v n =
    let p = is_evictable gateway in
    let (miss, n') = find_mac-none x xs e.ip n in
    elim (Bool-cases (some_fits p xs)) [
      | inr h ↦ rw (evict, put_first-overwrite p xs e, h) tt
      | inl h ↦
          let fits = Fits-fresh p e xs n' (used_weaken p xs u) in
          rw (evict, put_first-overwrite p xs e, h)
            (
              Sound-cons p e x xs (first, (free, s)) xv
                  (same_ip-sym x.ip e.ip (ground (arith, miss, xv)))
                  (overwrite-Sound p e xs s v fits),
              (
                find_mac-miss x (overwrite p xs e) e.ip miss ∙ overwrite-hit p e xs h v n',
                λ g. Change-cons p e x xs (overwrite p xs e) g (overwrite-Change p xs e g s v n'),
              ),
            )
    ]

pub place_entry-Placed :
    (gateway : Ip) (xs : List ArpEntry) (e : ArpEntry)
    → Sound xs
    → e.valid ≡ true
    → find_mac xs e.ip ≡ none
    → Placed gateway xs e (place_entry gateway xs e)
unfolding place_entry Placed
place_entry-Placed gateway xs e s v n = elim (Bool-cases (some_fits is_free xs)) [
  | inr h ↦
      rw (place_entry, put_first-overwrite is_free xs e, h)
        (evict-Placed gateway xs e s (all_used xs h) v n)
  | inl h ↦
      rw (place_entry, put_first-overwrite is_free xs e, h)
        (
          overwrite-Sound is_free e xs s v (Fits-fresh is_free e xs n (free_covers xs)),
          (
            overwrite-hit is_free e xs h v n,
            λ g.
                Change-free gateway e g (find_mac xs g) (find_mac (overwrite is_free xs e) g)
                  (overwrite-Change is_free xs e g s v n),
          ),
        )
]

-- What a packet from `ip` and `mac` may do to the cache: no address that is found changes its MAC. A
-- lookup gives what it gave, or nothing for an entry that was evicted, or, for an address that was not
-- found, what the packet says; that of the gateway gives what it gave.
pub record Safe (s : ArpState) (ip : Ip) (mac : Mac) (s' : ArpState) : Type 0 where
  pub sound : Sound s'.cache
  pub same_gateway : s'.gateway ≡ s.gateway
  pub gateway_stays : arp_lookup s' s.gateway ≡ arp_lookup s s.gateway
  pub changes :
      (g : Ip)
      → Change (is_evictable s.gateway) (entry_for ip mac) g (arp_lookup s g) (arp_lookup s' g)

Safe-same : (s : ArpState) (ip : Ip) (mac : Mac) → Sound s.cache → Safe s ip mac s
Safe-same s ip mac v = record {
  sound = v;
  same_gateway = refl;
  gateway_stays = refl;
  changes = λ g. kept refl;
}

-- Neither the eviction nor the new entry is about the gateway.
Change-gateway :
    (gateway ip : Ip) (mac : Mac) (before after : Option Mac)
    → same_ip ip gateway ≡ false
    → Change (is_evictable gateway) (entry_for ip mac) gateway before after
    → after ≡ before
Change-gateway gateway ip mac b a o (kept h) = h
Change-gateway gateway ip mac b a o (evicted x f v q h) =
    let same : same_ip x.ip gateway ≡ true =
      subst (λ i. same_ip x.ip i ≡ true) q (same_ip_refl x.ip) in
    absurd (ground (arith, f, same))
Change-gateway gateway ip mac b a o (Change.learned q n h) =
    let same : same_ip ip gateway ≡ true =
      subst (λ i. same_ip ip i ≡ true) (sym q) (same_ip_refl ip) in
    absurd (ground (arith, o, same))

settled-Safe :
    (s : ArpState) (ip : Ip) (mac : Mac) (o : Option (List ArpEntry))
    → Sound s.cache
    → same_ip ip s.gateway ≡ false
    → Placed s.gateway s.cache (entry_for ip mac) o
    → Safe s ip mac (settled s o).1
unfolding settled Placed
settled-Safe s ip mac none v o u = Safe-same s ip mac v
settled-Safe s ip mac (some ys) v o (sound, (hit, changes)) = record {
  sound = sound;
  same_gateway = refl;
  gateway_stays =
      Change-gateway s.gateway ip mac (arp_lookup s s.gateway) (find_mac ys s.gateway) o
        (changes s.gateway);
  changes = changes;
}

learn-Safe :
    (s : ArpState) (ip : Ip) (mac : Mac)
    → Sound s.cache
    → arp_lookup s ip ≡ none
    → Safe s ip mac (learn s ip mac).1
unfolding learn
learn-Safe s ip mac v n = elim (Bool-cases (same_ip ip s.gateway)) [
  | inl o ↦ rw o (Safe-same s ip mac v)
  | inr o ↦
      let xs = place_entry s.gateway s.cache (entry_for ip mac) in
      rw o (
        settled-Safe s ip mac xs v o
          (place_entry-Placed s.gateway s.cache (entry_for ip mac) v refl n))
]

judged-Safe :
    (s : ArpState) (ip : Ip) (mac : Mac) (found : Option Mac) (verdict : ArpInsert)
    → Sound s.cache
    → arp_lookup s ip ≡ found
    → classify_insert found ip mac ≡ verdict
    → Safe s ip mac (judged s ip mac verdict).1
unfolding judged classify_insert
judged-Safe s ip mac found known v n c = Safe-same s ip mac v
judged-Safe s ip mac found refused v n c = Safe-same s ip mac v
judged-Safe s ip mac found conflict v n c = Safe-same s ip mac v
judged-Safe s ip mac none learned v n c = learn-Safe s ip mac v n
judged-Safe s ip mac (some m) learned v n c = absurd (ground (arith, c))

arp_insert-Safe :
    (s : ArpState) (ip : Ip) (mac : Mac) → Sound s.cache → Safe s ip mac (arp_insert s ip mac).1
unfolding arp_insert
arp_insert-Safe s ip mac v =
    judged-Safe s ip mac (arp_lookup s ip) (classify_insert (arp_lookup s ip) ip mac) v refl refl

-- Whatever a packet holds, from a sound cache on: no address that is found changes its MAC, only an
-- entry other than the gateway's may be evicted, only the sender's address may become known, and only
-- where it was not found; the gateway's is never learned from a packet; the cache stays sound.
pub handle-Safe :
    (s : ArpState) (payload : List ℕ) (our_ip : Ip) (our_mac : Mac)
    → Sound s.cache
    → Safe s (ip_at payload 14) (mac_at payload 8) (handle s payload our_ip our_mac).1
unfolding handle
handle-Safe s payload our_ip our_mac v = elim (Bool-cases (is_well_formed payload)) [
  | inl w ↦ rw w (arp_insert-Safe s (ip_at payload 14) (mac_at payload 8) v)
  | inr w ↦ rw w (Safe-same s (ip_at payload 14) (mac_at payload 8) v)
]
