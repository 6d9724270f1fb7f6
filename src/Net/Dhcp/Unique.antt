-- ===== src/Net/Dhcp/Unique.antt =====
-- No two clients of crates/zenus-net/src/dhcp_server.rs have a lease of the same address.
use native.Mathlib.Decide.{ℕ_discrete}
use zenus.Base.{
  ℕ, zero, suc, ◌≡◌, ◌≢◌, ◌<◌, ◌==◌, Bool, true, false, Option, none, some, [], ◌∷◌, length, set,
  arith, refl, sym, ◌∙◌, ap, subst, get_or-set_self, get_or-set_ne,
}
use zenus.Net.Arp.{Mac, same_mac}
use zenus.Net.Dhcp.{
  Lease, Leases, alloc_lease, find_lease_by_mac, grant, slot_or_new, record_lease, holds_ip,
  holds_mac, is_vacant, lease_slot, lease_until, reap_expired,
}
use zenus.Net.Dhcp.Table.{
  Found, at, find_slot-Found, reap_expired-held, reap_expired-same, same_mac-eq,
}
use zenus.Net.Dhcp.Table.Found.{hit, miss}

-- One lease at most for an address, and for a client.
pub record Unique (ls : Leases) : Type 0 where
  pub one_ip : (ip i j : ℕ) → holds_ip ip (at ls i) ≡ true → holds_ip ip (at ls j) ≡ true → i ≡ j
  pub one_mac :
      (mac : Mac) (i j : ℕ)
      → holds_mac mac (at ls i) ≡ true
      → holds_mac mac (at ls j) ≡ true
      → i ≡ j

-- Nobody else has the address.
unfoldable pub Own : Leases → Mac → ℕ → Type 0
Own ls mac ip = (j : ℕ) → holds_ip ip (at ls j) ≡ true → holds_mac mac (at ls j) ≡ true

pub reap-Unique : (now : ℕ) (ls : Leases) → Unique ls → Unique (reap_expired now ls)
reap-Unique now ls u = record {
  one_ip = λ ip i j a b.
      u.one_ip ip i j (reap_expired-held now ls i (holds_ip ip) refl a)
        (reap_expired-held now ls j (holds_ip ip) refl b);
  one_mac = λ mac i j a b.
      u.one_mac mac i j (reap_expired-held now ls i (holds_mac mac) refl a)
        (reap_expired-held now ls j (holds_mac mac) refl b);
}

pub absent :
    (p : Option Lease → Bool) (ls : Leases) (j : ℕ)
    → p none ≡ false
    → ((i : ℕ) → i < length ls → p (at ls i) ≡ false)
    → p (at ls j) ≡ false
absent p [] j z m = z
absent p (x ∷ ls) zero z m = m 0 (omega arith)
absent p (x ∷ ls) (suc j) z m = absent p ls j z (λ i l. m (suc i) (omega (arith, l)))

reap-Own :
    (now : ℕ) (ls : Leases) (mac : Mac) (ip : ℕ) → Own ls mac ip → Own (reap_expired now ls) mac ip
unfolding Own
reap-Own now ls mac ip o j h =
    let same = reap_expired-same now ls j (holds_ip ip) refl h in
    ap (holds_mac mac) same ∙ o j (sym (ap (holds_ip ip) same) ∙ h)

-- The slot is the only one that may hold the client.
Only : Leases → Mac → ℕ → Type 0
Only ls mac idx = (idx < length ls) × ((j : ℕ) → idx ≢ j → holds_mac mac (at ls j) ≡ false)

false_of : (b : Bool) → (b ≡ true → ⊥) → b ≡ false
false_of true h = absurd (h refl)
false_of false h = refl

-- Two slots that hold the same, where a new lease stands in one: no other holds it.
same_slot :
    (p : Option Lease → Bool) (ls : Leases) (idx : ℕ) (l : Lease) (i j : ℕ)
    → idx < length ls
    → (p (some l) ≡ true → (k : ℕ) → idx ≢ k → p (at ls k) ≡ false)
    → (p (at ls i) ≡ true → p (at ls j) ≡ true → i ≡ j)
    → p (at (set ls idx (some l)) i) ≡ true
    → p (at (set ls idx (some l)) j) ≡ true
    → i ≡ j
same_slot p ls idx l i j r others old a b =
    let new : at (set ls idx (some l)) idx ≡ some l = get_or-set_self ls idx (some l) none r in
    elim (ℕ_discrete idx i) [
      | yes x ↦ elim (ℕ_discrete idx j) [
        | yes y ↦ sym x ∙ y
        | no y ↦
            let held : p (some l) ≡ true =
              sym (ap p (ap (at (set ls idx (some l))) (sym x) ∙ new)) ∙ a in
            let q = others held j y in
            let b' = sym (ap p (get_or-set_ne ls idx j (some l) none y)) ∙ b in
            absurd (ground (arith, q, b'))
      ]
      | no x ↦
          let a' = sym (ap p (get_or-set_ne ls idx i (some l) none x)) ∙ a in
          elim (ℕ_discrete idx j) [
            | yes y ↦
                let held : p (some l) ≡ true =
                  sym (ap p (ap (at (set ls idx (some l))) (sym y) ∙ new)) ∙ b in
                let q = others held i x in absurd (ground (arith, q, a'))
            | no y ↦ old a' (sym (ap p (get_or-set_ne ls idx j (some l) none y)) ∙ b)
          ]
    ]

set-Unique :
    (ls : Leases) (idx : ℕ) (l : Lease)
    → Unique ls
    → Only ls l.mac idx
    → Own ls l.mac l.ip
    → Unique (set ls idx (some l))
unfolding Only Own
set-Unique ls idx l u (r, only) own =
    let others_ip : (ip : ℕ)
        → (l.ip == ip) ≡ true
        → (k : ℕ) → idx ≢ k
        → holds_ip ip (at ls k) ≡ false =
      λ ip h k n.
        let e : l.ip ≡ ip = ground (arith, h) in
        false_of (holds_ip ip (at ls k)) (λ t.
          let held = own k (subst (λ z. holds_ip z (at ls k) ≡ true) (sym e) t) in
          ground (arith, held, only k n)) in
    let others_mac : (mac : Mac)
        → same_mac l.mac mac ≡ true
        → (k : ℕ) → idx ≢ k
        → holds_mac mac (at ls k) ≡ false =
      λ mac h k n.
        subst (λ z. holds_mac z (at ls k) ≡ false) (same_mac-eq l.mac mac h) (only k n) in
    record {
      one_ip =
          λ ip i j a b. same_slot (holds_ip ip) ls idx l i j r (others_ip ip) (u.one_ip ip i j) a b;
      one_mac = λ mac i j a b.
          same_slot (holds_mac mac) ls idx l i j r (others_mac mac) (u.one_mac mac i j) a b;
    }

-- A slot for the client, in a table where nobody else has the address.
OnlyAt : Leases → Mac → Option ℕ → Type 0
OnlyAt ls mac none = Unit
OnlyAt ls mac (some idx) = Only ls mac idx

record Ready (mac : Mac) (ip : ℕ) (r : Option ℕ × Leases) : Type 0 where
  unique : Unique r.1
  own : Own r.1 mac ip
  only : OnlyAt r.1 mac r.0

vacant-Only :
    (ls : Leases) (mac : Mac) {o : Option ℕ}
    → ((j : ℕ) → holds_mac mac (at ls j) ≡ false)
    → Found is_vacant ls o
    → OnlyAt ls mac o
unfolding OnlyAt Only
vacant-Only ls mac m (hit i l q) = (l, (λ j n. m j))
vacant-Only ls mac m (miss k) = tt

alloc_lease-Ready :
    (now : ℕ) (ls : Leases) (mac : Mac) (ip : ℕ)
    → Unique ls
    → Own ls mac ip
    → ((j : ℕ) → holds_mac mac (at ls j) ≡ false)
    → Ready mac ip (alloc_lease now ls)
unfolding alloc_lease
alloc_lease-Ready now ls mac ip u o m =
    let ls' = reap_expired now ls in
    let none_left : (j : ℕ) → holds_mac mac (at ls' j) ≡ false = λ j.
      false_of (holds_mac mac (at ls' j)) (λ t.
        let held = reap_expired-held now ls j (holds_mac mac) refl t in
        ground (arith, held, m j)) in
    record {
      unique = reap-Unique now ls u;
      own = reap-Own now ls mac ip o;
      only = vacant-Only ls' mac none_left (find_slot-Found is_vacant ls');
    }

slot-Ready :
    (now : ℕ) (ls : Leases) (mac : Mac) (ip : ℕ) {o : Option ℕ}
    → Unique ls
    → Own ls mac ip
    → Found (holds_mac mac) ls o
    → Ready mac ip (slot_or_new now ls o)
unfolding slot_or_new OnlyAt Only
slot-Ready now ls mac ip u own (hit i l q) = record {
  unique = u;
  own = own;
  only = (l, (λ j n. false_of (holds_mac mac (at ls j)) (λ t. n (u.one_mac mac i j q t))));
}
slot-Ready now ls mac ip u own (miss m) =
    alloc_lease-Ready now ls mac ip u own (λ j. absent (holds_mac mac) ls j refl m)

lease_slot-Ready :
    (now : ℕ) (ls : Leases) (mac : Mac) (ip : ℕ)
    → Unique ls
    → Own ls mac ip
    → Ready mac ip (lease_slot now ls mac)
unfolding lease_slot find_lease_by_mac
lease_slot-Ready now ls mac ip u own =
    let ls' = reap_expired now ls in
    slot-Ready now ls' mac ip (reap-Unique now ls u) (reap-Own now ls mac ip own)
      (find_slot-Found (holds_mac mac) ls')

record_lease-Unique :
    (now : ℕ) (ls : Leases) (mac : Mac) (ip secs : ℕ) (o : Option ℕ)
    → Ready mac ip (o, ls)
    → Unique (record_lease now mac ip secs ls o).1
unfolding record_lease OnlyAt
record_lease-Unique now ls mac ip secs none r = r.unique
record_lease-Unique now ls mac ip secs (some idx) r =
    set-Unique ls idx (lease_until now ip mac secs) r.unique r.only r.own

pub grant-Unique :
    (now : ℕ) (ls : Leases) (mac : Mac) (ip secs : ℕ)
    → Unique ls
    → Own ls mac ip
    → Unique (grant now ls mac ip secs).1
unfolding grant
grant-Unique now ls mac ip secs u own =
    let (slot, ls') = lease_slot now ls mac in
    record_lease-Unique now ls' mac ip secs slot (lease_slot-Ready now ls mac ip u own)
