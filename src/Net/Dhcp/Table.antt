-- ===== src/Net/Dhcp/Table.antt =====
-- Searches of the lease table of crates/zenus-net/src/dhcp_server.rs, and the reaping of old leases.
use zenus.Base.{
  ℕ, zero, suc, ◌≡◌, ◌<◌, Bool, true, false, Option, none, some, [], ◌∷◌, length, get_or, arith,
  refl, sym, ◌∙◌, ap, Bool-cases, ◌⊎◌, inl, inr,
}
use zenus.Net.Arp.{Mac, same_mac}
use zenus.Net.Dhcp.{Lease, Leases, any_slot, is_expired, find_slot, reap_expired, reap_one}

abbrev pub at : Leases → ℕ → Option Lease
at ls i = get_or ls i none

pub data Found (p : Option Lease → Bool) (ls : Leases) : Option ℕ → Type 0 where
  hit : (i : ℕ) → i < length ls → p (at ls i) ≡ true → Found p ls (some i)
  miss : ((j : ℕ) → j < length ls → p (at ls j) ≡ false) → Found p ls none

Found-skip :
    (p : Option Lease → Bool) (x : Option Lease) (ls : Leases) {o : Option ℕ}
    → p x ≡ false
    → Found p ls o
    → Found p (x ∷ ls) (elim o [ none ↦ none | some i ↦ some (suc i) ])
Found-skip p x ls h (hit i l q) = hit (suc i) (omega (arith, l)) q
Found-skip p x ls h (miss m) = miss (elim [ zero ↦ λ l. h | suc j ↦ λ l. m j (omega (arith, l)) ])

pub find_slot-Found : (p : Option Lease → Bool) (ls : Leases) → Found p ls (find_slot p ls)
unfolding find_slot
find_slot-Found p [] = miss (λ j l. absurd (omega (arith, l)))
find_slot-Found p (x ∷ ls) = elim (Bool-cases (p x)) [
  | inl h ↦ rw h (hit 0 (omega arith) h)
  | inr h ↦ rw h (Found-skip p x ls h (find_slot-Found p ls))
]

pub any_slot-at :
    (p : Option Lease → Bool) (ls : Leases) (j : ℕ)
    → p none ≡ false
    → any_slot p ls ≡ false
    → p (at ls j) ≡ false
unfolding any_slot
any_slot-at p [] j z h = z
any_slot-at p (x ∷ ls) zero z h = ground (arith, h)
any_slot-at p (x ∷ ls) (suc j) z h = any_slot-at p ls j z (ground (arith, h))

at-reap_expired :
    (now : ℕ) (ls : Leases) (i : ℕ) → at (reap_expired now ls) i ≡ reap_one now (at ls i)
unfolding reap_expired reap_one
at-reap_expired now [] i = refl
at-reap_expired now (x ∷ ls) zero = refl
at-reap_expired now (x ∷ ls) (suc i) = at-reap_expired now ls i

pub length-reap_expired : (now : ℕ) (ls : Leases) → length (reap_expired now ls) ≡ length ls
unfolding reap_expired
length-reap_expired now [] = refl
length-reap_expired now (x ∷ ls) = ap suc (length-reap_expired now ls)

-- A slot is left as it is or emptied.
reap_one-same : (now : ℕ) (x : Option Lease) → (reap_one now x ≡ x) ⊎ (reap_one now x ≡ none)
unfolding reap_one
reap_one-same now none = inl refl
reap_one-same now (some l) = elim (Bool-cases (is_expired now l)) [
  | inl h ↦ inr (rw h refl)
  | inr h ↦ inl (rw h refl)
]

-- A slot that still holds something is as it was.
pub reap_expired-same :
    (now : ℕ) (ls : Leases) (i : ℕ) (p : Option Lease → Bool)
    → p none ≡ false
    → p (at (reap_expired now ls) i) ≡ true
    → at (reap_expired now ls) i ≡ at ls i
reap_expired-same now ls i p z h = elim (reap_one-same now (at ls i)) [
  | inl q ↦ at-reap_expired now ls i ∙ q
  | inr q ↦
      let e : p (at (reap_expired now ls) i) ≡ false = ap p (at-reap_expired now ls i ∙ q) ∙ z in
      absurd (ground (arith, e, h))
]

pub reap_expired-held :
    (now : ℕ) (ls : Leases) (i : ℕ) (p : Option Lease → Bool)
    → p none ≡ false
    → p (at (reap_expired now ls) i) ≡ true
    → p (at ls i) ≡ true
reap_expired-held now ls i p z h = sym (ap p (reap_expired-same now ls i p z h)) ∙ h

pub same_mac-eq : (x y : Mac) → same_mac x y ≡ true → x ≡ y
unfolding same_mac
same_mac-eq x y h =
    let a : x.a ≡ y.a = ground (arith, h) in
    let b : x.b ≡ y.b = ground (arith, h) in
    let c : x.c ≡ y.c = ground (arith, h) in
    let d : x.d ≡ y.d = ground (arith, h) in
    let e : x.e ≡ y.e = ground (arith, h) in
    let f : x.f ≡ y.f = ground (arith, h) in
    λ i. record { a = a i; b = b i; c = c i; d = d i; e = e i; f = f i }
