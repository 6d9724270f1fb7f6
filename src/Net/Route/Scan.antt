-- ===== src/Net/Route/Scan.antt =====
-- The loop of `lookup` of crates/zenus-net/src/route.rs, in its own terms.
use zenus.Base.{
  ℕ, suc, ◌≡◌, ◌≤◌, ◌<◌, ◌⊎◌, ◌&&◌, true, false, Option, none, some, [], ◌∷◌, length, get_or, take,
  All, arith, refl, inl, inr, ltb→lt, Bool-cases,
}
use zenus.Net.Route.{Ipv4, Route, Best, Table, best_of, matches, beats, prefix_len, scan}

-- The slot is free, or its route does not match, or its prefix is at most `m` long.
abbrev pub Within : Ipv4 → ℕ → Option Route → Type 0
Within ip m none = Unit
Within ip m (some r) = matches ip r ≡ true → prefix_len r.mask ≤ m

-- The same with a shorter prefix.
abbrev pub Shorter : Ipv4 → ℕ → Option Route → Type 0
Shorter ip m none = Unit
Shorter ip m (some r) = matches ip r ≡ true → prefix_len r.mask < m

abbrev pub Unmatched : Ipv4 → Option Route → Type 0
Unmatched ip none = Unit
Unmatched ip (some r) = matches ip r ≡ false

-- Slot `k` has route `r`, which matches; no route that matches has a longer prefix, and none before
-- it has one as long.
pub record Longest (ip : Ipv4) (ts : Table) (k : ℕ) (r : Route) : Type 0 where
  pub inside : k < length ts
  pub at : get_or ts k none ≡ some r
  pub fits : matches ip r ≡ true
  pub most : All (Within ip (prefix_len r.mask)) ts
  pub first : All (Shorter ip (prefix_len r.mask)) (take k ts)

-- What the loop leaves of the best route so far.
abbrev pub Kept : Ipv4 → Table → Option Best → Type 0
Kept ip ts none = All (Unmatched ip) ts
Kept ip ts (some b) = All (Within ip b.plen) ts

pub record Chosen (ip : Ipv4) (ts : Table) (best out : Option Best) (k : ℕ) (r : Route)
    : Type 0 where
  pub is : out ≡ some (best_of r)
  pub longest : Longest ip ts k r
  pub better : beats (prefix_len r.mask) best ≡ true

abbrev pub Scanned : Ipv4 → Table → Option Best → Option Best → Type 0
Scanned ip ts best out =
    ((out ≡ best) × Kept ip ts best) ⊎ ((k : ℕ) × (r : Route) × Chosen ip ts best out k r)

Shorter-Within : (ip : Ipv4) (m : ℕ) (slot : Option Route) → Shorter ip m slot → Within ip m slot
Shorter-Within ip m none s = tt
Shorter-Within ip m (some r) s = λ h. omega (arith, s h)

-- A slot in front that is free, does not match, or has a shorter prefix than the choice.
Longest-suc :
    (ip : Ipv4) (slot : Option Route) (ts : Table) (k : ℕ) (r : Route)
    → Shorter ip (prefix_len r.mask) slot
    → Longest ip ts k r
    → Longest ip (slot ∷ ts) (suc k) r
Longest-suc ip slot ts k r s l = record {
  inside = omega (arith, l.inside);
  at = l.at;
  fits = l.fits;
  most = (Shorter-Within ip (prefix_len r.mask) slot s, l.most);
  first = (s, l.first);
}

-- A slot that does not take over from the best route so far.
Passes : Ipv4 → Option Route → Option Best → Type 0
Passes ip slot none = Unmatched ip slot
Passes ip slot (some x) = Within ip x.plen slot

Passes-Shorter :
    (ip : Ipv4) (slot : Option Route) (best : Option Best) (m : ℕ)
    → Passes ip slot best
    → beats m best ≡ true
    → Shorter ip m slot
unfolding Passes
Passes-Shorter ip none best m p b = tt
Passes-Shorter ip (some r) none m p b = λ h. absurd (ground arith)
Passes-Shorter ip (some r) (some x) m p b = λ h. omega (arith, p h, ltb→lt x.plen m b)

Scanned-pass :
    (ip : Ipv4) (slot : Option Route) (ts : Table) (best out : Option Best)
    → Passes ip slot best
    → Scanned ip ts best out
    → Scanned ip (slot ∷ ts) best out
unfolding Passes
Scanned-pass ip slot ts none out p (inl (e, a)) = inl (e, (p, a))
Scanned-pass ip slot ts (some x) out p (inl (e, a)) = inl (e, (p, a))
Scanned-pass ip slot ts best out p (inr (k, r, c)) = inr (
  suc k,
  r,
  record {
    is = c.is;
    better = c.better;
    longest =
        Longest-suc ip slot ts k r (Passes-Shorter ip slot best (prefix_len r.mask) p c.better)
          c.longest;
  },
)

Passes-none : (ip : Ipv4) (best : Option Best) → Passes ip none best
unfolding Passes
Passes-none ip none = tt
Passes-none ip (some x) = tt

Passes-some :
    (ip : Ipv4) (r : Route) (best : Option Best)
    → (matches ip r && beats (prefix_len r.mask) best) ≡ false
    → Passes ip (some r) best
unfolding Passes
Passes-some ip r none h = ground arith
Passes-some ip r (some x) h = λ m. ground arith

beats_more : (best : Option Best) (m n : ℕ) → beats m best ≡ true → m < n → beats n best ≡ true
beats_more none m n h l = refl
beats_more (some x) m n h l = ground arith

-- A slot that does.
Scanned-take :
    (ip : Ipv4) (r : Route) (ts : Table) (best out : Option Best)
    → (matches ip r && beats (prefix_len r.mask) best) ≡ true
    → Scanned ip ts (some (best_of r)) out
    → Scanned ip (some r ∷ ts) best out
Scanned-take ip r ts best out h (inl (e, a)) = inr (
  0,
  r,
  record {
    is = e;
    better = ground arith;
    longest = record {
      inside = omega arith;
      at = refl;
      fits = ground arith;
      most = (λ m. omega arith, a);
      first = tt;
    };
  },
)
Scanned-take ip r ts best out h (inr (k, q, c)) =
    let l = ltb→lt (prefix_len r.mask) (prefix_len q.mask) c.better in
    inr (
      suc k,
      q,
      record {
        is = c.is;
        better = beats_more best (prefix_len r.mask) (prefix_len q.mask) (ground arith) l;
        longest = Longest-suc ip (some r) ts k q (λ m. l) c.longest;
      },
    )

pub scan-Scanned :
    (ip : Ipv4) (ts : Table) (best : Option Best) → Scanned ip ts best (scan ip ts best)
unfolding scan
scan-Scanned ip [] none = inl (refl, tt)
scan-Scanned ip [] (some b) = inl (refl, tt)
scan-Scanned ip (none ∷ ts) best =
    Scanned-pass ip none ts best (scan ip ts best) (Passes-none ip best) (scan-Scanned ip ts best)
scan-Scanned ip (some r ∷ ts) best =
    elim (Bool-cases (matches ip r && beats (prefix_len r.mask) best)) [
      | inl h ↦ rw h (
          Scanned-take ip r ts best (scan ip ts (some (best_of r))) h
            (scan-Scanned ip ts (some (best_of r))))
      | inr h ↦ rw h (
          Scanned-pass ip (some r) ts best (scan ip ts best) (Passes-some ip r best h)
            (scan-Scanned ip ts best))
    ]
