-- ===== src/Fs/BlockCache/Probe.antt =====
-- The search over the window of a block in crates/zenus-fs/src/block_cache.rs.
use zenus.Base.{
  ℕ, zero, suc, ◌+◌, ◌%◌, ◌≡◌, ◌≤◌, ◌<◌, ◌≢◌, Bool, true, false, none, some, List, arith, refl, inl,
  inr, subst, sym, ap, ◌∙◌, Bool-cases,
}
use native.Mathlib.Decide.{dec_lt, ℕ_discrete}
use zenus.Fs.BlockCache.{CacheEntry, at, probe, cache_size}

-- The slot that the search tries `j`-th.
abbrev pub slot : ℕ → ℕ → ℕ
slot start j = (start + j) % cache_size

pub record Hit (p : CacheEntry → Bool) (es : List CacheEntry) (start n i k : ℕ) : Type 0 where
  pub turn : ℕ
  pub from : i ≤ turn
  pub to : turn < i + n
  pub is_slot : k ≡ slot start turn
  pub passes : p (at es k) ≡ true

pub probe-Hit :
    (p : CacheEntry → Bool) (es : List CacheEntry) (start n i k : ℕ)
    → probe p es start n i ≡ some k
    → Hit p es start n i k
unfolding probe
probe-Hit p es start zero i k e = cc
probe-Hit p es start (suc n) i k e = elim (Bool-cases (p (at es (slot start i)))) [
  | inl h ↦
      let q : k ≡ slot start i = ground arith in
      record {
        turn = i;
        from = omega arith;
        to = omega arith;
        is_slot = q;
        passes = subst (λ s. p (at es s) ≡ true) (sym q) h;
      }
  | inr h ↦
      let f : probe p es start n (i + 1) ≡ some k = ground arith in
      let r = probe-Hit p es start n (i + 1) k f in
      record {
        turn = r.turn;
        from = omega (arith, r.from);
        to = omega (arith, r.to);
        is_slot = r.is_slot;
        passes = r.passes;
      }
]

pub probe-none :
    (p : CacheEntry → Bool) (es : List CacheEntry) (start n i : ℕ)
    → probe p es start n i ≡ none
    → (j : ℕ) → i ≤ j
    → j < i + n
    → p (at es (slot start j)) ≡ false
unfolding probe
probe-none p es start zero i e j a b = absurd (omega arith)
probe-none p es start (suc n) i e j a b =
    let h : p (at es (slot start i)) ≡ false = ground arith in
    let f : probe p es start n (i + 1) ≡ none = ground arith in
    elim (dec_lt i j) [
      | yes q ↦ probe-none p es start n (i + 1) f j (omega arith) (omega arith)
      | no q ↦ let r : i ≡ j = omega arith in subst (λ k. p (at es (slot start k)) ≡ false) r h
    ]

-- Two caches on whose window a test gives the same give the same search.
pub probe_cong :
    (p : CacheEntry → Bool) (es es' : List CacheEntry) (start n i : ℕ)
    → ((j : ℕ) → i ≤ j → j < i + n → p (at es' (slot start j)) ≡ p (at es (slot start j)))
    → probe p es' start n i ≡ probe p es start n i
unfolding probe
probe_cong p es es' start zero i h = refl
probe_cong p es es' start (suc n) i h = rw (
  h i (omega arith) (omega arith),
  probe_cong p es es' start n (i + 1) (λ j a b. h j (omega arith) (omega arith)),
)

-- A slot of the window that is the only one to pass is the one found.
pub probe_only :
    (p : CacheEntry → Bool) (es : List CacheEntry) (start n i k t : ℕ)
    → ((j : ℕ) → i ≤ j → j < i + n → slot start j ≢ k → p (at es (slot start j)) ≡ false)
    → p (at es k) ≡ true
    → i ≤ t
    → t < i + n
    → k ≡ slot start t
    → probe p es start n i ≡ some k
unfolding probe
probe_only p es start zero i k t h o a b q = absurd (omega arith)
probe_only p es start (suc n) i k t h o a b q = elim (ℕ_discrete (slot start i) k) [
  | yes e ↦ rw (e, o)
  | no e ↦
      let r : i ≢ t = λ c. e (ap (slot start) c ∙ sym q) in
      rw (
        h i (omega arith) (omega arith) e,
        probe_only p es start n (i + 1) k t (λ j x y. h j (omega arith) (omega arith)) o
            (omega arith) (omega arith) q,
      )
]
