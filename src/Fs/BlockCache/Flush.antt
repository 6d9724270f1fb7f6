-- ===== src/Fs/BlockCache/Flush.antt =====
-- Writing the block cache back, `flush_all` of crates/zenus-fs/src/block_cache.rs.
use native.Mathlib.Decide.{dec_lt}
use zenus.Base.{
  ℕ, zero, suc, ◌+◌, ◌≡◌, ◌≤◌, ◌<◌, ◌≢◌, Bool, true, false, ◌&&◌, List, arith, refl, inl, inr,
  subst, sym, ◌∙◌, ap, length, Bool-cases, get_or-set_self, not, if◌then◌else◌,
}
use zenus.Fs.BlockCache.{
  Disk, BlockCache, CacheEntry, empty_entry, at, cache_size, flush_entry, flush_from, flush_all,
}
use zenus.Fs.BlockCache.Fill.{flush_entry-others, length-flush_entry}

-- The entry has nothing that is still to be written.
abbrev pub due : CacheEntry → Bool
due e = e.valid && e.dirty

module _ (disk : Disk) where
  open disk use {Store, read, write}

  flush_entry-settles :
      (es : List CacheEntry) (s : Store) (k : ℕ)
      → k < length es
      → (flush_entry disk es s k).0 ≡ true
      → due (at (flush_entry disk es s k).1 k) ≡ false
  unfolding flush_entry
  flush_entry-settles es s k l o =
      let e = at es k in
      let g = get_or-set_self es k (record e { dirty = false }) empty_entry l in
      ground (arith, ap due g)

  record Settled (n i : ℕ) (es : List CacheEntry) (success : Bool)
      (out : Bool × List CacheEntry × Store) : Type 0 where
    before : success ≡ true
    below : (k : ℕ) → k < i → at out.1 k ≡ at es k
    done : (k : ℕ) → i ≤ k → k < i + n → due (at out.1 k) ≡ false

  -- A round that leaves slot `i` settled and every other slot alone.
  Settled-round :
      (n i : ℕ) (es es1 : List CacheEntry) (success success1 : Bool)
      (out : Bool × List CacheEntry × Store)
      → (success1 ≡ true → success ≡ true)
      → ((k : ℕ) → i ≢ k → at es1 k ≡ at es k)
      → due (at es1 i) ≡ false
      → Settled n (i + 1) es1 success1 out
      → Settled (suc n) i es success out
  Settled-round n i es es1 success success1 out b o d r = record {
    before = b r.before;
    below = λ k h. r.below k (omega arith) ∙ o k (omega arith);
    done = λ k x y. elim (dec_lt i k) [
      | yes h ↦ r.done k (omega arith) (omega arith)
      | no h ↦
          let q : i ≡ k = omega arith in
          subst (λ j. due (at out.1 j) ≡ false) q (ap due (r.below i (omega arith)) ∙ d)
    ];
  }

  flush_from_kept :
      (n i : ℕ) (es : List CacheEntry) (s : Store) (success : Bool)
      → due (at es i) ≡ false
      → flush_from disk (suc n) i es s success ≡ flush_from disk n (i + 1) es s success
  unfolding flush_from
  flush_from_kept n i es s success h = rw h

  flush_from_flushed :
      (n i : ℕ) (es : List CacheEntry) (s : Store) (success : Bool)
      → due (at es i) ≡ true
      → let (ok, es', s') = flush_entry disk es s i in
        flush_from disk (suc n) i es s success
        ≡ flush_from disk n (i + 1) es' s' (if not ok then false else success)
  unfolding flush_from
  flush_from_flushed n i es s success h = rw h

  flush_from-Settled :
      (n i : ℕ) (es : List CacheEntry) (s : Store) (success : Bool)
      → i + n ≤ length es
      → (flush_from disk n i es s success).0 ≡ true
      → Settled n i es success (flush_from disk n i es s success)
  unfolding flush_from
  flush_from-Settled zero i es s success l o = record {
    before = o;
    below = λ k h. refl;
    done = λ k a b. absurd (omega arith);
  }
  flush_from-Settled (suc n) i es s success l o = elim (Bool-cases (due (at es i))) [
    | inr h ↦
        let q = flush_from_kept n i es s success h in
        let r =
          flush_from-Settled n (i + 1) es s success (omega arith) (sym (ap (λ x. x.0) q) ∙ o) in
        subst (Settled (suc n) i es success) (sym q) (
          Settled-round n i es es success success (flush_from disk n (i + 1) es s success) (λ x. x)
            (λ k m. refl) h r)
    | inl h ↦
        let q = flush_from_flushed n i es s success h in
        let es' = (flush_entry disk es s i).1 in
        let s' = (flush_entry disk es s i).2 in
        let b = (if not (flush_entry disk es s i).0 then false else success) in
        let z = length-flush_entry disk es s i in
        let r =
          flush_from-Settled n (i + 1) es' s' b (omega (arith, z)) (sym (ap (λ x. x.0) q) ∙ o) in
        let k : (flush_entry disk es s i).0 ≡ true = ground (arith, r.before) in
        subst (Settled (suc n) i es success) (sym q) (
          Settled-round n i es es' success b (flush_from disk n (i + 1) es' s' b)
            (λ x. ground arith) (λ j m. flush_entry-others disk es s i j m)
            (flush_entry-settles es s i (omega arith) k) r)
  ]

  -- A `flush_all` that reports success leaves no slot that is in use and dirty.
  pub flush_all-settles :
      (c : BlockCache) (s : Store) (k : ℕ)
      → length c.entries ≡ cache_size
      → (flush_all disk c s).0 ≡ true
      → k < cache_size
      → due (at (flush_all disk c s).1.entries k) ≡ false
  unfolding flush_all
  flush_all-settles c s k z o h =
      let r = flush_from-Settled cache_size 0 c.entries s true (omega arith) o in
      r.done k (omega arith) (omega arith)
