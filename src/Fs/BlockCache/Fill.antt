-- ===== src/Fs/BlockCache/Fill.antt =====
-- How a miss brings a sector into the block cache: `evict_one`, `flush_entry` and what follows them
-- in `read_block` and `write_block`, crates/zenus-fs/src/block_cache.rs.
use zenus.Base.{
  ℕ, ◌≡◌, ◌≢◌, ◌==◌, Bool, true, false, ◌&&◌, none, some, List, arith, inl, inr, subst, sym, ◌∙◌,
  length, set, Bool-cases, Option-cases, get_or-set_ne, get_or-set_self, length-set,
}
use zenus.Fs.BlockCache.{
  Disk, Sector, CacheEntry, empty_entry, at, cache_size, evict_one, flush_entry, fill,
}
use zenus.Fs.BlockCache.Evict.{Victim, evict_one-Victim, evict_one-total}

abbrev pub entry_of : ℕ → ℕ → Sector → CacheEntry
entry_of d b x = record { dev_id = d; block = b; dirty = false; valid = true; bytes = x }

module _ (disk : Disk) where
  open disk use {Store, read, write, read-write_ne}

  abbrev flushed : List CacheEntry → Store → ℕ → Bool × List CacheEntry × Store
  flushed es s k = flush_entry disk es s k

  pub flush_entry-others :
      (es : List CacheEntry) (s : Store) (k j : ℕ)
      → k ≢ j
      → at (flush_entry disk es s k).1 j ≡ at es j
  unfolding flush_entry
  flush_entry-others es s k j n = elim (Bool-cases (at es k).dirty) [
    | inr h ↦ rw h
    | inl h ↦ elim (Bool-cases (write s (at es k).dev_id (at es k).block (at es k).bytes).0) [
      | inl o ↦ rw (h, o, get_or-set_ne es k j (record (at es k) { dirty = false }) empty_entry n)
      | inr o ↦ rw (h, o)
    ]
  ]

  pub length-flush_entry :
      (es : List CacheEntry) (s : Store) (k : ℕ) → length (flush_entry disk es s k).1 ≡ length es
  unfolding flush_entry
  length-flush_entry es s k = elim (Bool-cases (at es k).dirty) [
    | inr h ↦ rw h
    | inl h ↦ elim (Bool-cases (write s (at es k).dev_id (at es k).block (at es k).bytes).0) [
      | inl o ↦ rw (h, o, length-set es k (record (at es k) { dirty = false }))
      | inr o ↦ rw (h, o)
    ]
  ]

  -- Flushing a slot that holds another sector leaves what the device has of this one.
  pub flush_entry-read :
      (es : List CacheEntry) (s : Store) (k d b : ℕ)
      → ((at es k).dirty ≡ true → ((at es k).dev_id == d && (at es k).block == b) ≡ false)
      → read (flush_entry disk es s k).2 d b ≡ read s d b
  unfolding flush_entry
  flush_entry-read es s k d b n = elim (Bool-cases (at es k).dirty) [
    | inr h ↦ rw h
    | inl h ↦
        let e = at es k in
        let r = read-write_ne s e.dev_id e.block d b e.bytes (n h) in
        elim (Bool-cases (write s e.dev_id e.block e.bytes).0) [
          | inl o ↦ rw (h, o, r)
          | inr o ↦ rw (h, o, r)
        ]
  ]

  -- What `fill` leaves when it gives a slot.
  pub record Filled (es : List CacheEntry) (s : Store) (d b k : ℕ) (es' : List CacheEntry)
      (s' : Store) : Type 0 where
    pub sector : Sector
    pub was : read s d b ≡ some sector
    pub is : read s' d b ≡ some sector
    pub here : at es' k ≡ entry_of d b sector
    pub others : (j : ℕ) → k ≢ j → at es' j ≡ at es j
    pub size : length es' ≡ length es
    pub victim : evict_one es d b ≡ some k

  fill_served :
      (es : List CacheEntry) (s : Store) (d b i : ℕ) (x : Sector)
      → evict_one es d b ≡ some i
      → (flush_entry disk es s i).0 ≡ true
      → read (flush_entry disk es s i).2 d b ≡ some x
      → fill disk es s d b
        ≡ (some i, set (flush_entry disk es s i).1 i (entry_of d b x), (flush_entry disk es s i).2)
  unfolding fill
  fill_served es s d b i x h o q = ground arith

  -- A miss whose victim is not a dirty copy of the sector asked for.
  pub fill-Filled :
      (es : List CacheEntry) (s : Store) (d b k : ℕ)
      → length es ≡ cache_size
      → ((j : ℕ)
          → Victim es d b j
          → (at es j).dirty ≡ true
          → ((at es j).dev_id == d && (at es j).block == b) ≡ false)
      → (fill disk es s d b).0 ≡ some k
      → Filled es s d b k (fill disk es s d b).1 (fill disk es s d b).2
  unfolding fill Victim
  fill-Filled es s d b k z n e = elim (Option-cases (evict_one es d b)) [
    | inl h ↦ absurd (ground arith)
    | inr (i, h) ↦
        let v = evict_one-Victim es d b i h in
        let r = flush_entry-read es s i d b (n i v) in
        let es1 = (flush_entry disk es s i).1 in
        let s1 = (flush_entry disk es s i).2 in
        elim (Bool-cases (flush_entry disk es s i).0) [
          | inr o ↦ absurd (ground arith)
          | inl o ↦ elim (Option-cases (read s1 d b)) [
            | inl q ↦ absurd (ground arith)
            | inr (x, q) ↦
                let w : i ≡ k = ground arith in
                let l = length-flush_entry es s i in
                subst (λ j. Filled es s d b j (fill disk es s d b).1 (fill disk es s d b).2) w
                  (subst (λ o. Filled es s d b i o.1 o.2) (sym (fill_served es s d b i x h o q))
                    (record {
                      sector = x;
                      was = sym r ∙ q;
                      is = q;
                      here =
                          get_or-set_self es1 i (entry_of d b x) empty_entry
                            (omega (arith, v.0, l));
                      others = λ j m.
                          get_or-set_ne es1 i j (entry_of d b x) empty_entry m
                          ∙ flush_entry-others es s i j m;
                      size = length-set es1 i (entry_of d b x) ∙ l;
                      victim = h;
                    }))
          ]
        ]
  ]

  -- Every write to a device succeeds.
  abbrev pub Works : Type 0
  Works = (t : Store) (d b : ℕ) (x : Sector) → (write t d b x).0 ≡ true

  flush_entry-Works :
      Works → (es : List CacheEntry) (s : Store) (k : ℕ) → (flush_entry disk es s k).0 ≡ true
  unfolding flush_entry
  flush_entry-Works w es s k =
      let o = w s (at es k).dev_id (at es k).block (at es k).bytes in
      elim (Bool-cases (at es k).dirty) [ inl h ↦ rw (h, o) | inr h ↦ rw h ]

  pub fill-Works :
      (es : List CacheEntry) (s : Store) (d b : ℕ) (x : Sector)
      → ((j : ℕ)
          → Victim es d b j
          → (at es j).dirty ≡ true
          → ((at es j).dev_id == d && (at es j).block == b) ≡ false)
      → Works
      → read s d b ≡ some x
      → (fill disk es s d b).0 ≢ none
  fill-Works es s d b x n w q e = elim (Option-cases (evict_one es d b)) [
    | inl h ↦ evict_one-total es d b h
    | inr (i, h) ↦
        let r = flush_entry-read es s i d b (n i (evict_one-Victim es d b i h)) in
        let f = fill_served es s d b i x h (flush_entry-Works w es s i) (r ∙ q) in
        absurd (ground (arith, f))
  ]
