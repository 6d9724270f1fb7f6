-- ===== src/Fs/BlockCache/Write.antt =====
-- What a write through the block cache does to what a client sees: `write_block` of
-- crates/zenus-fs/src/block_cache.rs.
use native.Mathlib.Decide.{ℕ_discrete}
use zenus.Base.{
  ℕ, ◌≡◌, ◌<◌, ◌≢◌, Bool, true, false, none, some, List, arith, inl, inr, subst, sym, ◌∙◌, ap,
  length, Option-cases, get_or-set_ne, get_or-set_self,
}
use zenus.Fs.BlockCache.{
  Disk, Sector, BlockCache, CacheEntry, empty_entry, at, cache_size, ways, find_entry, holds, hash,
  fill, write_block, store_in, copy_in,
}
use zenus.Fs.BlockCache.Probe.{slot, probe-Hit, probe-none, probe_cong, probe_only}
use zenus.Fs.BlockCache.Evict.{InWindow, Full, spare, evict_one-InWindow, evict_one-Full}
use zenus.Fs.BlockCache.Fill.{Filled, fill-Filled}
use zenus.Fs.BlockCache.View.{view, view_hit, view_miss, Sound, Victim-apart}

module _ (disk : Disk) where
  open disk use {Store, read}

  -- The cache after a write into slot `k`.
  abbrev stored : BlockCache → List CacheEntry → ℕ → List ℕ → BlockCache
  stored c es k buf = record c { entries = store_in disk es k buf }

  write_block_hit :
      (c : BlockCache) (s : Store) (d b k : ℕ) (buf : List ℕ)
      → find_entry c.entries d b ≡ some k
      → write_block disk c s d b buf ≡ (true, stored c c.entries k buf, s)
  unfolding write_block
  write_block_hit c s d b k buf h = ground arith

  write_block_miss :
      (c : BlockCache) (s : Store) (d b k : ℕ) (buf : List ℕ)
      → find_entry c.entries d b ≡ none
      → (fill disk c.entries s d b).0 ≡ some k
      → write_block disk c s d b buf
        ≡ (true, stored c (fill disk c.entries s d b).1 k buf, (fill disk c.entries s d b).2)
  unfolding write_block
  write_block_miss c s d b k buf h f = ground arith

  write_block_fails :
      (c : BlockCache) (s : Store) (d b : ℕ) (buf : List ℕ)
      → find_entry c.entries d b ≡ none
      → (fill disk c.entries s d b).0 ≡ none
      → (write_block disk c s d b buf).0 ≡ false
  unfolding write_block
  write_block_fails c s d b buf h f = ground arith

  stored-at :
      (c : BlockCache) (es : List CacheEntry) (k : ℕ) (buf : List ℕ)
      → k < length es
      → (at (stored c es k buf).entries k).bytes ≡ copy_in buf (at es k).bytes
  stored-at c es k buf l =
      ap (λ y. y.bytes)
        (get_or-set_self es k
          (record (at es k) { bytes = copy_in buf (at es k).bytes; dirty = true }) empty_entry l)

  find_entry_small :
      (es : List CacheEntry) (d b k : ℕ) → find_entry es d b ≡ some k → k < cache_size
  unfolding find_entry
  find_entry_small es d b k e =
      let r = probe-Hit (holds d b) es (hash d b) ways 0 k e in omega (arith, r.is_slot)

  -- Writing to the slot of a cached sector leaves the slots that hold it as they are.
  find_entry-hit_stored :
      (c : BlockCache) (d b k : ℕ) (buf : List ℕ)
      → find_entry c.entries d b ≡ some k
      → length c.entries ≡ cache_size
      → find_entry (stored c c.entries k buf).entries d b ≡ some k
  unfolding find_entry
  find_entry-hit_stored c d b k buf e z =
      let r = probe-Hit (holds d b) c.entries (hash d b) ways 0 k e in
      let m : CacheEntry = record (at c.entries k) {
        bytes = copy_in buf (at c.entries k).bytes;
        dirty = true;
      } in
      let g = get_or-set_self c.entries k m empty_entry (omega (arith, r.is_slot, z)) in
      probe_cong (holds d b) c.entries (stored c c.entries k buf).entries (hash d b) ways 0
        (λ j x y. elim (ℕ_discrete k (slot (hash d b) j)) [
          | no n ↦ ap (holds d b) (get_or-set_ne c.entries k (slot (hash d b) j) m empty_entry n)
          | yes q ↦
              subst
                (λ i.
                  holds d b (at (stored c c.entries k buf).entries i) ≡ holds d b (at c.entries i))
                q (ap (holds d b) g)
        ])
      ∙ e

  -- A sector that a miss put into its own window is found there.
  find_entry-miss_stored :
      (c : BlockCache) (s s' : Store) (es' : List CacheEntry) (d b k : ℕ) (buf : List ℕ)
      → find_entry c.entries d b ≡ none
      → Filled disk c.entries s d b k es' s'
      → length c.entries ≡ cache_size
      → InWindow d b k
      → find_entry (stored c es' k buf).entries d b ≡ some k
  unfolding find_entry
  find_entry-miss_stored c s s' es' d b k buf e f z w =
      let m : CacheEntry = record (at es' k) {
        bytes = copy_in buf (at es' k).bytes;
        dirty = true;
      } in
      let g = get_or-set_self es' k m empty_entry (omega (arith, w.is_slot, z, f.size)) in
      let here : holds d b (at es' k) ≡ true = ap (holds d b) f.here ∙ ground arith in
      probe_only (holds d b) (stored c es' k buf).entries (hash d b) ways 0 k w.turn
        (λ j x y n.
          let n' : k ≢ slot (hash d b) j = λ q. n (sym q) in
          ap (holds d b) (
            get_or-set_ne es' k (slot (hash d b) j) m empty_entry n'
            ∙ f.others (slot (hash d b) j) n')
          ∙ probe-none (holds d b) c.entries (hash d b) ways 0 e j x y)
        (ap (holds d b) g ∙ here) (omega arith) w.to w.is_slot

  -- A sector that a miss put outside its window is not found.
  find_entry-off_stored :
      (c : BlockCache) (s s' : Store) (es' : List CacheEntry) (d b k : ℕ) (buf : List ℕ)
      → find_entry c.entries d b ≡ none
      → Full c.entries d b
      → spare (at c.entries k) ≡ true
      → Filled disk c.entries s d b k es' s'
      → find_entry (stored c es' k buf).entries d b ≡ none
  unfolding find_entry
  find_entry-off_stored c s s' es' d b k buf e full u f =
      let m : CacheEntry = record (at es' k) {
        bytes = copy_in buf (at es' k).bytes;
        dirty = true;
      } in
      probe_cong (holds d b) c.entries (stored c es' k buf).entries (hash d b) ways 0 (λ j x y.
        let n : k ≢ slot (hash d b) j =
          λ q. absurd (ground (arith, sym u ∙ ap (λ i. spare (at c.entries i)) q ∙ full j y)) in
        ap (holds d b) (
          get_or-set_ne es' k (slot (hash d b) j) m empty_entry n ∙ f.others (slot (hash d b) j) n))
      ∙ e

  abbrev Seen : BlockCache → Store → ℕ → ℕ → List ℕ → Bool × BlockCache × Store → Type 0
  Seen c s d b buf o =
      (x : Sector) × (view disk c s d b ≡ some x) × (view disk o.1 o.2 d b ≡ some (copy_in buf x))

  -- On a sound cache with a spare slot in the window of the sector, a `write_block` that succeeds
  -- replaces the head of what a client saw of the sector by the buffer.
  pub write_block-view :
      (c : BlockCache) (s : Store) (d b t : ℕ) (buf : List ℕ)
      → Sound c
      → t < ways
      → spare (at c.entries (slot (hash d b) t)) ≡ true
      → (write_block disk c s d b buf).0 ≡ true
      → (x : Sector) × (view disk c s d b ≡ some x)
        × (view disk (write_block disk c s d b buf).1 (write_block disk c s d b buf).2 d b
            ≡ some (copy_in buf x))
  write_block-view c s d b t buf v l u o = elim (Option-cases (find_entry c.entries d b)) [
    | inr (k, h) ↦
        let small = find_entry_small c.entries d b k h in
        subst (Seen c s d b buf) (sym (write_block_hit c s d b k buf h)) (
          (at c.entries k).bytes,
          view_hit disk c s d b k h,
          view_hit disk (stored c c.entries k buf) s d b k
                (find_entry-hit_stored c d b k buf h v.slots)
              ∙ ap some (stored-at c c.entries k buf (omega (arith, small, v.slots))),
        )
    | inl h ↦ elim (Option-cases (fill disk c.entries s d b).0) [
      | inl f ↦ absurd (ground (arith, write_block_fails c s d b buf h f))
      | inr (k, f) ↦
          let g =
            fill-Filled disk c.entries s d b k v.slots (Victim-apart c.entries d b v.dirty_valid h)
              f in
          let es' = (fill disk c.entries s d b).1 in
          let s' = (fill disk c.entries s d b).2 in
          let w = evict_one-InWindow c.entries d b k t l u g.victim in
          subst (Seen c s d b buf) (sym (write_block_miss c s d b k buf h f)) (
            g.sector,
            view_miss disk c s d b h ∙ g.was,
            view_hit disk (stored c es' k buf) s' d b k
                  (find_entry-miss_stored c s s' es' d b k buf h g v.slots w)
                ∙ ap some (
                    stored-at c es' k buf (omega (arith, w.is_slot, v.slots, g.size))
                    ∙ ap (λ y. copy_in buf y.bytes) g.here),
          )
    ]
  ]

  -- Where no slot of the window is spare but one elsewhere is, and the sector is not cached, a
  -- `write_block` on a sound cache that reports success changes nothing of what a client sees of the
  -- sector: the bytes are in a slot that `find_entry` never looks at.
  pub write_block_lost :
      (c : BlockCache) (s : Store) (d b t : ℕ) (buf : List ℕ)
      → Sound c
      → find_entry c.entries d b ≡ none
      → Full c.entries d b
      → t < cache_size
      → spare (at c.entries t) ≡ true
      → (write_block disk c s d b buf).0 ≡ true
      → view disk (write_block disk c s d b buf).1 (write_block disk c s d b buf).2 d b
        ≡ view disk c s d b
  write_block_lost c s d b t buf v h full l u o =
      elim (Option-cases (fill disk c.entries s d b).0) [
        | inl f ↦ absurd (ground (arith, write_block_fails c s d b buf h f))
        | inr (k, f) ↦
            let g =
              fill-Filled disk c.entries s d b k v.slots
                (Victim-apart c.entries d b v.dirty_valid h) f in
            let es' = (fill disk c.entries s d b).1 in
            let s' = (fill disk c.entries s d b).2 in
            let m = evict_one-Full c.entries d b k t full l u g.victim in
            subst (λ o. view disk o.1 o.2 d b ≡ view disk c s d b)
              (sym (write_block_miss c s d b k buf h f))
              (view_miss disk (stored c es' k buf) s' d b
                  (find_entry-off_stored c s s' es' d b k buf h full m g)
                ∙ g.is
                ∙ sym g.was
                ∙ sym (view_miss disk c s d b h))
      ]
