-- ===== src/Fs/BlockCache/View.antt =====
-- What a client of the block cache sees: `read_block` and `write_block` of
-- crates/zenus-fs/src/block_cache.rs against a plain store of sectors.
use zenus.Base.{
  ℕ, ◌≡◌, ◌==◌, Bool, true, false, ◌&&◌, Option, none, some, List, arith, inl, inr, subst, sym, ap,
  length, Option-cases,
}
use zenus.Fs.BlockCache.{
  Disk, Sector, BlockCache, CacheEntry, at, cache_size, ways, find_entry, holds, hash, fill,
  read_block, copy_out,
}
use zenus.Fs.BlockCache.Probe.{probe-none}
use zenus.Fs.BlockCache.Evict.{Victim, DirtyValid}
use zenus.Fs.BlockCache.Fill.{fill-Filled, fill-Works, Works}

-- A slot that holds a sector which the search missed is not the victim while it is dirty.
pub Victim-apart :
    (es : List CacheEntry) (d b : ℕ)
    → DirtyValid es
    → find_entry es d b ≡ none
    → (j : ℕ) → Victim es d b j
    → (at es j).dirty ≡ true
    → ((at es j).dev_id == d && (at es j).block == b) ≡ false
unfolding Victim find_entry
Victim-apart es d b v m j w h =
    let u = v j h in
    let n = probe-none (holds d b) es (hash d b) ways 0 m 0 (omega arith) (omega arith) in
    elim w.1 [
      | inl x ↦ absurd (ground arith)
      | inr (inl x) ↦ absurd (ground arith)
      | inr (inr x) ↦
          let n' : holds d b (at es j) ≡ false =
            subst (λ k. holds d b (at es k) ≡ false) (sym x) n in
          ground arith
    ]

-- The cache has all its slots, and what is dirty is in use.
pub record Sound (c : BlockCache) : Type 0 where
  pub slots : length c.entries ≡ cache_size
  pub dirty_valid : DirtyValid c.entries

module _ (disk : Disk) where
  open disk use {Store, read, write, read-write_ne}

  -- The sector that a client sees: the cached copy, or what the device has.
  pub view : BlockCache → Store → ℕ → ℕ → Option Sector
  view c s d b = elim (find_entry c.entries d b) [
    | none ↦ read s d b
    | some k ↦ some (at c.entries k).bytes
  ]

  -- What `read_block` promises of its result and its buffer.
  pub record Views (c : BlockCache) (s : Store) (d b : ℕ) (buf : List ℕ)
      (out : Bool × List ℕ × BlockCache × Store) : Type 0 where
    pub right : out.0 ≡ true → (x : Sector) × (view c s d b ≡ some x) × (out.1 ≡ copy_out buf x)
    pub untouched : out.0 ≡ false → out.1 ≡ buf
    pub served : (x : Sector) → view c s d b ≡ some x → Works disk → out.0 ≡ true

  -- On a sound cache, `read_block` returns what a client sees of the sector, cut to the buffer, and
  -- on a failure leaves the buffer as it was. It does not fail where the sector can be seen and the
  -- devices accept every write.
  pub read_block-view :
      (c : BlockCache) (s : Store) (d b : ℕ) (buf : List ℕ)
      → Sound c
      → Views c s d b buf (read_block disk c s d b buf)
  unfolding read_block view
  read_block-view c s d b buf v = elim (Option-cases (find_entry c.entries d b)) [
    | inr (k, h) ↦ record {
      right = λ o. ((at c.entries k).bytes, ground arith, ground arith);
      untouched = λ o. ground arith;
      served = λ x e w. ground arith;
    }
    | inl h ↦
        let n = Victim-apart c.entries d b v.dirty_valid h in
        elim (Option-cases (fill disk c.entries s d b).0) [
          | inr (k, f) ↦
              let g = fill-Filled disk c.entries s d b k v.slots n f in
              let w = g.was in
              let e : (at (fill disk c.entries s d b).1 k).bytes ≡ g.sector =
                ap (λ y. y.bytes) g.here in
              record {
                right = λ o. (g.sector, ground arith, ground arith);
                untouched = λ o. ground arith;
                served = λ x q w'. ground arith;
              }
          | inl f ↦ record {
            right = λ o. ground arith;
            untouched = λ o. ground arith;
            served = λ x q w. absurd (fill-Works disk c.entries s d b x n w (ground arith) f);
          }
        ]
  ]

  pub view_hit :
      (c : BlockCache) (s : Store) (d b k : ℕ)
      → find_entry c.entries d b ≡ some k
      → view c s d b ≡ some (at c.entries k).bytes
  unfolding view
  view_hit c s d b k h = ground arith

  pub view_miss :
      (c : BlockCache) (s : Store) (d b : ℕ)
      → find_entry c.entries d b ≡ none
      → view c s d b ≡ read s d b
  unfolding view
  view_miss c s d b h = ground arith
