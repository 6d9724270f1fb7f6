-- ===== src/Fs/BlockCache/Requests.antt =====
-- The functions on the cache that the file systems call: `bc_invalidate` and `bc_invalidate_all` of
-- crates/zenus-fs/src/block_cache.rs, and the counters of crates/zenus-fs/src/io_scheduler.rs.
use zenus.Base.{
  ℕ, zero, suc, ◌+◌, ◌%◌, ◌^◌, ◌≡◌, Bool, true, false, if◌then◌else◌, none, some, List, [], ◌∷◌,
  arith, refl, set, add64,
}
use zenus.Fs.BlockCache.{
  Disk, BlockCache, CacheEntry, at, find_entry, holds, probe, flush_all, read_block, write_block,
}
use zenus.Fs.BlockCache.View.{view, view_miss}

unfoldable pub bc_invalidate : BlockCache → ℕ → ℕ → Bool × BlockCache
bc_invalidate c dev_id block = elim (find_entry c.entries dev_id block) [
  | none ↦ (false, c)
  | some idx ↦ (
    true,
    record c {
      entries = set c.entries idx (record (at c.entries idx) { valid = false; dirty = false });
    },
  )
]

-- The loop over `entries.iter_mut()`.
pub drop_lines : List CacheEntry → List CacheEntry
drop_lines [] = []
drop_lines (e ∷ es) = record e { valid = false; dirty = false } ∷ drop_lines es

pub record IoScheduler : Type 0 where
  pub total_ios : ℕ
  pub reads : ℕ
  pub writes : ℕ

unfoldable pub new_scheduler : IoScheduler
new_scheduler = record { total_ios = 0; reads = 0; writes = 0 }

drop_lines-at : (es : List CacheEntry) (k : ℕ) → (at (drop_lines es) k).valid ≡ false
unfolding drop_lines
drop_lines-at [] k = refl
drop_lines-at (e ∷ es) zero = refl
drop_lines-at (e ∷ es) (suc k) = drop_lines-at es k

probe-never :
    (p : CacheEntry → Bool) (es : List CacheEntry) (start n i : ℕ)
    → ((k : ℕ) → p (at es k) ≡ false)
    → probe p es start n i ≡ none
unfolding probe
probe-never p es start zero i h = refl
probe-never p es start (suc n) i h = rw (h, probe-never p es start n (i + 1) h)

drop_lines-miss : (es : List CacheEntry) (d b : ℕ) → find_entry (drop_lines es) d b ≡ none
unfolding find_entry
drop_lines-miss es d b =
    probe-never (holds d b) (drop_lines es) _ _ 0 (λ k. ground (arith, drop_lines-at es k))

module _ (disk : Disk) where
  open disk use {Store, read}

  pub bc_invalidate_all : BlockCache → Store → Bool × BlockCache × Store
  bc_invalidate_all c s =
      let (flushed, c', s') = flush_all disk c s in
      (flushed, record c' { entries = drop_lines c'.entries }, s')

  pub io_submit_read :
      IoScheduler
      → BlockCache
      → Store
      → ℕ
      → ℕ
      → List ℕ
      → Bool × IoScheduler × List ℕ × BlockCache × Store
  io_submit_read q c s dev_id block buf =
      let (result, buf', c', s') = read_block disk c s dev_id block buf in
      (
        result,
        if result
            then (record q { total_ios = add64 q.total_ios 1; reads = add64 q.reads 1 })
            else q,
        buf',
        c',
        s',
      )

  pub io_submit_write :
      IoScheduler → BlockCache → Store → ℕ → ℕ → List ℕ → Bool × IoScheduler × BlockCache × Store
  io_submit_write q c s dev_id block buf =
      let (result, c', s') = write_block disk c s dev_id block buf in
      (
        result,
        if result
            then (record q { total_ios = add64 q.total_ios 1; writes = add64 q.writes 1 })
            else q,
        c',
        s',
      )

  -- After `bc_invalidate_all` a client sees of every sector what the device has.
  pub bc_invalidate_all-view :
      (c : BlockCache) (s : Store) (d b : ℕ)
      → let o = bc_invalidate_all c s in view disk o.1 o.2 d b ≡ read o.2 d b
  unfolding bc_invalidate_all
  bc_invalidate_all-view c s d b =
      view_miss disk _ _ d b (drop_lines-miss (flush_all disk c s).1.entries d b)

  -- However a request ends, the total stays the sum of reads and writes, as u64 values.
  pub io_submit-Balanced :
      (q : IoScheduler) (c : BlockCache) (s : Store) (d b : ℕ) (buf : List ℕ)
      → q.total_ios ≡ (q.reads + q.writes) % 2 ^ 64
      → (let r = (io_submit_read q c s d b buf).1 in r.total_ios ≡ (r.reads + r.writes) % 2 ^ 64)
        × (let w = (io_submit_write q c s d b buf).1 in w.total_ios ≡ (w.reads + w.writes) % 2 ^ 64)
  unfolding io_submit_read io_submit_write
  io_submit-Balanced q c s d b buf h = (ground arith, ground arith)
