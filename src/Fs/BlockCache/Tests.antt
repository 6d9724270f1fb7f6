-- ===== src/Fs/BlockCache/Tests.antt =====
-- Runs of the block cache on a store that is a function, and the theorems at concrete caches.
use zenus.Base.{
  ◌+◌, ◌%◌, ◌⊎◌, inl, length, sym, ap, ◌∙◌, ℕ, zero, suc, ◌≡◌, ◌==◌, ◌&&◌, true, false, Option,
  none, some, [], ◌∷◌, refl, arith, get_or, replicate, if◌then◌else◌, length-replicate,
}
use zenus.Fs.BlockCache.{
  cache_size, flush_from, Disk, Sector, BlockCache, CacheEntry, empty_entry, at, new_cache,
  read_block, write_block, flush_all, find_entry, hash, fill, flush_entry, evict_one, probe,
  first_slot, sector_size,
}
use zenus.Fs.BlockCache.Evict.{DirtyValid, Full, spare}
use zenus.Fs.BlockCache.View.{view, Sound}
use zenus.Fs.BlockCache.Window.{put_over}
use zenus.Fs.BlockCache.Seen.{Reads, Seen, Whole, read_block-Reads, write_block-Seen}
use zenus.Fs.BlockCache.Write.{write_block_lost}
use zenus.Fs.BlockCache.Requests.{bc_invalidate}

abbrev Sectors : Type 0
Sectors = ℕ → ℕ → Option Sector

abbrev put : Sectors → ℕ → ℕ → Sector → Sectors
put s d b x d' b' = if d == d' && b == b' then some x else s d' b'

abbrev ram_disk : Disk
ram_disk = record {
  Store = Sectors;
  read = λ s d b. s d b;
  write = λ s d b x. (true, put s d b x);
  read-write = λ s d b x e. ground arith;
  write_failed = λ s d b x e. ground arith;
  read-write_ne = λ s d b d' b' x e. ground arith;
}

-- Every sector holds ones.
abbrev ones : Sectors
ones = λ d b. some (replicate sector_size 1)

get_or-replicate : (n k : ℕ) (e : CacheEntry) → get_or (replicate n e) k e ≡ e
get_or-replicate zero k e = refl
get_or-replicate (suc n) zero e = refl
get_or-replicate (suc n) (suc k) e = get_or-replicate n k e

new_cache-Sound : Sound new_cache
unfolding new_cache
new_cache-Sound = record {
  slots = length-replicate {A = CacheEntry} 512 empty_entry;
  dirty_valid = λ k h.
      rw (get_or-replicate 512 k empty_entry)
        (sym (ap (λ e. e.dirty) (get_or-replicate 512 k empty_entry)) ∙ h);
}

new-Whole : Whole ram_disk new_cache ones
unfolding new_cache
new-Whole = record {
  in_slots = λ k.
      ap (λ e. length e.bytes) (get_or-replicate 512 k empty_entry)
      ∙ length-replicate {A = ℕ} 512 0;
  on_devices = λ d b x e. sym (ap size e) ∙ length-replicate {A = ℕ} 512 1;
}
  where
    size : Option Sector → ℕ
    size none = 0
    size (some x) = length x

read_block-Reads_example :
    Reads ram_disk new_cache ones 0 7
      (replicate 512 0)
      (read_block ram_disk new_cache ones 0 7 (replicate 512 0))
read_block-Reads_example =
    read_block-Reads ram_disk new_cache ones 0 7 (replicate 512 0) new_cache-Sound new-Whole

new_clean :
    ((at new_cache.entries ((hash 0 7 + 0) % 512)).valid ≡ false)
    ⊎ ((at new_cache.entries ((hash 0 7 + 0) % 512)).dirty ≡ false)
unfolding new_cache hash
new_clean = inl refl

write_succeeds : (write_block ram_disk new_cache ones 0 7 (5 ∷ 6 ∷ [])).0 ≡ true
unfolding write_block fill flush_entry evict_one find_entry probe new_cache hash
write_succeeds = refl

write_block-Seen_example :
    let o = write_block ram_disk new_cache ones 0 7 (5 ∷ 6 ∷ []) in
    (x : Sector) × Seen ram_disk new_cache ones 0 7 x
    × Seen ram_disk o.1 o.2 0 7 (put_over (5 ∷ 6 ∷ []) x)
write_block-Seen_example =
    write_block-Seen ram_disk new_cache ones 0 7 0 (5 ∷ 6 ∷ []) new_cache-Sound new-Whole
      (omega arith) new_clean write_succeeds

dirty_entry : ℕ → CacheEntry
dirty_entry b = record {
  dev_id = 1;
  block = b;
  dirty = true;
  valid = true;
  bytes = replicate sector_size 9;
}

-- The window of sector 0 of device 0 is slots 0 to 3. Its entries are of another device.
packed : BlockCache
unfolding dirty_entry
packed = record {
  entries =
      dirty_entry 0 ∷ dirty_entry 1 ∷ dirty_entry 2 ∷ dirty_entry 3 ∷ replicate 508 empty_entry;
  hits = 0;
  misses = 0;
}

packed-DirtyValid : DirtyValid packed.entries
unfolding packed
packed-DirtyValid zero h = refl
packed-DirtyValid (suc zero) h = refl
packed-DirtyValid (suc (suc zero)) h = refl
packed-DirtyValid (suc (suc (suc zero))) h = refl
packed-DirtyValid (suc (suc (suc (suc k)))) h =
    rw (get_or-replicate 508 k empty_entry)
      (sym (ap (λ e. e.dirty) (get_or-replicate 508 k empty_entry)) ∙ h)

packed-Sound : Sound packed
unfolding packed
packed-Sound = record {
  slots = ap (λ n. suc (suc (suc (suc n)))) (length-replicate {A = CacheEntry} 508 empty_entry);
  dirty_valid = packed-DirtyValid;
}

packed-Full : Full packed.entries 0 0
unfolding packed hash
packed-Full zero h = refl
packed-Full (suc zero) h = refl
packed-Full (suc (suc zero)) h = refl
packed-Full (suc (suc (suc zero))) h = refl
packed-Full (suc (suc (suc (suc j)))) h = absurd (omega arith)

packed_miss : find_entry packed.entries 0 0 ≡ none
unfolding packed find_entry probe hash
packed_miss = refl

packed_spare : spare (at packed.entries 5) ≡ true
unfolding packed
packed_spare = refl

packed_succeeds : (write_block ram_disk packed ones 0 0 (5 ∷ 6 ∷ [])).0 ≡ true
unfolding write_block fill flush_entry evict_one find_entry probe first_slot packed hash
packed_succeeds = refl

write_block_lost_example :
    let o = write_block ram_disk packed ones 0 0 (5 ∷ 6 ∷ []) in
    view ram_disk o.1 o.2 0 0 ≡ view ram_disk packed ones 0 0
write_block_lost_example =
    write_block_lost ram_disk packed ones 0 0 5 (5 ∷ 6 ∷ []) packed-Sound packed_miss packed-Full
      (omega arith) packed_spare packed_succeeds

new_slots : length new_cache.entries ≡ cache_size
new_slots = new_cache-Sound.slots

flush_succeeds : (flush_all ram_disk new_cache ones).0 ≡ true
unfolding flush_all flush_from flush_entry new_cache
flush_succeeds = refl

not_cached : (bc_invalidate new_cache 0 7).0 ≡ false
unfolding bc_invalidate find_entry probe new_cache hash
not_cached = refl
