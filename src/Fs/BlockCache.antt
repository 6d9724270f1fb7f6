-- ===== src/Fs/BlockCache.antt =====
-- The write-back block cache, crates/zenus-fs/src/block_cache.rs, and the I/O counters in front of
-- it, io_scheduler.rs. The devices that crates/zenus-fs/src/devfs.rs dispatches to are a parameter.
pub mod Probe
pub mod Evict
pub mod Fill
pub mod View
pub mod Write
pub mod Window
pub mod Seen
pub mod Flush
pub mod Requests
mod Tests
use Prim.Native.Nat.{bit_xor}
use zenus.Base.{
  ℕ, zero, suc, ◌+◌, ◌*◌, ◌/◌, ◌%◌, ◌^◌, ◌≡◌, ◌==◌, min, if◌then◌else◌, Bool, true, false, not,
  ◌&&◌, ◌||◌, Option, none, some, List, ◌++◌, length, get_or, set, take, drop, replicate, add64,
}

abbrev pub Sector : Type 0
Sector = List ℕ

-- The block devices: a read fails or gives a sector; a write says whether it succeeded. A write
-- that succeeds is what the next read gives, one that fails leaves the sector, and neither touches
-- another sector.
pub record Disk : Type 1 where
  pub Store : Type 0
  pub read : Store → ℕ → ℕ → Option Sector
  pub write : Store → ℕ → ℕ → Sector → Bool × Store
  pub read-write :
      (s : Store) (d b : ℕ) (x : Sector)
      → (write s d b x).0 ≡ true
      → read (write s d b x).1 d b ≡ some x
  pub write_failed :
      (s : Store) (d b : ℕ) (x : Sector)
      → (write s d b x).0 ≡ false
      → read (write s d b x).1 d b ≡ read s d b
  pub read-write_ne :
      (s : Store) (d b d' b' : ℕ) (x : Sector)
      → (d == d' && b == b') ≡ false
      → read (write s d b x).1 d' b' ≡ read s d' b'

abbrev pub cache_size : ℕ
cache_size = 512

abbrev pub sector_size : ℕ
sector_size = 512

abbrev pub ways : ℕ
ways = 4

-- `& (CACHE_SIZE - 1)` is `% 512`, and `h >> k` is `h / 2 ^ k`.
unfoldable pub hash : ℕ → ℕ → ℕ
hash dev_id block =
    let h = (dev_id * 0x9E3779B97F4A7C15 + block) % 2 ^ 64 in
    bit_xor (bit_xor (bit_xor h (h / 2 ^ 16)) (h / 2 ^ 32)) (h / 2 ^ 48) % cache_size

pub record CacheEntry : Type 0 where
  pub dev_id : ℕ
  pub block : ℕ
  pub dirty : Bool
  pub valid : Bool
  pub bytes : Sector

abbrev pub empty_entry : CacheEntry
empty_entry = record {
  dev_id = 0;
  block = 0;
  dirty = false;
  valid = false;
  bytes = replicate sector_size 0;
}

pub record BlockCache : Type 0 where
  pub entries : List CacheEntry
  pub hits : ℕ
  pub misses : ℕ

unfoldable pub new_cache : BlockCache
new_cache = record { entries = replicate cache_size empty_entry; hits = 0; misses = 0 }

abbrev pub at : List CacheEntry → ℕ → CacheEntry
at es i = get_or es i empty_entry

abbrev pub holds : ℕ → ℕ → CacheEntry → Bool
holds dev_id block e = e.valid && e.dev_id == dev_id && e.block == block

-- `for i in i..i + n` over the window of a block: the first slot that passes the test.
unfoldable pub probe : (CacheEntry → Bool) → List CacheEntry → ℕ → ℕ → ℕ → Option ℕ
probe p es start zero i = none
probe p es start (suc n) i =
    let rest = probe p es start n (i + 1) in
    let idx = (start + i) % cache_size in if p (at es idx) then some idx else rest

unfoldable pub find_entry : List CacheEntry → ℕ → ℕ → Option ℕ
find_entry es dev_id block = probe (holds dev_id block) es (hash dev_id block) ways 0

-- `for idx in 0..CACHE_SIZE`, with `n` slots left.
unfoldable pub first_slot : (CacheEntry → Bool) → List CacheEntry → ℕ → ℕ → Option ℕ
first_slot p es zero idx = none
first_slot p es (suc n) idx =
    let rest = first_slot p es n (idx + 1) in if p (at es idx) then some idx else rest

abbrev pub invalid : CacheEntry → Bool
invalid e = not e.valid

abbrev pub clean : CacheEntry → Bool
clean e = not e.dirty

abbrev pub or_else : Option ℕ → Option ℕ → Option ℕ
or_else (some i) o = some i
or_else none o = o

-- The four attempts in turn.
unfoldable pub evict_one : List CacheEntry → ℕ → ℕ → Option ℕ
evict_one es dev_id block =
    let start = hash dev_id block in
    or_else (probe invalid es start ways 0) (
      or_else (probe clean es start ways 0)
        (or_else (first_slot (λ e. invalid e || clean e) es cache_size 0) (some start)))

-- `buf[..len].copy_from_slice(&sector[..len])`
abbrev pub copy_out : List ℕ → Sector → List ℕ
copy_out buf sector = let len = min (length buf) sector_size in take len sector ++ drop len buf

-- `sector[..len].copy_from_slice(&buf[..len])`
abbrev pub copy_in : List ℕ → Sector → Sector
copy_in buf sector = let len = min (length buf) sector_size in take len buf ++ drop len sector

module _ (disk : Disk) where
  open disk use {Store, read, write}

  unfoldable pub flush_entry : List CacheEntry → Store → ℕ → Bool × List CacheEntry × Store
  flush_entry es s idx =
      let e = at es idx in
      let (ok, s') = write s e.dev_id e.block e.bytes in
      if e.dirty
      then (if ok then (true, set es idx (record e { dirty = false }), s') else (false, es, s'))
      else (true, es, s)

  -- What `read_block` and `write_block` share on a miss: choose a victim, flush it, read the sector
  -- from the device and put it in the victim's slot.
  unfoldable pub fill : List CacheEntry → Store → ℕ → ℕ → Option ℕ × List CacheEntry × Store
  unfolding flush_entry
  fill es s dev_id block = elim (evict_one es dev_id block) [
    | none ↦ (none, es, s)
    | some idx ↦
        let (flushed, es', s') = flush_entry es s idx in
        if flushed
        then (elim (read s' dev_id block) [
          | none ↦ (none, es', s')
          | some sector ↦ (
            some idx,
            set es' idx (record {
              dev_id = dev_id;
              block = block;
              dirty = false;
              valid = true;
              bytes = sector;
            }),
            s',
          )
        ])
        else (none, es', s')
  ]

  -- The result, the buffer, the cache and the devices after the call.
  unfoldable pub read_block :
      BlockCache → Store → ℕ → ℕ → List ℕ → Bool × List ℕ × BlockCache × Store
  unfolding fill
  read_block c s dev_id block buf = elim (find_entry c.entries dev_id block) [
    | some idx ↦
        (true, copy_out buf (at c.entries idx).bytes, record c { hits = add64 c.hits 1 }, s)
    | none ↦
        let (slot, es, s') = fill c.entries s dev_id block in
        let c' = record c { entries = es; misses = add64 c.misses 1 } in
        elim slot [
          | none ↦ (false, buf, c', s')
          | some idx ↦ (true, copy_out buf (at es idx).bytes, c', s')
        ]
  ]

  abbrev pub store_in : List CacheEntry → ℕ → List ℕ → List CacheEntry
  store_in es idx buf =
      set es idx (record (at es idx) { bytes = copy_in buf (at es idx).bytes; dirty = true })

  unfoldable pub write_block : BlockCache → Store → ℕ → ℕ → List ℕ → Bool × BlockCache × Store
  unfolding fill
  write_block c s dev_id block buf = elim (find_entry c.entries dev_id block) [
    | some idx ↦ (true, record c { entries = store_in c.entries idx buf }, s)
    | none ↦
        let (slot, es, s') = fill c.entries s dev_id block in
        elim slot [
          | none ↦ (false, record c { entries = es }, s')
          | some idx ↦ (true, record c { entries = store_in es idx buf }, s')
        ]
  ]

  -- The loop of `flush_all`, with `n` slots left.
  unfoldable pub flush_from :
      ℕ → ℕ → List CacheEntry → Store → Bool → Bool × List CacheEntry × Store
  unfolding flush_entry
  flush_from zero i es s success = (success, es, s)
  flush_from (suc n) i es s success =
      let e = at es i in
      let (ok, es', s') = flush_entry es s i in
      let due = e.valid && e.dirty in
      flush_from n (i + 1) (if due then es' else es) (if due then s' else s)
        (if due && not ok then false else success)

  unfoldable pub flush_all : BlockCache → Store → Bool × BlockCache × Store
  unfolding flush_from
  flush_all c s =
      let (ok, es, s') = flush_from cache_size 0 c.entries s true in
      (ok, record c { entries = es }, s')
