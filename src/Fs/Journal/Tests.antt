-- ===== src/Fs/Journal/Tests.antt =====
-- Runs of the journal, and the theorem about its header on a store that is a function.
use zenus.Base.{
  ℕ, ◌≡◌, ◌==◌, ◌&&◌, true, false, Option, none, some, [], ◌∷◌, refl, arith, if◌then◌else◌,
  replicate,
}
use zenus.Fs.BlockCache.{
  Disk, Sector, evict_one, fill, find_entry, first_slot, flush_all, flush_entry, flush_from, hash,
  new_cache, probe, read_block, write_block,
}
use zenus.Fs.BlockCache.Requests.{bc_invalidate}
use zenus.Fs.Journal.Cached.{cache_blocks}
use zenus.Fs.Journal.{
  read_header, Blocks, World, copy_entries, copy_entry, journal_begin, journal_commit, journal_init,
  journal_write, replay_entry_limit, fresh_journal,
}
use zenus.Fs.Journal.Codec.{
  IsHeader, JournalHeader, blank, decode_header, encode_header, get_words, journal_magic, put_words,
}
use zenus.Fs.Journal.Header.{read_header-encode_header}

-- What is in every sector of every device.
abbrev View : Type 0
View = ℕ → ℕ → Option Sector

abbrev put : View → ℕ → ℕ → Sector → View
put s d b x d' b' = if d' == d && b' == b then some x else s d' b'

abbrev store : Blocks
store = record {
  State = View;
  bc_read = λ s d b. (s d b, s);
  bc_write = λ s d b x. (true, put s d b x);
  bc_flush = λ s. (true, s);
  bc_invalidate = λ s d b. s;
  device_flush = λ s. (true, s);
}

put_self : (s : View) (d b : ℕ) (x : Sector) → put s d b x d b ≡ some x
put_self s d b x = ground arith

-- Two entries, for sectors 100 and 200.
abbrev header : ℕ → JournalHeader
header state = record {
  magic = journal_magic;
  sequence = 1;
  num_entries = 2;
  state = state;
  reserved = 0;
  targets = 100 ∷ 200 ∷ replicate 121 0;
}

header-IsHeader : IsHeader (header 1)
header-IsHeader = record { words = omega arith; slots = refl }

-- The journal lies in sectors 10 to 25 of device 0; every other sector holds its number.
sectors : ℕ → View
sectors state d b =
    if b == 10 then some (encode_header (header state)) else some (b ∷ replicate 511 0)

abbrev world : ℕ → World store
world state = record {
  jnl = record { dev_id = 0; start_block = 10; num_blocks = 16; sequence = 1; active = true };
  blocks = sectors state;
}

there : (n : ℕ) → sectors n 0 10 ≡ some (encode_header (header n))
unfolding sectors
there n = refl

read_header-encode_header_example :
    read_header store (world 1) ≡ (some (header 1), record (world 1) { blocks = sectors 1 })
read_header-encode_header_example =
    read_header-encode_header store (world 1) (header 1) header-IsHeader (there 1)

-- A whole transaction on the store: the sector is written, and the journal is not active any more.
after_commit : Option (Unit {0}) × World store
unfolding journal_begin journal_write journal_commit journal_init
after_commit =
    let w = (journal_init store 0 10 16 (sectors 0)).1 in
    let w1 = (journal_begin store w).1 in
    journal_commit store (journal_write store 300 (7 ∷ 8 ∷ []) w1).1

commit_writes :
    (after_commit.1.blocks 0 300 ≡ some (7 ∷ 8 ∷ replicate 510 0))
    × (after_commit.1.jnl.active ≡ false)
unfolding after_commit decode_header encode_header get_words put_words copy_entries copy_entry
    sectors replay_entry_limit
commit_writes = (refl, refl)

not_begun : (journal_begin store (record { jnl = fresh_journal; blocks = sectors 0 })).0 ≡ none
unfolding journal_begin fresh_journal
not_begun = refl

put_ne_flip :
    (s : View) (d b d' b' : ℕ) (x : Sector)
    → (d == d' && b == b') ≡ false
    → put s d b x d' b' ≡ s d' b'
put_ne_flip s d b d' b' x e = ground arith

-- The same transaction over the block cache, on a device of zeroed sectors: the sector is on the
-- device after the commit.
abbrev ram : Disk
ram = record {
  Store = View;
  read = λ s d b. s d b;
  write = λ s d b x. (true, put s d b x);
  read-write = λ s d b x e. put_self s d b x;
  write_failed = λ s d b x e. cc;
  read-write_ne = λ s d b d' b' x e. put_ne_flip s d b d' b' x e;
}

cached : World (cache_blocks ram)
unfolding journal_begin journal_write journal_commit journal_init new_cache
cached =
    let blk = cache_blocks ram in
    let w = (journal_init blk 0 10 16 (new_cache, λ d b. some blank)).1 in
    let w1 = (journal_begin blk w).1 in
    (journal_commit blk (journal_write blk 300 (7 ∷ 8 ∷ []) w1).1).1

cached_commit : cached.blocks.1 0 300 ≡ some (7 ∷ 8 ∷ replicate 510 0)
unfolding cached decode_header encode_header get_words put_words copy_entries copy_entry
    replay_entry_limit read_block write_block flush_all flush_from flush_entry fill evict_one
    find_entry probe first_slot hash bc_invalidate new_cache
cached_commit = refl
