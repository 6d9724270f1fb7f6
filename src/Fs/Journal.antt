-- ===== src/Fs/Journal.antt =====
-- The journal, crates/zenus-fs/src/journal.rs. Its atomics are a record, each call one step. The
-- block layer under it (`bc_read`, `bc_write`, `bc_flush`, `bc_invalidate` of block_cache.rs and the
-- device's write barrier) is an interface: `cache_blocks` fills it with the block cache.
pub mod Codec
pub mod Replay
pub mod Cached
pub mod Header
mod Tests
use zenus.Base.{
  ℕ, zero, suc, ◌+◌, ◌-◌, ◌%◌, ◌^◌, ◌==◌, min, ltb, leb, if◌then◌else◌, Bool, true, false, not,
  ◌&&◌, ◌||◌, Option, none, some, List, [], ◌∷◌, ◌++◌, length, get_or, set, take, drop, replicate,
  add64,
}
use zenus.Fs.BlockCache.{Disk, BlockCache, Sector, flush_all, read_block, write_block, copy_in}
use zenus.Fs.BlockCache.Requests.{bc_invalidate}
use zenus.Fs.Journal.Codec.{
  JournalHeader, blank, decode_header, encode_header, journal_magic, max_entries, put_word, u32_mod,
}

abbrev pub state_empty : ℕ
state_empty = 0

abbrev pub state_active : ℕ
state_active = 1

abbrev pub state_committed : ℕ
state_committed = 2

-- What a client of the block layer calls. A read is into a zeroed buffer of one sector.
pub record Blocks : Type 1 where
  pub State : Type 0
  pub bc_read : State → ℕ → ℕ → Option Sector × State
  pub bc_write : State → ℕ → ℕ → Sector → Bool × State
  pub bc_flush : State → Bool × State
  pub bc_invalidate : State → ℕ → ℕ → State
  pub device_flush : State → Bool × State

-- The atomics `JNL_…`.
pub record Journal : Type 0 where
  pub dev_id : ℕ
  pub start_block : ℕ
  pub num_blocks : ℕ
  pub sequence : ℕ
  pub active : Bool

pub fresh_journal : Journal
fresh_journal = record {
  dev_id = 0xFF;
  start_block = 0;
  num_blocks = 0;
  sequence = 0;
  active = false;
}

-- `num_blocks.saturating_sub(1)`
pub capacity_for_blocks : ℕ → ℕ
capacity_for_blocks num_blocks = min max_entries (num_blocks - 1)

pub data_block_for : ℕ → ℕ → ℕ → Option ℕ
unfolding capacity_for_blocks
data_block_for start_block num_blocks idx =
    if leb (capacity_for_blocks num_blocks) idx then none else some (start_block + 1 + idx)

pub replay_entry_limit : ℕ → ℕ → ℕ
unfolding capacity_for_blocks
replay_entry_limit num_entries num_blocks =
    min num_entries (min max_entries (capacity_for_blocks num_blocks))

-- The header, if the magic number is there.
abbrev pub parse_header : Sector → Option JournalHeader
parse_header buf = let h = decode_header buf in if h.magic == journal_magic then some h else none

-- The state that an operation of the journal works on.
pub record World (blk : Blocks) : Type 0 where
  pub jnl : Journal
  pub blocks : blk.State

module _ (blk : Blocks) where
  -- A step that may fail: `none` is the early `return false` (or `None`), with what was done so far.
  abbrev pub M : Type 0 → Type 0
  M A = World blk → Option A × World blk

  infixl 5 ◌>>=◌ ◌>>◌
  abbrev pub ◌>>=◌ : {A B : Type 0} → M A → (A → M B) → M B
  ◌>>=◌ m f w = let (r, w') = m w in elim r [ none ↦ (none, w') | some a ↦ f a w' ]

  abbrev pub ◌>>◌ : {B : Type 0} → M (Unit {0}) → M B → M B
  m >> k = m >>= λ _. k

  abbrev pub done : M (Unit {0})
  done w = (some tt, w)

  abbrev pub lift : {A : Type 0} → Option A → M A
  lift r w = (r, w)

  abbrev pub guard : Bool → M (Unit {0})
  guard true w = (some tt, w)
  guard false w = (none, w)

  -- `if !call() { return false; }`
  abbrev pub must : (blk.State → Bool × blk.State) → M (Unit {0})
  must call w = let (ok, b) = call w.blocks in guard ok (record w { blocks = b })

  -- A call whose result is not looked at.
  abbrev pub may : (blk.State → Bool × blk.State) → M (Unit {0})
  may call w = (some tt, record w { blocks = (call w.blocks).1 })

  abbrev pub load : ℕ → ℕ → M Sector
  load dev block w = let (r, b) = blk.bc_read w.blocks dev block in (r, record w { blocks = b })

  abbrev pub set_active : Bool → M (Unit {0})
  set_active v w = (some tt, record w { jnl = record w.jnl { active = v } })

  pub read_header : M JournalHeader
  read_header w = (load w.jnl.dev_id w.jnl.start_block >>= λ buf. lift (parse_header buf)) w

  abbrev pub write_header : JournalHeader → Journal → blk.State → Bool × blk.State
  write_header h j b = blk.bc_write b j.dev_id j.start_block (encode_header h)

  pub journal_init : ℕ → ℕ → ℕ → blk.State → Bool × World blk
  journal_init dev_id start_block num_blocks b =
      let hdr : JournalHeader = record {
        magic = journal_magic;
        sequence = 0;
        num_entries = 0;
        state = state_empty;
        reserved = 0;
        targets = replicate max_entries 0;
      } in
      let (w, b1) = blk.bc_write b dev_id start_block (encode_header hdr) in
      let (f, b2) = (if w then blk.bc_flush b1 else (false, b1)) in
      (
        f,
        record {
          jnl = record {
            dev_id = dev_id;
            start_block = start_block;
            num_blocks = num_blocks;
            sequence = 0;
            active = false;
          };
          blocks = blk.bc_invalidate b2 dev_id start_block;
        },
      )

  -- A failure after the `swap` gives the transaction up.
  abbrev pub or_inactive : {A : Type 0} → M A → M A
  or_inactive m w =
      let (r, w') = m w in
      elim r [
        | none ↦ (none, record w' { jnl = record w'.jnl { active = false } })
        | some a ↦ (some a, w')
      ]

  pub journal_begin : M (Unit {0})
  unfolding read_header
  journal_begin w =
      if w.jnl.dev_id == 0xFF || w.jnl.active
      then (none, w)
      else or_inactive
          (do
            h ← read_header
            must (write_header (record h { state = state_active }) w.jnl)
            must blk.bc_flush)
          (record w {
            jnl = record w.jnl { active = true; sequence = (w.jnl.sequence + 1) % u32_mod };
          })

  abbrev pub ready : Journal → Bool
  ready j = j.active && not (j.dev_id == 0xFF)

  -- `sector_buf[..copy_len].copy_from_slice(&data[..copy_len])`
  -- The header with one more entry.
  abbrev pub add_entry : JournalHeader → ℕ → JournalHeader
  add_entry h target_block = record h {
    targets = set h.targets h.num_entries target_block;
    num_entries = (h.num_entries + 1) % u32_mod;
  }

  -- What `journal_write` does once it has a block for the entry.
  abbrev pub put_entry : Journal → JournalHeader → ℕ → List ℕ → ℕ → M (Unit {0})
  put_entry j h target_block bytes data_block = do
    must (λ b. blk.bc_write b j.dev_id data_block (copy_in bytes blank))
    guard (leb target_block 0xFFFF_FFFF)
    must (write_header (add_entry h target_block) j)
    may blk.bc_flush

  abbrev pub write_entry : Journal → ℕ → List ℕ → JournalHeader → M (Unit {0})
  write_entry j target_block bytes h =
      lift (data_block_for j.start_block j.num_blocks h.num_entries)
      >>= put_entry j h target_block bytes

  pub journal_write : ℕ → List ℕ → M (Unit {0})
  unfolding read_header data_block_for
  journal_write target_block bytes w =
      (guard (ready w.jnl) >> read_header >>= write_entry w.jnl target_block bytes) w

  -- One round of phase 1 of `journal_commit`.
  pub copy_entry : JournalHeader → Journal → ℕ → M (Unit {0})
  copy_entry h j i =
      let target = get_or h.targets i 0 in
      if target == 0 then done else (do
        data_block ← lift (data_block_for j.start_block j.num_blocks i)
        sector ← load j.dev_id data_block
        must (λ b. blk.bc_write b j.dev_id target sector))

  -- Phase 1, with `n` entries left.
  pub copy_entries : JournalHeader → Journal → ℕ → ℕ → M (Unit {0})
  copy_entries h j zero i = done
  copy_entries h j (suc n) i = copy_entry h j i >> copy_entries h j n (i + 1)

  pub journal_commit : M (Unit {0})
  unfolding read_header copy_entry copy_entries
  journal_commit w =
      (do
        guard (ready w.jnl)
        h ← read_header
        copy_entries h w.jnl (replay_entry_limit h.num_entries w.jnl.num_blocks) 0
        may blk.bc_flush
        must blk.device_flush
        h1 ← read_header
        must (write_header (record h1 { state = state_committed }) w.jnl)
        may blk.bc_flush
        must blk.device_flush
        h2 ← read_header
        may (write_header (record h2 { num_entries = 0; state = state_empty }) w.jnl)
        may blk.bc_flush
        set_active false)
        w
