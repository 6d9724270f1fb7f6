-- ===== src/Fs/Journal/Replay.antt =====
-- `journal_replay` of crates/zenus-fs/src/journal.rs.
use zenus.Base.{
  ℕ, zero, suc, ◌+◌, ◌==◌, if◌then◌else◌, Bool, true, false, not, Option, none, some, List, ◌++◌,
  get_or, take, drop,
}
use zenus.Fs.BlockCache.{Sector}
use zenus.Fs.Journal.{
  Blocks, World, data_block_for, replay_entry_limit, state_committed, state_empty,
}
use zenus.Fs.Journal.Codec.{decode_header, journal_magic, put_word}

module _ (blk : Blocks) where
  -- One round of `journal_replay`; `none` is the `break`.
  abbrev pub redo_entry : List ℕ → ℕ → ℕ → ℕ → ℕ → blk.State → Option blk.State
  redo_entry targets dev_id start_block num_blocks i b =
      let target = get_or targets i 0 in
      if target == 0 then some b else elim (data_block_for start_block num_blocks i) [
        | none ↦ none
        | some data_block ↦
            let (r, b1) = blk.bc_read b dev_id data_block in
            elim r [ none ↦ some b1 | some sector ↦ some (blk.bc_write b1 dev_id target sector).1 ]
      ]

  unfoldable pub redo_entries : List ℕ → ℕ → ℕ → ℕ → ℕ → ℕ → blk.State → blk.State
  redo_entries targets dev_id start_block num_blocks zero i b = b
  redo_entries targets dev_id start_block num_blocks (suc n) i b =
      elim (redo_entry targets dev_id start_block num_blocks i b) [
        | none ↦ b
        | some b' ↦ redo_entries targets dev_id start_block num_blocks n (i + 1) b'
      ]

  -- `buf[12..16].copy_from_slice(&JNL_STATE_EMPTY.to_ne_bytes())`
  abbrev pub retired : Sector → Sector
  retired buf = take 12 buf ++ put_word state_empty (drop 16 buf)

  unfoldable pub journal_replay : ℕ → ℕ → ℕ → World blk → Bool × World blk
  unfolding redo_entries
  journal_replay dev_id start_block num_blocks w =
      let (r, b) = blk.bc_read w.blocks dev_id start_block in
      let w1 = record w { blocks = b } in
      elim r [
        | none ↦ (false, w1)
        | some buf ↦
            let h = decode_header buf in
            let limit = replay_entry_limit h.num_entries num_blocks in
            if not (h.magic == journal_magic)
            then (false, w1)
            else if not (h.state == state_committed)
            then (true, w1)
            else if limit == 0
            then (true, w1)
            else (let b1 = redo_entries h.targets dev_id start_block num_blocks limit 0 b in
                let b2 = (blk.bc_flush b1).1 in
                let b3 = (blk.bc_write b2 dev_id start_block (retired buf)).1 in
                let b4 = (blk.bc_flush b3).1 in
                (
                  true,
                  record {
                    jnl = record {
                      dev_id = dev_id;
                      start_block = start_block;
                      num_blocks = num_blocks;
                      sequence = 0;
                      active = false;
                    };
                    blocks = blk.bc_invalidate b4 dev_id start_block;
                  },
                ))
      ]
