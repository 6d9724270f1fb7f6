-- ===== src/Fs/Journal/Cached.antt =====
-- The block layer that the journal of crates/zenus-fs/src/journal.rs runs on: the block cache.
use zenus.Base.{true, none, some, if◌then◌else◌}
use zenus.Fs.BlockCache.{Disk, BlockCache, flush_all, read_block, write_block}
use zenus.Fs.BlockCache.Requests.{bc_invalidate}
use zenus.Fs.Journal.{Blocks}
use zenus.Fs.Journal.Codec.{blank}

-- No `device_flush` hook is registered, so the barrier succeeds.
abbrev pub cache_blocks : Disk → Blocks
cache_blocks disk = record {
  State = BlockCache × disk.Store;
  bc_read = λ s d b.
      let (ok, buf, c, t) = read_block disk s.0 s.1 d b blank in
      (if ok then some buf else none, (c, t));
  bc_write = λ s d b x. let (ok, c, t) = write_block disk s.0 s.1 d b x in (ok, (c, t));
  bc_flush = λ s. let (ok, c, t) = flush_all disk s.0 s.1 in (ok, (c, t));
  bc_invalidate = λ s d b. ((bc_invalidate s.0 d b).1, s.1);
  device_flush = λ s. (true, s);
}
