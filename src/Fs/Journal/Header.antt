-- ===== src/Fs/Journal/Header.antt =====
-- `read_header` and `write_header` of crates/zenus-fs/src/journal.rs, one after the other.
use zenus.Base.{◌≡◌, ◌==◌, if◌then◌else◌, some, none, refl}
use zenus.Fs.Journal.{Blocks, World, lift, load, parse_header, read_header, ◌>>=◌}
use zenus.Fs.Journal.Codec.{
  IsHeader, JournalHeader, decode-encode_header, encode_header, journal_magic,
}

parse-encode_header :
    (h : JournalHeader)
    → IsHeader h
    → parse_header (encode_header h) ≡ (if h.magic == journal_magic then some h else none)
parse-encode_header h v = rw (decode-encode_header h v) refl

-- On every block layer: where the sector of the header is one that was made of a header of u32
-- values, `read_header` gives this header back if its magic number is the journal's, and none if it
-- is another. It changes the atomics in neither case, and makes one read of the block layer.
pub read_header-encode_header :
    (blk : Blocks) (w : World blk) (h : JournalHeader)
    → IsHeader h
    → (blk.bc_read w.blocks w.jnl.dev_id w.jnl.start_block).0 ≡ some (encode_header h)
    → read_header blk w ≡ (
      if h.magic == journal_magic then some h else none,
      record w { blocks = (blk.bc_read w.blocks w.jnl.dev_id w.jnl.start_block).1 },
    )
unfolding read_header
read_header-encode_header blk w h v e =
    rw (read_header, ◌>>=◌, load, lift, e, parse-encode_header h v) refl
