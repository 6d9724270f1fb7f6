-- ===== src/Fs/BlockCache/Seen.antt =====
-- `read_block` and `write_block` of crates/zenus-fs/src/block_cache.rs against a store of sectors
-- that is described without the functions of the cache, except its hash.
use zenus.Base.{
  ℕ, ◌+◌, ◌%◌, ◌≡◌, ◌<◌, ◌⊎◌, Bool, true, false, none, some, List, [], arith, inl, inr, sym, ap,
  ◌∙◌, length, Option-cases,
}
use zenus.Fs.BlockCache.{
  Disk, Sector, BlockCache, at, ways, find_entry, holds, hash, read_block, write_block,
}
use zenus.Fs.BlockCache.Probe.{slot, probe-none}
use zenus.Fs.BlockCache.Evict.{spare}
use zenus.Fs.BlockCache.Fill.{Works}
use zenus.Fs.BlockCache.View.{Sound, view, view_hit, view_miss, read_block-view}
use zenus.Fs.BlockCache.Write.{write_block-view}
use zenus.Fs.BlockCache.Window.{
  First-probe, Holds, Holds-holds, copy_in-put_over, copy_out-put_over, holds-Holds, none-probe,
  not-Holds, not-holds, probe-First, put_over,
}

module _ (disk : Disk) where
  open disk use {Store, read}

  -- The bytes of a sector that count: those in the first slot of its window, the four slots from its
  -- hash on, going round, that is in use for it; and where there is none, those on the device.
  pub data Seen (c : BlockCache) (s : Store) (d b : ℕ) (x : Sector) : Type 0 where
    cached :
        (t : ℕ)
        → t < 4
        → Holds d b (at c.entries ((hash d b + t) % 512))
        → ((u : ℕ) → u < t → ¬ Holds d b (at c.entries ((hash d b + u) % 512)))
        → (at c.entries ((hash d b + t) % 512)).bytes ≡ x
        → Seen c s d b x
    stored :
        ((u : ℕ) → u < 4 → ¬ Holds d b (at c.entries ((hash d b + u) % 512)))
        → read s d b ≡ some x
        → Seen c s d b x

  view-Seen :
      (c : BlockCache) (s : Store) (d b : ℕ) (x : Sector)
      → view disk c s d b ≡ some x
      → Seen c s d b x
  unfolding find_entry
  view-Seen c s d b x e = elim (Option-cases (find_entry c.entries d b)) [
    | inl h ↦
        stored
          (λ u l.
            not-Holds d b (at c.entries (slot (hash d b) u))
              (probe-none (holds d b) c.entries (hash d b) ways 0 h u (omega arith) (omega arith)))
          (sym (view_miss disk c s d b h) ∙ e)
    | inr (k, h) ↦
        let f = probe-First (holds d b) c.entries (hash d b) ways 0 k h in
        cached f.turn (omega (arith, f.to))
          (holds-Holds d b (at c.entries (slot (hash d b) f.turn)) f.passes)
          (λ u l. not-Holds d b (at c.entries (slot (hash d b) u)) (f.before u (omega arith) l))
          (ap (λ j. (at c.entries j).bytes) (sym f.is_slot)
            ∙ ap (λ o. elim o [ none ↦ [] | some y ↦ y ]) (sym (view_hit disk c s d b k h) ∙ e))
  ]

  Seen-view :
      (c : BlockCache) (s : Store) (d b : ℕ) (x : Sector)
      → Seen c s d b x
      → view disk c s d b ≡ some x
  unfolding find_entry
  Seen-view c s d b x (cached t l h f e) =
      view_hit disk c s d b (slot (hash d b) t) (
        First-probe (holds d b) c.entries (hash d b) ways 0 t (omega arith) (omega arith)
          (Holds-holds d b (at c.entries (slot (hash d b) t)) h)
          (λ j a m. not-holds d b (at c.entries (slot (hash d b) j)) (f j m)))
      ∙ ap some e
  Seen-view c s d b x (stored f e) =
      view_miss disk c s d b (
        none-probe (holds d b) c.entries (hash d b) ways 0
          (λ j a m. not-holds d b (at c.entries (slot (hash d b) j)) (f j (omega arith))))
      ∙ e

  -- Sectors have 512 bytes: those of the slots, and those that the devices have.
  pub record Whole (c : BlockCache) (s : Store) : Type 0 where
    pub in_slots : (k : ℕ) → length (at c.entries k).bytes ≡ 512
    pub on_devices : (d b : ℕ) (x : Sector) → read s d b ≡ some x → length x ≡ 512

  Seen-length :
      (c : BlockCache) (s : Store) (d b : ℕ) (x : Sector)
      → Whole c s
      → Seen c s d b x
      → length x ≡ 512
  Seen-length c s d b x w (cached t l h f e) = sym (ap length e) ∙ w.in_slots (slot (hash d b) t)
  Seen-length c s d b x w (stored f e) = w.on_devices d b x e

  -- What `read_block` promises of its result and its buffer.
  pub record Reads (c : BlockCache) (s : Store) (d b : ℕ) (buf : List ℕ)
      (out : Bool × List ℕ × BlockCache × Store) : Type 0 where
    pub right : out.0 ≡ true → (x : Sector) × Seen c s d b x × (out.1 ≡ put_over x buf)
    pub untouched : out.0 ≡ false → out.1 ≡ buf
    pub served : (x : Sector) → Seen c s d b x → Works disk → out.0 ≡ true

  -- On a sound cache of sectors of 512 bytes, a `read_block` that succeeds puts the bytes of the
  -- sector from the front over those of the buffer, as far as the buffer goes, and leaves the rest
  -- of the buffer; the bytes are those in the first slot of the sector's window that is in use for
  -- this device and block, or, without one, those on the device. A failure leaves the buffer as it
  -- was, and there is none where the sector is cached or can be read and the devices accept every
  -- write.
  pub read_block-Reads :
      (c : BlockCache) (s : Store) (d b : ℕ) (buf : List ℕ)
      → Sound c
      → Whole c s
      → Reads c s d b buf (read_block disk c s d b buf)
  read_block-Reads c s d b buf v w =
      let r = read_block-view disk c s d b buf v in
      record {
        right = λ o.
            let (x, e, q) = r.right o in
            let y = view-Seen c s d b x e in
            (x, y, q ∙ copy_out-put_over buf x (Seen-length c s d b x w y));
        untouched = r.untouched;
        served = λ x y k. r.served x (Seen-view c s d b x y) k;
      }

  -- On a sound cache of sectors of 512 bytes with a slot in the window of the sector that is not in
  -- use or not dirty, after a `write_block` that succeeds the bytes of the sector are those of the
  -- buffer, as far as the sector goes, and behind them those that the sector had before.
  pub write_block-Seen :
      (c : BlockCache) (s : Store) (d b t : ℕ) (buf : List ℕ)
      → Sound c
      → Whole c s
      → t < 4
      → ((at c.entries ((hash d b + t) % 512)).valid ≡ false)
        ⊎ ((at c.entries ((hash d b + t) % 512)).dirty ≡ false)
      → (write_block disk c s d b buf).0 ≡ true
      → (x : Sector) × Seen c s d b x
        × Seen
            (write_block disk c s d b buf).1
            (write_block disk c s d b buf).2
            d
            b
            (put_over buf x)
  write_block-Seen c s d b t buf v w l u o =
      let a : spare (at c.entries (slot (hash d b) t)) ≡ true = ground (arith, u) in
      let (x, e, q) = write_block-view disk c s d b t buf v l a o in
      let y = view-Seen c s d b x e in
      (
        x,
        y,
        view-Seen (write_block disk c s d b buf).1 (write_block disk c s d b buf).2 d b
            (put_over buf x) (q ∙ ap some (copy_in-put_over buf x (Seen-length c s d b x w y))),
      )
