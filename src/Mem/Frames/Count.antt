-- ===== src/Mem/Frames/Count.antt =====
-- `free_frames_count` against what `alloc_frame` can serve.
use zenus.Base.{
  Bool, ℕ, ◌+◌, ◌-◌, ◌*◌, ◌/◌, ◌≡◌, Option, none, some, max, min, ltb, leb, if◌then◌else◌, ◌&&◌,
  add64, page_down,
}
use zenus.Mem.Frames.{MemRegion, FrameAllocator, page_size, page_up, region_end, free_frames_count}

-- The pages of one region from a cursor on, and the cursor that it leaves.
abbrev fits : MemRegion → ℕ → Bool
fits r n = leb (add64 (page_up (max r.base n)) page_size) (region_end r)

abbrev pages : MemRegion → ℕ → ℕ
pages r n = if fits r n then (region_end r - page_up (max r.base n)) / page_size else 0

abbrev after : MemRegion → ℕ → ℕ
after r n = if fits r n then page_up (max r.base n) + pages r n * page_size else n

-- The pages from `cursor` up to a region's end `e` and the floor.
abbrev below : ℕ → ℕ → ℕ → ℕ
below e floor cursor =
    let last = page_down (min e floor - page_size) in
    if ltb (min e floor) page_size
    then 0
    else if leb cursor last
    then (last - cursor) / page_size + 1
    else 0

abbrev low_fits : MemRegion → ℕ → ℕ → Bool
low_fits r c floor =
    leb (add64 (max c (page_up r.base)) page_size) (region_end r)
    && ltb (max c (page_up r.base)) floor

-- What `free_frames_count` promises of the next call of `alloc_frame`.
abbrev pub Counted : FrameAllocator → Option ℕ × FrameAllocator → Type 0
Counted fa (none, fa') = free_frames_count fa ≡ 0
Counted fa (some x, fa') = free_frames_count fa ≡ free_frames_count fa' + 1
