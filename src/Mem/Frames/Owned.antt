-- ===== src/Mem/Frames/Owned.antt =====
-- What is true of the frame allocator between two calls, and of the frames that callers hold.
use zenus.Base.{
  All-take, ℕ, ◌%◌, ◌≤◌, ◌<◌, ◌≡◌, ◌≢◌, ◌⊎◌, List, ◌∷◌, ◌++◌, length, Distinct, All, add64,
}
use zenus.Mem.Frames.{
  FrameAllocator, page_size, live, cursors, recycled, max_regions, free_stack_size,
}
use zenus.Mem.Frames.Scan.{phys_limit, InRange, Apart, IsCursor, PassedLow}

pub record IsValid (fa : FrameAllocator) : Type 0 where
  pub slots : length fa.regions ≡ max_regions
  pub cursor_slots : length fa.low_cursor ≡ max_regions
  pub stack_slots : length fa.free_stack ≡ free_stack_size
  pub fits : fa.region_count ≤ max_regions
  pub stack_fits : fa.free_count ≤ free_stack_size
  pub in_range : All InRange (live fa)
  pub next_range : fa.next_free ≤ phys_limit
  pub floor_le : fa.floor ≤ fa.next_free
  pub cursors_ok : All IsCursor fa.low_cursor
  pub apart : Apart (live fa)

pub live_cursors : (fa : FrameAllocator) → IsValid fa → All IsCursor (cursors fa)
live_cursors fa v = All-take IsCursor fa.region_count fa.low_cursor v.cursors_ok

-- Neither pass can come back to the frame.
pub record Passed (fa : FrameAllocator) (x : ℕ) : Type 0 where
  pub high : (x < fa.floor) ⊎ (x < fa.next_free)
  pub low : PassedLow fa.floor x (live fa) (cursors fa)
  pub aligned : x % page_size ≡ 0

-- The frames that callers hold and those on the recycled stack are all different, and both passes
-- are past them.
pub record Owned (fa : FrameAllocator) (held : List ℕ) : Type 0 where
  pub passed : All (Passed fa) (held ++ recycled fa)
  pub distinct : Distinct (held ++ recycled fa)

-- What a successful call of `alloc_frame` leaves, for callers that held `held` before.
pub record Served (fa : FrameAllocator) (held : List ℕ) (x : ℕ) (fa' : FrameAllocator)
    : Type 0 where
  pub fresh : All (λ y. x ≢ y) held
  pub aligned : x % page_size ≡ 0
  pub keeps : IsValid fa'
  pub owned : Owned fa' (x ∷ held)
  pub counted : fa'.used_memory ≡ add64 fa.used_memory page_size
