-- ===== src/Mem/Frames.antt =====
-- The physical frame allocator, crates/zenus-mem/src/frame_allocator.rs. Arrays are lists of their
-- length; entries at `region_count` (or `free_count`) and above are stale. u64 sums wrap.
pub mod Plan
pub mod Scan
pub mod Owned
pub mod Serve
pub mod Alloc
pub mod Recycle
pub mod History
pub mod Count
pub mod Tests
use zenus.Base.{
  ℕ, zero, suc, ◌+◌, ◌-◌, ◌*◌, ◌/◌, ◌%◌, ◌==◌, max, min, ltb, leb, if◌then◌else◌, Bool, true, false,
  not, ◌&&◌, ◌||◌, Option, none, some, List, [], ◌∷◌, get_or, set, take, replicate, add64, sub64,
  saturating_add64, page_down,
}

abbrev pub free_stack_size : ℕ
free_stack_size = 16384

abbrev pub max_regions : ℕ
max_regions = 64

abbrev pub page_size : ℕ
page_size = 4096

abbrev pub boot_stack_reserve : ℕ
boot_stack_reserve = 524288

-- An entry of the bootloader's memory map.
pub record MemoryRegion : Type 0 where
  pub base : ℕ
  pub length : ℕ
  pub kind : ℕ

pub is_usable : MemoryRegion → Bool
is_usable e = e.kind == 0

pub record MemRegion : Type 0 where
  pub base : ℕ
  pub length : ℕ

pub record FrameAllocator : Type 0 where
  pub regions : List MemRegion
  pub region_count : ℕ
  pub next_free : ℕ
  pub floor : ℕ
  pub low_cursor : List ℕ
  pub free_stack : List ℕ
  pub free_count : ℕ
  pub total_memory : ℕ
  pub used_memory : ℕ

abbrev pub no_region : MemRegion
no_region = record { base = 0; length = 0 }

abbrev pub region_end : MemRegion → ℕ
region_end r = add64 r.base r.length

-- `(x + 0xFFF) & !0xFFF`
abbrev pub page_up : ℕ → ℕ
page_up x = page_down (add64 x 4095)

abbrev pub live : FrameAllocator → List MemRegion
live fa = take fa.region_count fa.regions

abbrev pub cursors : FrameAllocator → List ℕ
cursors fa = take fa.region_count fa.low_cursor

-- `free_stack[..free_count]`
abbrev pub recycled : FrameAllocator → List ℕ
recycled fa = take fa.free_count fa.free_stack

-- The first loop of `alloc_frame`: the frame that the bump pointer reaches.
pub high_scan : List MemRegion → ℕ → Option ℕ
high_scan [] next_free = none
high_scan (r ∷ rs) next_free =
    let start = page_up (max r.base next_free) in
    if leb (add64 start page_size) (region_end r) then some start else high_scan rs next_free

-- The second loop: the index of the region that serves, and its cursor.
pub low_scan : List MemRegion → List ℕ → ℕ → ℕ → Option (ℕ × ℕ)
low_scan [] cs floor i = none
low_scan (r ∷ rs) [] floor i = none
low_scan (r ∷ rs) (c ∷ cs) floor i =
    let cursor = max c (page_up r.base) in
    if leb (add64 cursor page_size) (region_end r) && ltb cursor floor
    then some (i, cursor)
    else low_scan rs cs floor (i + 1)

pub alloc_frame : FrameAllocator → Option ℕ × FrameAllocator
unfolding high_scan low_scan
alloc_frame fa =
    if ltb 0 fa.free_count
    then (
      some (get_or fa.free_stack (fa.free_count - 1) 0),
      record fa { free_count = fa.free_count - 1; used_memory = add64 fa.used_memory page_size },
    )
    else elim (high_scan (live fa) fa.next_free) [
      | some start ↦ (
        some start,
        record fa {
          next_free = add64 start page_size;
          used_memory = add64 fa.used_memory page_size;
        },
      )
      | none ↦ elim (low_scan (live fa) (cursors fa) fa.floor 0) [
        | some (i, cursor) ↦ (
          some cursor,
          record fa {
            low_cursor = set fa.low_cursor i (add64 cursor page_size);
            used_memory = add64 fa.used_memory page_size;
          },
        )
        | none ↦ (none, fa)
      ]
    ]

abbrev pub contains : List ℕ → ℕ → Bool
contains [] a = false
contains (x ∷ xs) a = if x == a then true else contains xs a

pub free_frame : FrameAllocator → ℕ → FrameAllocator
free_frame fa a =
    if a == 0 || not (a % page_size == 0)
    then fa
    else if contains (recycled fa) a
    then fa
    else if ltb fa.free_count free_stack_size
    then (record fa {
      free_stack = set fa.free_stack fa.free_count a;
      free_count = fa.free_count + 1;
      used_memory = fa.used_memory - page_size;
    })
    else fa

pub high_frames_from : List MemRegion → ℕ → ℕ
high_frames_from [] cursor = 0
high_frames_from (r ∷ rs) cursor =
    let start = page_up (max r.base cursor) in
    let fits = leb (add64 start page_size) (region_end r) in
    let pages = (if fits then (region_end r - start) / page_size else 0) in
    pages + high_frames_from rs (if fits then start + pages * page_size else cursor)

pub high_pass_frames : FrameAllocator → ℕ
unfolding high_frames_from
high_pass_frames fa = high_frames_from (live fa) fa.next_free

pub low_frames_from : List MemRegion → List ℕ → ℕ → ℕ
low_frames_from [] cs floor = 0
low_frames_from (r ∷ rs) [] floor = 0
low_frames_from (r ∷ rs) (c ∷ cs) floor =
    let cursor = max c (page_up r.base) in
    let limit = min (region_end r) floor in
    let last = page_down (limit - page_size) in
    (if ltb limit page_size
      then 0
      else if leb cursor last
      then (last - cursor) / page_size + 1
      else 0)
    + low_frames_from rs cs floor

pub low_pass_frames : FrameAllocator → ℕ
unfolding low_frames_from
low_pass_frames fa = low_frames_from (live fa) (cursors fa) fa.floor

pub free_frames_count : FrameAllocator → ℕ
unfolding high_pass_frames low_pass_frames
free_frames_count fa = fa.free_count + high_pass_frames fa + low_pass_frames fa

pub clear_free_stack : FrameAllocator → FrameAllocator
clear_free_stack fa = record fa { free_count = 0 }
