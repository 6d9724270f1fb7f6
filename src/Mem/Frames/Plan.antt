-- ===== src/Mem/Frames/Plan.antt =====
-- How the allocator is filled: `reserve_region`, `reset` and `plan_regions` of
-- crates/zenus-mem/src/frame_allocator.rs.
pub mod Shift
pub mod Carve
pub mod Pieces
pub mod Loop
pub mod Tidy
pub mod Reserve
mod Tests
use zenus.Base.{
  ℕ, zero, suc, ◌+◌, ◌-◌, ◌*◌, ◌/◌, ◌%◌, ◌==◌, max, min, ltb, leb, if◌then◌else◌, Bool, true, false,
  not, ◌&&◌, ◌||◌, Option, none, some, List, [], ◌∷◌, get_or, set, take, replicate, add64, sub64,
  saturating_add64, page_down,
}
use zenus.Mem.Frames.{
  FrameAllocator, MemRegion, MemoryRegion, is_usable, no_region, region_end, page_up, page_size,
  max_regions, boot_stack_reserve,
}

-- `for j in i..count - 1 { a[j] = a[j + 1] }`, with `n` rounds left.
pub shift_down {ℓ} : {A : Type ℓ} → ℕ → ℕ → A → List A → List A
shift_down zero j d xs = xs
shift_down (suc n) j d xs = shift_down n (j + 1) d (set xs j (get_or xs (j + 1) d))

-- `while j > i + 1 { a[j] = a[j - 1]; j -= 1 }`, with `n` rounds left.
pub shift_up {ℓ} : {A : Type ℓ} → ℕ → ℕ → A → List A → List A
shift_up zero j d xs = xs
shift_up (suc n) j d xs = shift_up n (j - 1) d (set xs j (get_or xs (j - 1) d))

-- The branch for a region that the reservation covers.
pub drop_region : FrameAllocator → ℕ → FrameAllocator
unfolding shift_down
drop_region fa i =
    let n = fa.region_count - 1 - i in
    record fa {
      regions = shift_down n i no_region fa.regions;
      low_cursor = shift_down n i 0 fa.low_cursor;
      region_count = fa.region_count - 1;
    }

abbrev pub put_region : FrameAllocator → ℕ → MemRegion → FrameAllocator
put_region fa i r = record fa { regions = set fa.regions i r }

-- The tail of a region that is split: it goes in after entry `i`, if a slot is left.
pub insert_tail : FrameAllocator → ℕ → MemRegion → ℕ → FrameAllocator
unfolding shift_up
insert_tail fa i tail carried =
    if ltb fa.region_count max_regions
    then (let n = fa.region_count - (i + 1) in
        record fa {
          regions = set (shift_up n fa.region_count no_region fa.regions) (i + 1) tail;
          low_cursor = set (shift_up n fa.region_count 0 fa.low_cursor) (i + 1) carried;
          region_count = fa.region_count + 1;
        })
    else fa

-- One round of the loop of `reserve_region`, at an index in use.
pub reserve_step : ℕ → ℕ → FrameAllocator → ℕ → FrameAllocator × ℕ
unfolding drop_region insert_tail
reserve_step base end fa i =
    let r = get_or fa.regions i no_region in
    let r_end = region_end r in
    if leb end r.base || leb r_end base
    then (fa, i + 1)
    else if leb base r.base && leb r_end end
    then (drop_region fa i, i)
    else if leb base r.base
    then (put_region fa i (record { base = end; length = sub64 r_end end }), i + 1)
    else if leb r_end end
    then (put_region fa i (record { base = r.base; length = sub64 base r.base }), i + 1)
    else (
      insert_tail (put_region fa i (record { base = r.base; length = sub64 base r.base })) i
          (record { base = end; length = sub64 r_end end }) (max (get_or fa.low_cursor i 0) end),
      i + 1,
    )

pub reserve_loop : ℕ → ℕ → ℕ → FrameAllocator → ℕ → FrameAllocator
unfolding reserve_step
reserve_loop zero base end fa i = fa
reserve_loop (suc fuel) base end fa i = elim (ltb i fa.region_count) [
  | false ↦ fa
  | true ↦ let (fa', i') = reserve_step base end fa i in reserve_loop fuel base end fa' i'
]

-- What the rounding makes of a reservation.
abbrev pub reserved_base : ℕ → ℕ
reserved_base base = page_down base

abbrev pub reserved_end : ℕ → ℕ → ℕ
reserved_end base length = page_up (saturating_add64 (reserved_base base) length)

-- A round lowers twice the entries ahead plus the free slots, so this many rounds are enough.
abbrev pub reserve_fuel : ℕ
reserve_fuel = 129

pub reserve_region : FrameAllocator → ℕ → ℕ → FrameAllocator
reserve_region fa base length =
    if length == 0
    then fa
    else (let end = reserved_end base length in
        let fa' = reserve_loop reserve_fuel (reserved_base base) end fa 0 in
        if leb (reserved_base base) fa'.next_free && ltb fa'.next_free end
        then record fa' { next_free = end }
        else fa')

clear_prefix : ℕ → List ℕ → List ℕ
clear_prefix zero xs = xs
clear_prefix (suc n) [] = []
clear_prefix (suc n) (x ∷ xs) = 0 ∷ clear_prefix n xs

pub reset : FrameAllocator → FrameAllocator
unfolding clear_prefix
reset fa = record {
  regions = replicate max_regions no_region;
  region_count = 0;
  next_free = 0;
  floor = 0;
  low_cursor = replicate max_regions 0;
  free_stack = clear_prefix fa.free_count fa.free_stack;
  free_count = 0;
  total_memory = 0;
  used_memory = 0;
}

pub record AllocPlanInput : Type 0 where
  pub memory_map : List MemoryRegion
  pub kernel_image_base : ℕ
  pub kernel_image_end : ℕ
  pub boot_stack_phys : ℕ

-- The first loop of `plan_regions`.
pub seed_regions : List MemoryRegion → FrameAllocator → FrameAllocator
seed_regions [] fa = fa
seed_regions (e ∷ es) fa = seed_regions es (
    if is_usable e && ltb 0 e.length && ltb fa.region_count max_regions
    then (record fa {
      regions = set fa.regions fa.region_count (record { base = e.base; length = e.length });
      region_count = fa.region_count + 1;
    })
    else fa)

pub reserve_entries : List MemoryRegion → FrameAllocator → FrameAllocator
reserve_entries [] fa = fa
reserve_entries (e ∷ es) fa =
    reserve_entries es
      (if not (e.kind == 0) && ltb 0 e.length then reserve_region fa e.base e.length else fa)

-- The sum over the whole array.
pub sum_lengths : ℕ → List MemRegion → ℕ
sum_lengths total [] = total
sum_lengths total (r ∷ rs) = sum_lengths (add64 total r.length) rs

-- The end of the last kernel entry above `start`.
pub raise_start : List MemoryRegion → ℕ → ℕ
raise_start [] start = start
raise_start (e ∷ es) start =
    let candidate = add64 e.base e.length in
    raise_start es (if e.kind == 6 && ltb start candidate then candidate else start)

-- `x & !PAGE_SIZE_U64` clears bit 12 alone.
abbrev pub clear_bit12 : ℕ → ℕ
clear_bit12 x = if x / 4096 % 2 == 1 then x - 4096 else x

pub plan_regions : FrameAllocator → AllocPlanInput → FrameAllocator
unfolding is_usable reserve_entries seed_regions sum_lengths raise_start reset
plan_regions fa input =
    let seeded = seed_regions input.memory_map (reset fa) in
    let mapped = reserve_entries input.memory_map seeded in
    let imaged =
      (if ltb input.kernel_image_base input.kernel_image_end
        then reserve_region mapped input.kernel_image_base
            (input.kernel_image_end - input.kernel_image_base)
        else mapped) in
    let stacked =
      (if input.boot_stack_phys == 0
        then imaged
        else reserve_region imaged (clear_bit12 (input.boot_stack_phys - boot_stack_reserve))
            (boot_stack_reserve + page_size)) in
    let first = get_or stacked.regions 0 no_region in
    let line =
      (if ltb first.base 0x1000000 && ltb 0x1000000 (region_end first)
        then 0x1000000
        else first.base) in
    let next = (if ltb 0 stacked.region_count then raise_start input.memory_map line else 0) in
    record stacked { total_memory = sum_lengths 0 stacked.regions; next_free = next; floor = next }
