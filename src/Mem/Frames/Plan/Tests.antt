-- ===== src/Mem/Frames/Plan/Tests.antt =====
-- Runs of `reserve_region` and `plan_regions`, and the theorems about them at concrete states.
use zenus.Base.{◌/◌, ◌+◌, ◌≡◌, ◌⊎◌, ◌≤◌, ◌<◌, refl, [], ◌∷◌, arith, inl, inr}
use zenus.Mem.Frames.{live}
use zenus.Mem.Frames.Plan.{AllocPlanInput, plan_regions, reserve_region, reserve_loop}
use zenus.Mem.Frames.Plan.Pieces.{Covers}
use zenus.Mem.Frames.Plan.Reserve.{
  Reservable, reserve_region_excludes, reserve_region_keeps, reserve_region_short,
}
use zenus.Mem.Frames.Tests.{low, high, start, start-IsValid}

middle : Reservable 0x1002000 0x1000
middle = record { nonempty = omega arith; below = omega arith }

reserved_middle :
    live (reserve_region start 0x1002000 0x1000)
    ≡ low
      ∷ record { base = 0x1000000; length = 0x2000 }
      ∷ record { base = 0x1003000; length = 0x5000 }
      ∷ []
unfolding reserve_region reserve_loop
reserved_middle = refl

Covers-before : Covers (live start) 0x1001000
Covers-before = inr (inl (omega arith))

Covers-after : Covers (live (reserve_region start 0x1002000 0x1000)) 0x1001000
unfolding reserve_region reserve_loop
Covers-after = inr (inl (omega arith))

reserve_region_excludes_example :
    Covers (live start) 0x1001000
    × ((0x1001000 / 4096 < 0x1002000 / 4096)
        ⊎ (0x1002000 / 4096 + (0x1000 + 4095) / 4096 ≤ 0x1001000 / 4096))
reserve_region_excludes_example =
    reserve_region_excludes 0x1002000 0x1000 middle start 0x1001000 start-IsValid Covers-after

reserve_region_keeps_example : Covers (live (reserve_region start 0x1002000 0x1000)) 0x1001000
reserve_region_keeps_example =
    reserve_region_keeps 0x1002000 0x1000 middle start 0x1001000 start-IsValid (omega arith)
      Covers-before (inl (omega arith))

-- A page asked for from 0x1002800 on: the bytes from 0x1003000 to 0x1003800 are not reserved.
reserve_region_short_example : Covers (live (reserve_region start 0x1002800 0x1000)) 0x1003400
reserve_region_short_example =
    reserve_region_short start 0x1002800 0x1000 0x1003400
      (record { nonempty = omega arith; below = omega arith }) start-IsValid (omega arith) refl
      (omega arith) (omega arith) (inr (inl (omega arith)))

-- The kernel image covers the first of two usable regions. One region of 0x8000 bytes is left, and
-- the total counts it twice: the array's last entry is stale.
abbrev image_input : AllocPlanInput
image_input = record {
  memory_map =
      record { base = 0x100000; length = 0x4000; kind = 0 }
      ∷ record { base = 0x1000000; length = 0x8000; kind = 0 }
      ∷ [];
  kernel_image_base = 0x100000;
  kernel_image_end = 0x104000;
  boot_stack_phys = 0;
}

total_counts_stale :
    let fa = plan_regions start image_input in (live fa ≡ high ∷ []) × (fa.total_memory ≡ 0x10000)
unfolding plan_regions reserve_region reserve_loop
total_counts_stale = (refl, refl)
