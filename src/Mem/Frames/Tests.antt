-- ===== src/Mem/Frames/Tests.antt =====
-- Runs of the frame allocator, and the theorems about it at concrete states.
use zenus.Base.{ℕ, ◌≡◌, ◌<◌, refl, [], ◌∷◌, some, replicate, arith, length-replicate, Distinct}
use zenus.Mem.Frames.{
  FrameAllocator, MemRegion, no_region, alloc_frame, free_frames_count, clear_free_stack,
}
use zenus.Mem.Frames.Owned.{IsValid, Owned, Served}
use zenus.Mem.Frames.Alloc.{alloc_frame-Served}
use zenus.Mem.Frames.History.{World, here, next, serve, held_once}

abbrev pub low : MemRegion
low = record { base = 0x100000; length = 0x4000 }

abbrev pub high : MemRegion
high = record { base = 0x1000000; length = 0x8000 }

-- Two regions, the bump pointer at the 16 MiB line, nothing served yet.
abbrev pub start : FrameAllocator
start = record {
  regions = low ∷ high ∷ replicate 62 no_region;
  region_count = 2;
  next_free = 0x1000000;
  floor = 0x1000000;
  low_cursor = replicate 64 0;
  free_stack = replicate 16384 0;
  free_count = 0;
  total_memory = 0xC000;
  used_memory = 0;
}

pub start-IsValid : IsValid start
start-IsValid = record {
  slots = refl;
  cursor_slots = refl;
  stack_slots = length-replicate {A = ℕ} 16384 0;
  fits = omega arith;
  stack_fits = omega arith;
  in_range = omega arith;
  next_range = omega arith;
  floor_le = omega arith;
  cursors_ok = omega arith;
  apart = omega arith;
}

start-Owned : Owned start []
start-Owned = record { passed = tt; distinct = tt }

first_frame : (alloc_frame start).0 ≡ some 0x1000000
unfolding alloc_frame
first_frame = refl

count_start : free_frames_count start ≡ 12
unfolding free_frames_count
count_start = refl

cleared : (clear_free_stack start).free_count ≡ 0
unfolding clear_free_stack
cleared = refl

abbrev one_served : FrameAllocator
one_served = (alloc_frame start).1

one : Served start [] 0x1000000 one_served
one = alloc_frame-Served start [] 0x1000000 start-IsValid start-Owned first_frame

alloc_frame-Served_example : Served start [] 0x1000000 (alloc_frame start).1
alloc_frame-Served_example =
    alloc_frame-Served start [] 0x1000000 start-IsValid start-Owned first_frame

one_stack : one_served.free_count < 16384
unfolding alloc_frame
one_stack = omega arith

abbrev opening : World
opening = record { fa = start; held = [] }

abbrev served : World
served = record { fa = one_served; held = 0x1000000 ∷ [] }

held_once_example : Distinct (0x1000000 ∷ [])
held_once_example =
    held_once {u = opening} {v = served} (record { valid = start-IsValid; owned = start-Owned })
      (next here (serve opening 0x1000000 first_frame))
