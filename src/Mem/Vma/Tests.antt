-- ===== src/Mem/Vma/Tests.antt =====
-- Runs of the mapping table, and the theorems about it at concrete tables.
use zenus.Base.{◌≡◌, refl, [], ◌∷◌, none, some, replicate, arith}
use zenus.Mem.Vma.{
  VmaTable, empty_region, page_aligned_start, page_aligned_end, to_page_flags, new_table, live,
  find_exact, remove_overlapping, find_free,
}
use zenus.Mem.Vma.Table.{IsValid, Room, mapping}
use zenus.Mem.Vma.Unmap.{Unmapped, remove_overlapping-Unmapped}
use zenus.Mem.Vma.Free.{Fits, PageEnds, find_free_complete}

-- [0x1000, 0x3000) and [0x5000, 0x7000)
abbrev two : VmaTable
two = record {
  regions = mapping 0x1000 0x3000 3 1 ∷ mapping 0x5000 0x7000 1 1 ∷ replicate 62 empty_region;
  count = 2;
  mmap_base = 0x2000_0000_0000;
}

two-IsValid : IsValid two
two-IsValid = record {
  slots = refl;
  fits = omega arith;
  mappings = (
    record { is_valid = refl; nonempty = omega arith; below = omega arith },
    (record { is_valid = refl; nonempty = omega arith; below = omega arith }, tt),
  );
  separate = omega arith;
}

two-PageEnds : PageEnds (live two)
two-PageEnds = (refl, (refl, tt))

page_flags : to_page_flags (mapping 0x1000 0x3000 2 1) ≡ 0x8000_0000_0000_0006
unfolding to_page_flags
page_flags = refl

page_bounds :
    (page_aligned_start (mapping 0x1801 0x2801 0 0) ≡ 0x1000)
    × (page_aligned_end (mapping 0x1801 0x2801 0 0) ≡ 0x3000)
unfolding page_aligned_start page_aligned_end
page_bounds = (refl, refl)

exact : find_exact two 0x5000 0x7000 ≡ some 1
unfolding find_exact
exact = refl

fresh_is_empty : (new_table.count ≡ 0) × (live new_table ≡ [])
unfolding new_table
fresh_is_empty = (refl, refl)

gap : find_free two 0x2000 0x1234 ≡ some 0x3000
unfolding find_free
gap = refl

no_gap : find_free two 0x7F00_0000_0000 0 ≡ none
unfolding find_free
no_gap = refl

overlap_refused : ¬ Room two 0x2000 0x4000
overlap_refused r = let c = r.clear in omega arith

remove_overlapping-Unmapped_example :
    Unmapped two 0x2000 0x6000 (remove_overlapping two 0x2000 0x6000)
remove_overlapping-Unmapped_example =
    remove_overlapping-Unmapped two 0x2000 0x6000 (omega arith) two-IsValid

unmapped_all : (remove_overlapping two 0x2000 0x6000).0 ≡ 2
unfolding remove_overlapping
unmapped_all = refl

find_free_complete_example : ¬ Fits (live two) 0x7F00_0000_0000 0x4000
find_free_complete_example =
    find_free_complete two 0x7F00_0000_0000 0 0x4000 two-IsValid two-PageEnds (omega arith)
      (omega arith) no_gap (omega arith)
