-- ===== src/Mem/Vma.antt =====
-- The table of virtual memory areas of a process, crates/zenus-mem/src/vma.rs. The array of 64
-- slots is a list of that length; the entries at `count` and above are stale and never read.
-- Addresses are u64 values. `x & !0xFFF` is `page_down x`.
pub mod Compact
pub mod Table
pub mod Unmap
pub mod Free
mod Tests
pub mod Lookup
use zenus.Base.{
  ℕ, zero, suc, ◌+◌, ◌/◌, ◌*◌, ◌^◌, ◌%◌, ◌-◌, ◌==◌, ltb, leb, if◌then◌else◌, Bool, true, false, not,
  ◌&&◌, ◌||◌, Option, none, some, List, [], ◌∷◌, length, get_or, set, take, replicate,
  saturating_add64, checked_add64, page_down,
}
use Prim.Native.Nat.{bit_and, bit_or}

abbrev pub max_vmas : ℕ
max_vmas = 64

abbrev pub max_mapping_size : ℕ
max_mapping_size = 0x7F00_0000_0000

abbrev pub prot_write : ℕ
prot_write = 2

abbrev pub prot_exec : ℕ
prot_exec = 4

abbrev pub page_user : ℕ
page_user = 4

abbrev pub page_writable : ℕ
page_writable = 2

abbrev pub page_no_execute : ℕ
page_no_execute = 2 ^ 63

pub record VmaRegion : Type 0 where
  pub start : ℕ
  pub end : ℕ
  pub prot : ℕ
  pub flags : ℕ
  pub file_offset : ℕ
  pub inode : ℕ
  pub valid : Bool

abbrev pub empty_region : VmaRegion
empty_region = record {
  start = 0;
  end = 0;
  prot = 0;
  flags = 0;
  file_offset = 0;
  inode = 0;
  valid = false;
}

pub contains : VmaRegion → ℕ → Bool
contains r addr = r.valid && leb r.start addr && ltb addr r.end

pub page_aligned_start : VmaRegion → ℕ
page_aligned_start r = page_down r.start

pub page_aligned_end : VmaRegion → ℕ
page_aligned_end r = page_down (saturating_add64 r.end 0xFFF)

-- The two `|=` in turn.
pub to_page_flags : VmaRegion → ℕ
to_page_flags r =
    let w = if bit_and r.prot prot_write == 0 then page_user else bit_or page_user page_writable in
    if bit_and r.prot prot_exec == 0 then bit_or w page_no_execute else w

pub record VmaTable : Type 0 where
  pub regions : List VmaRegion
  pub count : ℕ
  pub mmap_base : ℕ

pub new_table : VmaTable
new_table = record {
  regions = replicate max_vmas empty_region;
  count = 0;
  mmap_base = 0x2000_0000_0000;
}

-- What `iter().take(self.count)` and `for i in 0..self.count` walk over.
abbrev pub live : VmaTable → List VmaRegion
live t = take t.count t.regions

-- The overlap test of `insert` and `remove_overlapping`.
abbrev pub overlaps : ℕ → ℕ → VmaRegion → Bool
overlaps start end r = r.valid && ltb start r.end && ltb r.start end

-- The first index whose entry passes the test: a `for` loop that returns early.
abbrev pub position : (VmaRegion → Bool) → List VmaRegion → Option ℕ
position p [] = none
position p (r ∷ rs) =
    let rest = position p rs in
    if p r then some 0 else elim rest [ none ↦ none | some i ↦ some (suc i) ]

abbrev pub any : (VmaRegion → Bool) → List VmaRegion → Bool
any p [] = false
any p (r ∷ rs) = if p r then true else any p rs

-- The table after the call, and the index that it returns.
pub insert : VmaTable → ℕ → ℕ → ℕ → ℕ → Option ℕ × VmaTable
insert t start end prot flags =
    if leb end start
    then (none, t)
    else if ltb max_mapping_size end
    then (none, t)
    else if any (overlaps start end) (live t)
    then (none, t)
    else if leb max_vmas t.count
    then (none, t)
    else (
      some t.count,
      record t {
        regions = set t.regions t.count (record {
          start = start;
          end = end;
          prot = prot;
          flags = flags;
          file_offset = 0;
          inode = 0;
          valid = true;
        });
        count = t.count + 1;
      },
    )

pub find : VmaTable → ℕ → Option ℕ
unfolding contains
find t addr = position (λ r. contains r addr) (live t)

pub find_exact : VmaTable → ℕ → ℕ → Option ℕ
find_exact t start end = position (λ r. r.valid && r.start == start && r.end == end) (live t)

-- The loop of `remove`, with `n` reads left: entries that are valid move down to `write`.
pub compact : ℕ → ℕ → ℕ → List VmaRegion → List VmaRegion × ℕ
compact zero read write rs = (rs, write)
compact (suc n) read write rs =
    let r = get_or rs read empty_region in
    compact n (read + 1) (if r.valid then write + 1 else write)
      (if r.valid && not (write == read) then set rs write r else rs)

pub remove : VmaTable → ℕ → Bool × VmaTable
unfolding compact
remove t idx =
    if leb t.count idx
    then (false, t)
    else (let gone =
          set t.regions idx (record (get_or t.regions idx empty_region) { valid = false }) in
        let (rs, write) = compact t.count 0 0 gone in
        (true, record t { regions = rs; count = write }))

-- The `loop` of `remove_overlapping`: `fuel` is what the guard leaves.
pub remove_overlapping_loop : ℕ → VmaTable → ℕ → ℕ → ℕ → ℕ × VmaTable
unfolding remove
remove_overlapping_loop zero t start end removed = (removed, t)
remove_overlapping_loop (suc fuel) t start end removed =
    elim (position (overlaps start end) (live t)) [
      | none ↦ (removed, t)
      | some idx ↦ remove_overlapping_loop fuel (remove t idx).1 start end (removed + 1)
    ]

-- The guard lets `guard = 0, …, MAX_VMAS` through.
pub remove_overlapping : VmaTable → ℕ → ℕ → ℕ × VmaTable
unfolding remove_overlapping_loop
remove_overlapping t start end = remove_overlapping_loop (max_vmas + 1) t start end 0

-- The scan inside `find_free`: the end of the first region in the way.
pub bump : List VmaRegion → ℕ → ℕ → Option ℕ
bump [] candidate size = none
bump (r ∷ rs) candidate size =
    if r.valid && ltb candidate r.end && ltb r.start (saturating_add64 candidate size)
    then some r.end
    else bump rs candidate size

pub find_free_loop : ℕ → List VmaRegion → ℕ → ℕ → Option ℕ
unfolding bump
find_free_loop zero rs size candidate = none
find_free_loop (suc rounds) rs size candidate = elim (checked_add64 candidate size) [
  | none ↦ none
  | some end ↦ if ltb max_mapping_size end then none else elim (bump rs candidate size) [
    | none ↦ some candidate
    | some next ↦
        let rest = find_free_loop rounds rs size (page_down next) in
        if leb (page_down next) candidate then none else rest
  ]
]

pub find_free : VmaTable → ℕ → ℕ → Option ℕ
unfolding find_free_loop
find_free t size hint =
    if size == 0 || ltb max_mapping_size size
    then none
    else find_free_loop (max_vmas + 1) (live t) size (page_down hint)
