-- ===== src/Mem/Vma/Table.antt =====
-- The invariant of a table of mappings, and what `insert`, `remove` and `find` do to it.
use zenus.Base.{
  ℕ, ◌+◌, ◌≤◌, ◌<◌, ◌≡◌, ◌⊎◌, refl, true, false, List, [], ◌∷◌, ◌++◌, none, some, length, set, take,
  arith, length-set, take-set_self, All, All-append,
}
use native.Mathlib.Numerals.{add-one}
use zenus.Mem.Vma.{VmaRegion, VmaTable, max_vmas, max_mapping_size, insert, live, any, overlaps}

-- A live entry: a range that is not empty and ends below the limit.
pub record IsMapping (r : VmaRegion) : Type 0 where
  pub is_valid : r.valid ≡ true
  pub nonempty : r.start < r.end
  pub below : r.end ≤ max_mapping_size

-- The range [start, end) has no byte of the region.
abbrev pub Clear : ℕ → ℕ → VmaRegion → Type 0
Clear start end r = (end ≤ r.start) ⊎ (r.end ≤ start)

-- No two regions of the list share a byte.
abbrev pub Separate : List VmaRegion → Type 0
Separate [] = Unit
Separate (r ∷ rs) = All (Clear r.start r.end) rs × Separate rs

pub record IsValid (t : VmaTable) : Type 0 where
  pub slots : length t.regions ≡ max_vmas
  pub fits : t.count ≤ max_vmas
  pub mappings : All IsMapping (live t)
  pub separate : Separate (live t)

-- What `insert` demands of a range.
pub record Room (t : VmaTable) (start end : ℕ) : Type 0 where
  pub nonempty : start < end
  pub below : end ≤ max_mapping_size
  pub clear : All (Clear start end) (live t)
  pub slot : t.count < max_vmas

abbrev pub mapping : ℕ → ℕ → ℕ → ℕ → VmaRegion
mapping start end prot flags = record {
  start = start;
  end = end;
  prot = prot;
  flags = flags;
  file_offset = 0;
  inode = 0;
  valid = true;
}

pub any-Clear :
    (start end : ℕ) (rs : List VmaRegion)
    → any (overlaps start end) rs ≡ false
    → All IsMapping rs
    → All (Clear start end) rs
any-Clear start end [] h m = tt
any-Clear start end (r ∷ rs) h m =
    let v = m.0.is_valid in (ground arith, any-Clear start end rs (ground arith) m.1)

Clear-any :
    (start end : ℕ) (rs : List VmaRegion)
    → All (Clear start end) rs
    → any (overlaps start end) rs ≡ false
Clear-any start end [] c = refl
Clear-any start end (r ∷ rs) c = ground (arith, Clear-any start end rs c.1)

-- The list that a successful `insert` leaves.
live_grown :
    (t : VmaTable) (r : VmaRegion)
    → length t.regions ≡ max_vmas
    → t.count < max_vmas
    → take (t.count + 1) (set t.regions t.count r) ≡ live t ++ (r ∷ [])
live_grown t r e h = rw add-one (take-set_self t.count t.regions r (omega arith))

-- On a valid table, `insert` succeeds on a range that is not empty, ends below the limit, touches
-- no live mapping and finds a slot: it returns the index of a new last entry and keeps all others.
pub insert-Room :
    (t : VmaTable) (start end prot flags : ℕ)
    → IsValid t
    → Room t start end
    → let (i, t') = insert t start end prot flags in
      (i ≡ some t.count)
      × (live t' ≡ live t ++ (mapping start end prot flags ∷ []))
      × (t'.count ≡ t.count + 1)
unfolding insert
insert-Room t start end prot flags v r = ground (
  arith,
  Clear-any start end (live t) r.clear,
  live_grown t (mapping start end prot flags) v.slots r.slot,
)

-- On a valid table `insert` refuses any other range and leaves the table as it was.
pub insert-refuses :
    (t : VmaTable) (start end prot flags : ℕ)
    → IsValid t
    → ¬ Room t start end
    → insert t start end prot flags ≡ (none, t)
unfolding insert
insert-refuses t start end prot flags v n = ground (
  arith,
  any-Clear start end (live t),
  λ (a : start < end) (b : end ≤ max_mapping_size) (c : All (Clear start end) (live t))
        (d : t.count < max_vmas).
      n (record { nonempty = a; below = b; clear = c; slot = d }),
)

Separate-append :
    (rs : List VmaRegion) (r : VmaRegion)
    → Separate rs
    → All (Clear r.start r.end) rs
    → Separate (rs ++ (r ∷ []))
Separate-append [] r s c = (tt, tt)
Separate-append (x ∷ rs) r s c = (
  All-append (Clear x.start x.end) rs (r ∷ []) s.0 (ground arith, tt),
  Separate-append rs r s.1 c.1,
)

-- Whatever the arguments, `insert` keeps the invariant.
pub insert-IsValid :
    (t : VmaTable) (start end prot flags : ℕ)
    → IsValid t
    → IsValid (insert t start end prot flags).1
unfolding insert
insert-IsValid t start end prot flags v = ground (
  arith,
  any-Clear start end (live t),
  live_grown t (mapping start end prot flags) v.slots,
  length-set t.regions t.count (mapping start end prot flags),
  Separate-append (live t) (mapping start end prot flags) v.separate,
  All-append IsMapping (live t) (mapping start end prot flags ∷ []) v.mappings,
)
