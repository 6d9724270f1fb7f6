-- ===== src/Mem/Vma/Unmap.antt =====
-- `remove`, `remove_overlapping` and `find`: what they delete, keep and return.
use zenus.Base.{
  ℕ, zero, suc, ◌+◌, ◌<◌, ◌≡◌, refl, ap, ◌∙◌, sym, Bool, true, false, List, [], ◌∷◌, none, some,
  length, get_or, set, take, if◌then◌else◌, arith, Bool-cases, inl, inr, length-set, All,
  length-take_le, take-set_lt, Option-cases, subst, leb_no, leb, ◌≤◌,
}
use zenus.Mem.Vma.{
  VmaRegion, VmaTable, empty_region, max_vmas, remove, remove_overlapping, remove_overlapping_loop,
  live, position, overlaps, compact,
}
use zenus.Mem.Vma.Compact.{valid_only, compact_lem}
use zenus.Mem.Vma.Table.{IsMapping, IsValid, Separate, Clear}

-- The list without its entry `i`.
abbrev pub erase_at : ℕ → List VmaRegion → List VmaRegion
erase_at i [] = []
erase_at zero (r ∷ rs) = rs
erase_at (suc i) (r ∷ rs) = r ∷ erase_at i rs

abbrev pub reject : (VmaRegion → Bool) → List VmaRegion → List VmaRegion
reject p [] = []
reject p (r ∷ rs) = if p r then reject p rs else r ∷ reject p rs

All-erase_at {κ} :
    (P : VmaRegion → Type κ) (i : ℕ) (rs : List VmaRegion) → All P rs → All P (erase_at i rs)
All-erase_at P i [] a = a
All-erase_at P zero (r ∷ rs) a = a.1
All-erase_at P (suc i) (r ∷ rs) a = (a.0, All-erase_at P i rs a.1)

Separate-erase_at : (i : ℕ) (rs : List VmaRegion) → Separate rs → Separate (erase_at i rs)
Separate-erase_at i [] s = s
Separate-erase_at zero (r ∷ rs) s = s.1
Separate-erase_at (suc i) (r ∷ rs) s =
    (All-erase_at (Clear r.start r.end) i rs s.0, Separate-erase_at i rs s.1)

length-erase_at :
    (i : ℕ) (rs : List VmaRegion) → i < length rs → length (erase_at i rs) + 1 ≡ length rs
length-erase_at i [] h = absurd (omega arith)
length-erase_at zero (r ∷ rs) h = omega arith
length-erase_at (suc i) (r ∷ rs) h = omega (arith, length-erase_at i rs (omega arith))

valid_only_lem : (rs : List VmaRegion) → All IsMapping rs → valid_only rs ≡ rs
valid_only_lem [] a = refl
valid_only_lem (r ∷ rs) a = rw (a.0.is_valid, valid_only_lem rs a.1)

-- Marking an entry as gone and keeping the valid ones erases it.
valid_only-set :
    (i : ℕ) (rs : List VmaRegion) (g : VmaRegion)
    → g.valid ≡ false
    → i < length rs
    → All IsMapping rs
    → valid_only (set rs i g) ≡ erase_at i rs
valid_only-set i [] g e h a = absurd (omega arith)
valid_only-set zero (r ∷ rs) g e h a = rw (e, valid_only_lem rs a.1)
valid_only-set (suc i) (r ∷ rs) g e h a =
    rw (a.0.is_valid, valid_only-set i rs g e (omega arith) a.1)

pub record Removed (t : VmaTable) (i : ℕ) (out : Bool × VmaTable) : Type 0 where
  pub done : out.0 ≡ true
  pub rest : live out.1 ≡ erase_at i (live t)
  pub fewer : out.1.count + 1 ≡ t.count
  pub keeps : IsValid out.1

abbrev gone : VmaTable → ℕ → List VmaRegion
gone t i = set t.regions i (record (get_or t.regions i empty_region) { valid = false })

module _ (t : VmaTable) (i : ℕ) (v : IsValid t) (h : i < t.count) where
  abbrev swept : List VmaRegion × ℕ
  swept = compact t.count 0 0 (gone t i)

  abbrev mark : VmaRegion
  mark = record (get_or t.regions i empty_region) { valid = false }

  live-swept : take swept.1 swept.0 ≡ erase_at i (live t)
  live-swept =
      (compact_lem t.count 0 0 (gone t i) (omega arith)
        (omega (arith, length-set t.regions i mark))).kept
      ∙ rw (take-set_lt t.count i t.regions mark h) (
          valid_only-set i (live t) mark refl
            (omega (arith, length-take_le t.count t.regions (omega arith))) v.mappings)

  count-swept : swept.1 + 1 ≡ t.count
  count-swept =
      let c =
        compact_lem t.count 0 0 (gone t i) (omega arith)
          (omega (arith, length-set t.regions i mark)) in
      omega (
        arith,
        ap length live-swept,
        length-take_le swept.1 swept.0
            (omega (arith, c.bounded, c.same_length, length-set t.regions i mark)),
        length-erase_at i (live t) (omega (arith, length-take_le t.count t.regions (omega arith))),
        length-take_le t.count t.regions (omega arith),
      )

  swept-IsValid : IsValid (record t { regions = swept.0; count = swept.1 })
  swept-IsValid =
      let c =
        compact_lem t.count 0 0 (gone t i) (omega arith)
          (omega (arith, length-set t.regions i mark)) in
      record {
        slots = c.same_length ∙ length-set t.regions i mark ∙ v.slots;
        fits = omega (arith, count-swept);
        mappings =
            subst (All IsMapping) (sym live-swept) (All-erase_at IsMapping i (live t) v.mappings);
        separate = subst Separate (sym live-swept) (Separate-erase_at i (live t) v.separate);
      }

-- On a valid table, `remove` of an entry in use succeeds, takes just that entry out of the live
-- list, lowers the count by one and keeps the invariant.
pub remove-Removed : (t : VmaTable) (i : ℕ) → IsValid t → i < t.count → Removed t i (remove t i)
unfolding remove
remove-Removed t i v h = rw (leb_no t.count i h) (record {
  done = refl;
  rest = live-swept t i v h;
  fewer = count-swept t i v h;
  keeps = swept-IsValid t i v h;
})

position-none :
    (p : VmaRegion → Bool) (rs : List VmaRegion) → position p rs ≡ none → reject p rs ≡ rs
position-none p [] h = refl
position-none p (r ∷ rs) h = ground (arith, position-none p rs)

-- What `position` returns: an entry that passes, whose removal leaves the entries that fail.
pub record Found (p : VmaRegion → Bool) (rs : List VmaRegion) (i : ℕ) : Type 0 where
  pub inside : i < length rs
  pub passes : p (get_or rs i empty_region) ≡ true
  pub others : reject p (erase_at i rs) ≡ reject p rs

Found-suc :
    (p : VmaRegion → Bool) (r : VmaRegion) (rs : List VmaRegion) (i : ℕ)
    → p r ≡ false
    → Found p rs i
    → Found p (r ∷ rs) (suc i)
Found-suc p r rs i e f = record {
  inside = omega (arith, f.inside);
  passes = f.passes;
  others = rw (e, f.others);
}

pub position-Found :
    (p : VmaRegion → Bool) (rs : List VmaRegion) (i : ℕ) → position p rs ≡ some i → Found p rs i
position-Found p [] i h = cc
position-Found p (r ∷ rs) i h = elim (Bool-cases (p r)) [
  | inl e ↦
      let z : 0 ≡ i = ground arith in
      subst (Found p (r ∷ rs)) z (record { inside = omega arith; passes = e; others = rw e })
  | inr e ↦ elim (Option-cases (position p rs)) [
    | inl n ↦ ground arith
    | inr (j, f) ↦
        let z : suc j ≡ i = ground arith in
        subst (Found p (r ∷ rs)) z (Found-suc p r rs j e (position-Found p rs j f))
  ]
]

-- What the loop leaves, in terms of its own test.
record Left (t : VmaTable) (start end removed : ℕ) (out : ℕ × VmaTable) : Type 0 where
  rest : live out.1 ≡ reject (overlaps start end) (live t)
  counted : out.0 + out.1.count ≡ removed + t.count
  keeps : IsValid out.1

live_length : (t : VmaTable) → IsValid t → length (live t) ≡ t.count
live_length t v = length-take_le t.count t.regions (omega arith)

loop-Left :
    (fuel : ℕ) (t : VmaTable) (start end removed : ℕ)
    → IsValid t
    → t.count < fuel
    → Left t start end removed (remove_overlapping_loop fuel t start end removed)
unfolding remove_overlapping_loop
loop-Left zero t start end removed v h = absurd (omega arith)
loop-Left (suc fuel) t start end removed v h =
    elim (Option-cases (position (overlaps start end) (live t))) [
      | inl e ↦
          rw (e, remove_overlapping_loop)
            (record { rest = sym (position-none _ (live t) e); counted = refl; keeps = v })
      | inr (i, e) ↦
          let f = position-Found _ (live t) i e in
          let g = remove-Removed t i v (omega (arith, f.inside, live_length t v)) in
          rw (e, remove_overlapping_loop)
            (let ih =
                loop-Left fuel (remove t i).1 start end (removed + 1) g.keeps
                  (omega (arith, g.fewer)) in
              record {
                rest = ih.rest ∙ rw g.rest f.others;
                counted = omega (arith, ih.counted, g.fewer);
                keeps = ih.keeps;
              })
    ]

-- Some byte is both in the range [start, end) and in the region.
abbrev pub Touches : ℕ → ℕ → VmaRegion → Type 0
Touches start end r = (x : ℕ) × (start ≤ x) × (x < end) × (r.start ≤ x) × (x < r.end)

-- The second list is the first without the regions that the range touches, which are `n`.
pub data Without (start end : ℕ) : List VmaRegion → List VmaRegion → ℕ → Type 0 where
  done : Without start end [] [] 0
  kept :
      {r : VmaRegion} {rs out : List VmaRegion} {n : ℕ}
      → ¬ Touches start end r
      → Without start end rs out n
      → Without start end (r ∷ rs) (r ∷ out) n
  taken :
      {r : VmaRegion} {rs out : List VmaRegion} {n : ℕ}
      → Touches start end r
      → Without start end rs out n
      → Without start end (r ∷ rs) out (suc n)

overlaps-Touches :
    (start end : ℕ) (r : VmaRegion)
    → start < end
    → IsMapping r
    → overlaps start end r ≡ true
    → Touches start end r
overlaps-Touches start end r l m o = elim (Bool-cases (leb start r.start)) [
  | inl e ↦ (r.start, ground arith, ground arith, omega arith, m.nonempty)
  | inr e ↦ (start, omega arith, l, ground arith, ground arith)
]

overlaps-Clear :
    (start end : ℕ) (r : VmaRegion)
    → IsMapping r
    → overlaps start end r ≡ false
    → ¬ Touches start end r
overlaps-Clear start end r m o (x, a, b, c, d) = absurd (ground (arith, m.is_valid, o))

reject-Without :
    (start end : ℕ) (rs : List VmaRegion)
    → start < end
    → All IsMapping rs
    → (n : ℕ) × (n + length (reject (overlaps start end) rs) ≡ length rs)
      × Without start end rs (reject (overlaps start end) rs) n
reject-Without start end [] l a = (0, refl, done)
reject-Without start end (r ∷ rs) l a =
    let (n, c, w) = reject-Without start end rs l a.1 in
    elim (Bool-cases (overlaps start end r)) [
      | inl o ↦ rw o (suc n, omega (arith, c), taken (overlaps-Touches start end r l a.0 o) w)
      | inr o ↦ rw o (n, omega (arith, c), kept (overlaps-Clear start end r a.0 o) w)
    ]

-- What `remove_overlapping` of a range promises.
pub record Unmapped (t : VmaTable) (start end : ℕ) (out : ℕ × VmaTable) : Type 0 where
  pub rest : Without start end (live t) (live out.1) out.0
  pub counted : out.0 + out.1.count ≡ t.count
  pub keeps : IsValid out.1

-- On a valid table and for a range that is not empty, `remove_overlapping` leaves exactly the
-- mappings that have no byte in [start, end), in their order, returns how many it took out, and
-- keeps the invariant. The guard of its loop is never what ends it.
pub remove_overlapping-Unmapped :
    (t : VmaTable) (start end : ℕ)
    → start < end
    → IsValid t
    → Unmapped t start end (remove_overlapping t start end)
unfolding remove_overlapping
remove_overlapping-Unmapped t start end l v =
    let out = remove_overlapping_loop (max_vmas + 1) t start end 0 in
    let u : Left t start end 0 out =
      loop-Left (max_vmas + 1) t start end 0 v (omega (arith, v.fits)) in
    let (n, c, w) = reject-Without start end (live t) l v.mappings in
    let same : n ≡ out.0 =
      omega (arith, c, ap length u.rest, live_length t v, live_length out.1 u.keeps, u.counted) in
    record {
      rest =
          subst (λ k. Without start end (live t) (live out.1) k) same
            (subst (λ rs. Without start end (live t) rs n) (sym u.rest) w);
      counted = omega (arith, u.counted);
      keeps = u.keeps;
    }
