-- ===== src/Mem/Vma/Free.antt =====
-- `find_free`: the search_eq for a gap between the mappings, and the gap handed to `insert`.
use zenus.Base.{
  ℕ, zero, suc, ◌+◌, ◌≤◌, ◌<◌, ◌≡◌, ◌%◌, ◌∙◌, sym, List, [], ◌∷◌, ◌++◌, ltb, leb, Option, none,
  some, length, if◌then◌else◌, arith, inl, inr, All, length-take_le, Option-cases, leb_no, subst,
  page_down,
}
use zenus.Mem.Vma.{
  VmaRegion, VmaTable, max_vmas, max_mapping_size, live, bump, find_free_loop, find_free, insert,
}
use native.Mathlib.Decide.{dec_le, dec_lt}
use zenus.Mem.Vma.Table.{IsMapping, IsValid, Clear, insert-Room, mapping}

-- A page-aligned place for `size` bytes below the limit that touches no region of the list.
pub record Fits (rs : List VmaRegion) (size c : ℕ) : Type 0 where
  pub aligned : c % 4096 ≡ 0
  pub below : c + size ≤ max_mapping_size
  pub clear : All (Clear c (c + size)) rs

-- Every region ends on a page boundary.
abbrev pub PageEnds : List VmaRegion → Type 0
PageEnds = All (λ r. r.end % 4096 ≡ 0)

bump-none :
    (rs : List VmaRegion) (c size : ℕ)
    → c + size ≤ max_mapping_size
    → All IsMapping rs
    → bump rs c size ≡ none
    → All (Clear c (c + size)) rs
unfolding bump
bump-none [] c size h m e = tt
bump-none (r ∷ rs) c size h m e =
    let v = m.0.is_valid in (ground arith, bump-none rs c size h m.1 (ground arith))

-- How many regions end after `c`.
abbrev above : ℕ → List VmaRegion → ℕ
above c [] = 0
above c (r ∷ rs) = (if ltb c r.end then 1 else 0) + above c rs

above-le-length : (c : ℕ) (rs : List VmaRegion) → above c rs ≤ length rs
above-le-length c [] = omega arith
above-le-length c (r ∷ rs) = ground (arith, above-le-length c rs)

above_mono : (c d : ℕ) (rs : List VmaRegion) → c ≤ d → above d rs ≤ above c rs
above_mono c d [] h = omega arith
above_mono c d (r ∷ rs) h = ground (arith, above_mono c d rs h)

-- The region in the way: the candidate moves past its end, and no place before that end fits.
record Blocked (rs : List VmaRegion) (c size next : ℕ) : Type 0 where
  forward : c < next
  fewer : above next rs < above c rs

bump-Blocked :
    (rs : List VmaRegion) (c size next : ℕ) → bump rs c size ≡ some next → Blocked rs c size next
unfolding bump
bump-Blocked [] c size next e = cc
bump-Blocked (r ∷ rs) c size next e =
    ground (arith, bump-Blocked rs c size next, above_mono c r.end rs, above_mono c next rs)

bump-taken :
    (rs : List VmaRegion) (c size next d : ℕ)
    → c + size ≤ max_mapping_size
    → 0 < size
    → bump rs c size ≡ some next
    → c ≤ d
    → d < next
    → All (Clear d (d + size)) rs
    → ⊥
unfolding bump
bump-taken [] c size next d m z e lo hi a = cc
bump-taken (r ∷ rs) c size next d m z e lo hi a =
    ground
      (arith, λ (e' : bump rs c size ≡ some next). bump-taken rs c size next d m z e' lo hi a.1)

bump-aligned :
    (rs : List VmaRegion) (c size next : ℕ)
    → PageEnds rs
    → bump rs c size ≡ some next
    → next % 4096 ≡ 0
unfolding bump
bump-aligned [] c size next p e = cc
bump-aligned (r ∷ rs) c size next p e = ground (arith, bump-aligned rs c size next p.1)

-- One round: what it returns at once, and what it leaves to the rounds after it.
round-none :
    (rounds : ℕ) (rs : List VmaRegion) (size c : ℕ)
    → c + size ≤ max_mapping_size
    → bump rs c size ≡ none
    → find_free_loop (suc rounds) rs size c ≡ some c
unfolding find_free_loop
round-none rounds rs size c h e = ground arith

round-over :
    (rounds : ℕ) (rs : List VmaRegion) (size c : ℕ)
    → max_mapping_size < c + size
    → find_free_loop (suc rounds) rs size c ≡ none
unfolding find_free_loop
round-over rounds rs size c h = ground arith

round-bump :
    (rounds : ℕ) (rs : List VmaRegion) (size c next : ℕ)
    → c + size ≤ max_mapping_size
    → bump rs c size ≡ some next
    → find_free_loop (suc rounds) rs size c
      ≡ (if leb (page_down next) c then none else find_free_loop rounds rs size (page_down next))
unfolding find_free_loop
round-bump rounds rs size c next h e = ground arith

-- The loop returns nothing but a place that fits, at the candidate or after it.
loop-Fits :
    (rounds : ℕ) (rs : List VmaRegion) (size c : ℕ) {d : ℕ}
    → c % 4096 ≡ 0
    → All IsMapping rs
    → find_free_loop rounds rs size c ≡ some d
    → Fits rs size d × (c ≤ d)
unfolding find_free_loop
loop-Fits zero rs size c a m e = cc
loop-Fits (suc rounds) rs size c {d} a m e = elim (dec_le (c + size) max_mapping_size) [
  | yes h ↦ elim (Option-cases (bump rs c size)) [
    | inl n ↦
        let z : c ≡ d = ground (arith, round-none rounds rs size c h n) in
        let f : Fits rs size c = record {
          aligned = a;
          below = h;
          clear = bump-none rs c size h m n;
        } in
        (subst (Fits rs size) z f, omega arith)
    | inr (next, b) ↦
        let ih = λ (q : find_free_loop rounds rs size (page_down next) ≡ some d).
          loop-Fits rounds rs size (page_down next) {d = d} (omega arith) m q in
        ground (arith, round-bump rounds rs size c next h b, ih)
  ]
  | no h ↦ ground (arith, round-over rounds rs size c (omega arith))
]

-- What the loop must return from `lo` on: the least place that fits, or nothing if none does.
abbrev Answer : List VmaRegion → ℕ → ℕ → Option ℕ → Type 0
Answer rs size lo none = (d : ℕ) → lo ≤ d → Fits rs size d → ⊥
Answer rs size lo (some c) = (d : ℕ) → lo ≤ d → d < c → Fits rs size d → ⊥

Answer-skip :
    (rs : List VmaRegion) (size lo next : ℕ) (o : Option ℕ)
    → ((d : ℕ) → lo ≤ d → d < next → Fits rs size d → ⊥)
    → Answer rs size next o
    → Answer rs size lo o
Answer-skip rs size lo next none skip a =
    λ d l f. elim (dec_lt d next) [ yes h ↦ skip d l h f | no h ↦ a d (omega arith) f ]
Answer-skip rs size lo next (some c) skip a =
    λ d l u f. elim (dec_lt d next) [ yes h ↦ skip d l h f | no h ↦ a d (omega arith) u f ]

module _ (rs : List VmaRegion) (size : ℕ) (z : 0 < size) (m : All IsMapping rs)
    (p : PageEnds rs) where
  loop-Answer :
      (rounds c : ℕ) → above c rs < rounds → Answer rs size c (find_free_loop rounds rs size c)
  loop-Answer zero c h = absurd (omega arith)
  loop-Answer (suc rounds) c h = elim (dec_le (c + size) max_mapping_size) [
    | yes k ↦ elim (Option-cases (bump rs c size)) [
      | inl n ↦ rw (round-none rounds rs size c k n) (λ d l u f. absurd (omega arith))
      | inr (next, b) ↦
          let bl = bump-Blocked rs c size next b in
          let al = bump-aligned rs c size next p b in
          let pd : page_down next ≡ next = omega arith in
          let ah : above next rs < rounds = omega (arith, bl.fewer) in
          rw (round-bump rounds rs size c next k b, pd, leb_no next c bl.forward)
            (Answer-skip rs size c next (find_free_loop rounds rs size next)
              (λ d l u f. bump-taken rs c size next d k z b l u f.clear)
              (loop-Answer rounds next ah))
    ]
    | no k ↦
        rw (round-over rounds rs size c (omega arith)) (λ d l f. absurd (omega (arith, f.below)))
  ]

start_above : (t : VmaTable) (c : ℕ) → IsValid t → above c (live t) < max_vmas + 1
start_above t c v = omega (
  arith,
  above-le-length c (live t),
  length-take_le t.count t.regions (omega (arith, v.slots, v.fits)),
  v.fits,
)

-- Whatever `find_free` returns on a valid table is page-aligned, lies at or above the hint's page,
-- leaves room for `size` bytes below the limit, and touches no mapping.
pub find_free-Fits :
    (t : VmaTable) (size hint : ℕ) {c : ℕ}
    → IsValid t
    → find_free t size hint ≡ some c
    → Fits (live t) size c × (page_down hint ≤ c)
unfolding find_free
find_free-Fits t size hint {c} v e =
    loop-Fits (max_vmas + 1) (live t) size (page_down hint) {d = c} (omega arith) v.mappings
      (ground arith)

search_eq :
    (t : VmaTable) (size hint : ℕ)
    → 0 < size
    → size ≤ max_mapping_size
    → find_free t size hint ≡ find_free_loop (max_vmas + 1) (live t) size (page_down hint)
unfolding find_free
search_eq t size hint z h = ground arith

-- On a valid table whose mappings end on page boundaries, `find_free` gives up on a size that is in
-- range only if no page at or above the hint's has room for it: 65 rounds are enough.
pub find_free_complete :
    (t : VmaTable) (size hint d : ℕ)
    → IsValid t
    → PageEnds (live t)
    → 0 < size
    → size ≤ max_mapping_size
    → find_free t size hint ≡ none
    → page_down hint ≤ d
    → ¬ Fits (live t) size d
find_free_complete t size hint d v p z h e l =
    subst (Answer (live t) size (page_down hint)) (sym (search_eq t size hint z h) ∙ e)
      (loop-Answer (live t) size z v.mappings p (max_vmas + 1) (page_down hint) (start_above t _ v))
      d l

-- On a valid table whose mappings end on page boundaries, the place that `find_free` returns for
-- a size in range is the lowest page at or above the page of the hint that has room.
pub find_free_least :
    (t : VmaTable) (size hint c d : ℕ)
    → IsValid t
    → PageEnds (live t)
    → 0 < size
    → size ≤ max_mapping_size
    → find_free t size hint ≡ some c
    → page_down hint ≤ d
    → Fits (live t) size d
    → c ≤ d
find_free_least t size hint c d v p z h e l f = elim (dec_lt d c) [
  | yes k ↦ absurd (
      subst (Answer (live t) size (page_down hint)) (sym (search_eq t size hint z h) ∙ e)
        (loop-Answer (live t) size z v.mappings p (max_vmas + 1) (page_down hint)
          (start_above t _ v))
        d l k f)
  | no k ↦ omega arith
]

-- The two steps of `mmap`: where the table is valid and has a slot, a range that `find_free`
-- returned is accepted by `insert`, as a new last mapping.
pub insert-find_free :
    (t : VmaTable) (size hint prot flags c : ℕ)
    → IsValid t
    → 0 < size
    → t.count < max_vmas
    → find_free t size hint ≡ some c
    → let (i, t') = insert t c (c + size) prot flags in
      (i ≡ some t.count) × (live t' ≡ live t ++ (mapping c (c + size) prot flags ∷ []))
insert-find_free t size hint prot flags c v z s e =
    let f = (find_free-Fits t size hint {c = c} v e).0 in
    let r =
      insert-Room t c (c + size) prot flags v
        (record { nonempty = omega arith; below = f.below; clear = f.clear; slot = s }) in
    (r.0, r.1)
