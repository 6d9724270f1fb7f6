-- ===== src/Mem/Vma/Lookup.antt =====
-- `find` and `find_exact` on a table whose mappings share no byte.
use zenus.Base.{
  ℕ, zero, suc, ◌<◌, ◌≡◌, List, [], ◌∷◌, ◌↔◌, some, length, true, false, get_or, arith, Bool-cases,
  inl, inr, All,
}
use zenus.Mem.Vma.{VmaRegion, VmaTable, empty_region, find, contains, live, position}
use zenus.Mem.Vma.Table.{IsValid, Clear, Separate}
use zenus.Mem.Vma.Unmap.{position-Found}

contains-Clear :
    (r s : VmaRegion) (a : ℕ) → Clear r.start r.end s → contains r a ≡ true → contains s a ≡ false
unfolding contains
contains-Clear r s a c h = ground arith

contains_none :
    (r : VmaRegion) (rs : List VmaRegion) (a i : ℕ)
    → All (Clear r.start r.end) rs
    → i < length rs
    → contains (get_or rs i empty_region) a ≡ true
    → contains r a ≡ false
contains_none r [] a i c h e = absurd (omega arith)
contains_none r (s ∷ rs) a zero c h e = elim (Bool-cases (contains r a)) [
  | inl k ↦ ground (arith, contains-Clear r s a c.0 k)
  | inr k ↦ k
]
contains_none r (s ∷ rs) a (suc i) c h e = contains_none r rs a i c.1 (omega arith) e

position-contains :
    (rs : List VmaRegion) (a i : ℕ)
    → Separate rs
    → i < length rs
    → contains (get_or rs i empty_region) a ≡ true
    → position (λ r. contains r a) rs ≡ some i
position-contains [] a i s h e = absurd (omega arith)
position-contains (r ∷ rs) a zero s h e = rw e
position-contains (r ∷ rs) a (suc i) s h e =
    rw (contains_none r rs a i s.0 (omega arith) e, position-contains rs a i s.1 (omega arith) e)

-- On a valid table an address has one mapping at most: `find` returns index `i` exactly when `i` is
-- the index of a live mapping that contains the address.
pub find_iff :
    (t : VmaTable) (a i : ℕ)
    → IsValid t
    → (find t a ≡ some i)
      ↔ ((i < length (live t)) × (contains (get_or (live t) i empty_region) a ≡ true))
unfolding find
find_iff t a i v = (
  λ e. let f = position-Found (λ r. contains r a) (live t) i e in (f.inside, f.passes),
  λ h. position-contains (live t) a i v.separate h.0 h.1,
)
