-- ===== src/Mem/Vma/Compact.antt =====
-- The compaction loop of `remove` keeps exactly the valid entries, in order.
use mathlib.Core.List.{append_assoc, append-nil}
use zenus.Base.{
  ℕ, zero, suc, ◌+◌, ◌≤◌, ◌≡◌, refl, ◌∙◌, sym, ◌==◌, true, false, not, ◌&&◌, List, [], ◌∷◌, ◌++◌,
  length, get_or, set, take, drop, if◌then◌else◌, arith, Bool-cases, inl, inr, length-set, drop-suc,
  drop-set_lt, set-get_or, take-set_self, ==_iff,
}
use native.Mathlib.Numerals.{add-one}
use zenus.Mem.Vma.{VmaRegion, empty_region, compact}

abbrev pub valid_only : List VmaRegion → List VmaRegion
valid_only [] = []
valid_only (r ∷ rs) = if r.valid then r ∷ valid_only rs else valid_only rs

-- The code skips the copy of an entry on itself; the copy would change nothing.
copy :
    (rs : List VmaRegion) (write read : ℕ)
    → let r = get_or rs read empty_region in
      (if true && not (write == read) then set rs write r else rs) ≡ set rs write r
copy rs write read = elim (Bool-cases (write == read)) [
  | inl e ↦ rw e (rw ((==_iff write read).0 e) (sym (set-get_or rs read empty_region)))
  | inr e ↦ rw e
]

pub record Compacted (n read write : ℕ) (rs : List VmaRegion) (out : List VmaRegion × ℕ)
    : Type 0 where
  pub kept : take out.1 out.0 ≡ take write rs ++ valid_only (take n (drop read rs))
  pub same_length : length out.0 ≡ length rs
  pub bounded : out.1 ≤ write + n

-- One more round, in front of the rounds that are done.
module _ (n read write : ℕ) (rs : List VmaRegion) (out : List VmaRegion × ℕ) (h : write ≤ read)
    (k : suc (read + n) ≤ length rs) where
  rest : drop read rs ≡ get_or rs read empty_region ∷ drop (suc read) rs
  rest = drop-suc read rs empty_region (omega arith)

  grow :
      (get_or rs read empty_region).valid ≡ true
      → Compacted n (suc read) (suc write) (set rs write (get_or rs read empty_region)) out
      → Compacted (suc n) read write rs out
  grow v ih =
      let r = get_or rs read empty_region in
      record {
        kept =
            ih.kept
            ∙ rw (
              take-set_self write rs r (omega arith),
              drop-set_lt (suc read) write rs r (omega arith),
              rest,
              v,
              append_assoc,
            );
        same_length = ih.same_length ∙ length-set rs write r;
        bounded = omega (arith, ih.bounded);
      }

  skip :
      (get_or rs read empty_region).valid ≡ false
      → Compacted n (suc read) write rs out
      → Compacted (suc n) read write rs out
  skip v ih = record {
    kept = ih.kept ∙ rw (rest, v);
    same_length = ih.same_length;
    bounded = omega (arith, ih.bounded);
  }

pub compact_lem :
    (n read write : ℕ) (rs : List VmaRegion)
    → write ≤ read
    → read + n ≤ length rs
    → Compacted n read write rs (compact n read write rs)
unfolding compact
compact_lem zero read write rs h k = record {
  kept = sym (append-nil (take write rs));
  same_length = refl;
  bounded = omega arith;
}
compact_lem (suc n) read write rs h k =
    let r = get_or rs read empty_region in
    elim (Bool-cases (get_or rs read empty_region).valid) [
      | inl v ↦
          rw (v, copy rs write read, add-one, add-one)
            (grow n read write rs _ h (omega arith) v (
              compact_lem n (suc read) (suc write) (set rs write r) (omega arith)
                (omega (arith, length-set rs write r))))
      | inr v ↦
          rw (v, add-one)
            (skip n read write rs _ h (omega arith) v
              (compact_lem n (suc read) write rs (omega arith) (omega arith)))
    ]
