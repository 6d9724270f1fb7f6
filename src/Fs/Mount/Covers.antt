-- ===== src/Fs/Mount/Covers.antt =====
-- Which paths a mount covers, `mount_covers` of crates/zenus-fs/src/vfs.rs, against a comparison of the names
-- between the slashes.
use zenus.Base.{
  ℕ, ◌≡◌, ◌==◌, if◌then◌else◌, Bool, true, false, ◌&&◌, ◌||◌, List, [], ◌∷◌, length, drop, arith,
  refl, sym, ◌∙◌, Bool-cases, inl, inr,
}
use zenus.Fs.Cgroup.{same_bytes, slash}
use zenus.Fs.Mount.{at_boundary, is_nil, mount_covers, starts_with, trim_slashes}

-- A byte in front of the first name.
abbrev onto_first : ℕ → List (List ℕ) → List (List ℕ)
onto_first c [] = (c ∷ []) ∷ []
onto_first c (s ∷ ss) = (c ∷ s) ∷ ss

-- The names between the slashes, the empty ones too.
pub segments : List ℕ → List (List ℕ)
segments [] = [] ∷ []
segments (c ∷ cs) = let rest = segments cs in if c == 47 then [] ∷ rest else onto_first c rest

abbrev pub is_prefix : List (List ℕ) → List (List ℕ) → Bool
is_prefix [] ys = true
is_prefix (x ∷ xs) [] = false
is_prefix (x ∷ xs) (y ∷ ys) = same_bytes x y && is_prefix xs ys

abbrev not_empty : List (List ℕ) → Bool
not_empty [] = false
not_empty (s ∷ ss) = true

onto_first-not_empty : (c : ℕ) (ss : List (List ℕ)) → not_empty (onto_first c ss) ≡ true
onto_first-not_empty c [] = refl
onto_first-not_empty c (s ∷ ss) = refl

-- Names whose first begins with a byte come before no names that begin with an empty one, and not the other
-- way round, and not before those that begin with another byte.
onto_first_named : (b : ℕ) (xs ys : List (List ℕ)) → is_prefix ([] ∷ xs) (onto_first b ys) ≡ false
onto_first_named b xs [] = refl
onto_first_named b xs (y ∷ ys) = refl

empty_first : (c : ℕ) (xs ys : List (List ℕ)) → is_prefix (onto_first c xs) ([] ∷ ys) ≡ false
empty_first c [] ys = refl
empty_first c (x ∷ xs) ys = refl

other_first :
    (c b : ℕ) (xs ys : List (List ℕ))
    → (b == c) ≡ false
    → is_prefix (onto_first c xs) (onto_first b ys) ≡ false
other_first c b [] [] h = ground (arith, h)
other_first c b [] (y ∷ ys) h = ground (arith, h)
other_first c b (x ∷ xs) [] h = ground (arith, h)
other_first c b (x ∷ xs) (y ∷ ys) h = ground (arith, h)

is_prefix-onto_first :
    (c : ℕ) (xs ys : List (List ℕ))
    → not_empty xs ≡ true
    → not_empty ys ≡ true
    → is_prefix (onto_first c xs) (onto_first c ys) ≡ is_prefix xs ys
is_prefix-onto_first c [] ys h k = ground (arith, h)
is_prefix-onto_first c (x ∷ xs) [] h k = ground (arith, k)
is_prefix-onto_first c (x ∷ xs) (y ∷ ys) h k = ground arith

segments-not_empty : (cs : List ℕ) → not_empty (segments cs) ≡ true
unfolding segments
segments-not_empty [] = refl
segments-not_empty (c ∷ cs) = elim (Bool-cases (c == 47)) [
  | inl e ↦ rw e refl
  | inr e ↦ rw e (onto_first-not_empty c (segments cs))
]

no_names : (xs : List (List ℕ)) → not_empty xs ≡ true → is_prefix ([] ∷ xs) ([] ∷ []) ≡ false
no_names [] h = ground (arith, h)
no_names (x ∷ xs) h = refl

==_same : (c : ℕ) → (c == c) ≡ true
==_same c = ground arith

-- The root has no name.
trim_root :
    (mount : List ℕ)
    → (same_bytes mount slash || is_nil mount) ≡ true
    → is_nil (trim_slashes mount) ≡ true
unfolding trim_slashes
trim_root [] h = refl
trim_root (c ∷ []) h = ground (arith, h)
trim_root (c ∷ d ∷ cs) h = ground (arith, h)

-- Where the path begins with the bytes of the mount and goes on with a slash or ends, the names of the mount are the
-- first names of the path.
covers-segments :
    (path mount : List ℕ)
    → (starts_with path mount && at_boundary (drop (length mount) path))
      ≡ is_prefix (segments mount) (segments path)
unfolding segments
covers-segments [] [] = refl
covers-segments (b ∷ path) [] = elim (Bool-cases (b == 47)) [
  | inl e ↦ rw e refl
  | inr e ↦ rw e (sym (onto_first_named b [] (segments path)))
]
covers-segments [] (c ∷ mount) = elim (Bool-cases (c == 47)) [
  | inl e ↦ rw e (sym (no_names (segments mount) (segments-not_empty mount)))
  | inr e ↦ rw e (sym (empty_first c (segments mount) []))
]
covers-segments (b ∷ path) (c ∷ mount) = elim (Bool-cases (c == 47)) [
  | inl e ↦ elim (Bool-cases (b == 47)) [
    | inl f ↦ rw e (rw f (ground (arith, e, f, covers-segments path mount)))
    | inr f ↦
        rw e (rw f (ground (arith, e, f, onto_first_named b (segments mount) (segments path))))
  ]
  | inr e ↦ elim (Bool-cases (b == 47)) [
    | inl f ↦ rw e (rw f (ground (arith, e, f, empty_first c (segments mount) (segments path))))
    | inr f ↦ elim (Bool-cases (b == c)) [
      | inl g ↦
          let same : b ≡ c = ground (arith, g) in
          rw e (
            rw f (
              rw same (
                rw (==_same c) (
                  covers-segments path mount
                  ∙ sym (
                      is_prefix-onto_first c (segments mount) (segments path)
                        (segments-not_empty mount) (segments-not_empty path))))))
      | inr g ↦ rw e (rw f (rw g (sym (other_first c b (segments mount) (segments path) g))))
    ]
  ]
]

-- A mount covers a path exactly where its names are the first names of the path; the root and a mount with no
-- name cover the paths that begin with a slash.
pub mount_covers-segments :
    (path mount : List ℕ)
    → mount_covers path mount ≡ (
        if is_nil (trim_slashes mount)
        then starts_with path slash
        else is_prefix (segments (trim_slashes mount)) (segments path))
unfolding mount_covers trim_slashes
mount_covers-segments path mount =
    ground (arith, covers-segments path (trim_slashes mount), trim_root mount)
