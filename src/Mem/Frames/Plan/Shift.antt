-- ===== src/Mem/Frames/Plan/Shift.antt =====
-- The two array shifts of `reserve_region` take an entry out of a prefix and make room for one.
use mathlib.Core.List.{append_assoc, append-nil}
use zenus.Base.{
  All, All-set, ℕ, zero, suc, ◌+◌, ◌-◌, ◌≤◌, ◌<◌, ◌≡◌, refl, ap, ◌∙◌, sym, subst, List, [], ◌∷◌,
  ◌++◌, length, get_or, set, take, drop, arith, length-set, take-suc, drop-suc, take-set_ge,
  take-set_lt, length-take_le, take-set_self, drop-set_lt, get_or-set_self, get_or-set_ne,
}
use mathlib.Core.Path.{ap₂}
use native.Mathlib.Numerals.{add-one}
use zenus.Mem.Frames.Plan.{shift_down, shift_up}

module _ {ℓ} {A : Type ℓ} (d : A) where
  pub length-shift_down : (n j : ℕ) (xs : List A) → length (shift_down n j d xs) ≡ length xs
  unfolding shift_down
  length-shift_down zero j xs = refl
  length-shift_down (suc n) j xs =
      length-shift_down n (j + 1) (set xs j (get_or xs (j + 1) d))
      ∙ length-set xs j (get_or xs (j + 1) d)

  pub length-shift_up : (n j : ℕ) (xs : List A) → length (shift_up n j d xs) ≡ length xs
  unfolding shift_up
  length-shift_up zero j xs = refl
  length-shift_up (suc n) j xs =
      length-shift_up n (j - 1) (set xs j (get_or xs (j - 1) d))
      ∙ length-set xs j (get_or xs (j - 1) d)

  -- `n` elements from `j` on, and the one after them
  take-drop-suc :
      (n j : ℕ) (xs : List A)
      → j + n < length xs
      → take (suc n) (drop j xs) ≡ take n (drop j xs) ++ (get_or xs (j + n) d ∷ [])
  take-drop-suc n j [] h = absurd (omega arith)
  take-drop-suc n zero (x ∷ xs) h =
      let e : 0 + n ≡ n = omega arith in rw e (take-suc n (x ∷ xs) d (omega arith))
  take-drop-suc n (suc j) (x ∷ xs) h =
      let e : suc j + n ≡ suc (j + n) = omega arith in rw e (take-drop-suc n j xs (omega arith))

  pub take-shift_down :
      (n j m : ℕ) (xs : List A)
      → m ≡ j + n
      → m < length xs
      → take m (shift_down n j d xs) ≡ take j xs ++ take n (drop (suc j) xs)
  unfolding shift_down
  take-shift_down zero j m xs e h =
      let e' : m ≡ j = omega arith in rw e' (sym (append-nil (take j xs)))
  take-shift_down (suc n) j m xs e h =
      let y : A = get_or xs (suc j) d in
      rw add-one (
        take-shift_down n (suc j) m (set xs j y) (omega arith) (omega (arith, length-set xs j y))
        ∙ rw (
          take-set_self j xs y (omega arith),
          drop-set_lt (suc (suc j)) j xs y (omega arith),
          drop-suc (suc j) xs d (omega arith),
          append_assoc,
        ))

  take-drop-set_ge :
      (n m k : ℕ) (xs : List A) (v : A)
      → m + n ≤ k
      → take n (drop m (set xs k v)) ≡ take n (drop m xs)
  take-drop-set_ge n zero k xs v h = take-set_ge n k xs v (omega arith)
  take-drop-set_ge n (suc m) k [] v h = refl
  take-drop-set_ge n (suc m) zero (x ∷ xs) v h = absurd (omega arith)
  take-drop-set_ge n (suc m) (suc k) (x ∷ xs) v h = take-drop-set_ge n m k xs v (omega arith)

  pub set-append :
      (m : ℕ) (xs ys : List A) (x v : A) → length xs ≡ m → set (xs ++ (x ∷ ys)) m v ≡ xs ++ (v ∷ ys)
  set-append zero [] ys x v e = refl
  set-append (suc m) [] ys x v e = absurd (omega arith)
  set-append zero (w ∷ xs) ys x v e = absurd (omega arith)
  set-append (suc m) (w ∷ xs) ys x v e = ap (λ l. w ∷ l) (set-append m xs ys x v (omega arith))

  -- Entries above the start stay.
  shift_up_above :
      (n j k : ℕ) (xs : List A) → j < k → get_or (shift_up n j d xs) k d ≡ get_or xs k d
  unfolding shift_up
  shift_up_above zero j k xs h = refl
  shift_up_above (suc n) j k xs h =
      shift_up_above n (j - 1) k (set xs j (get_or xs (j - 1) d)) (omega arith)
      ∙ get_or-set_ne xs j k (get_or xs (j - 1) d) d (omega arith)

  pub take-shift_up :
      (n m j : ℕ) (xs : List A)
      → j ≡ m + n
      → j < length xs
      → take (suc j) (shift_up n j d xs) ≡ take (suc m) xs ++ take n (drop m xs)
  unfolding shift_up
  take-shift_up zero m j xs e h =
      let e' : j ≡ m = omega arith in rw e' (sym (append-nil (take (suc m) xs)))
  take-shift_up (suc n) m j xs e h =
      let y : A = get_or xs (j - 1) d in
      let xs' = set xs j y in
      let i : ℕ = j - 1 in
      let f : j ≡ suc i = omega arith in
      take-suc j (shift_up n i d xs') d (omega (arith, length-shift_up n i xs', length-set xs j y))
      ∙ (ap₂ (λ l (z : A). l ++ (z ∷ []))
            (subst (λ k. take k (shift_up n i d xs') ≡ take (suc m) xs ++ take n (drop m xs))
              (sym f)
              (take-shift_up n m i xs' (omega arith) (omega (arith, length-set xs j y))
                ∙ ap₂ (λ a b. a ++ b) (take-set_ge (suc m) j xs y (omega arith))
                    (take-drop-set_ge n m j xs y (omega arith))))
            (shift_up_above n i j xs' (omega arith)
              ∙ get_or-set_self xs j y d h
              ∙ ap (λ k. get_or xs k d) (omega arith))
          ∙ append_assoc (take (suc m) xs) (take n (drop m xs)) (get_or xs (m + n) d ∷ [])
          ∙ ap (λ l. take (suc m) xs ++ l) (sym (take-drop-suc n m xs (omega arith))))

module _ {ℓ} {A : Type ℓ} (d : A) where
  pub take-shift_up-set :
      (n m j : ℕ) (xs : List A) (v : A)
      → j ≡ m + n
      → j < length xs
      → take (suc j) (set (shift_up n j d xs) m v) ≡ take m xs ++ (v ∷ take n (drop m xs))
  take-shift_up-set n m j xs v e h =
      take-set_lt (suc j) m (shift_up n j d xs) v (omega arith)
      ∙ rw (take-shift_up d n m j xs e h, take-suc m xs d (omega arith), append_assoc)
          (set-append d m (take m xs) (take n (drop m xs)) (get_or xs m d) v
            (length-take_le m xs (omega arith)))

-- A predicate of every element survives both shifts.
module _ {ℓ κ} {A : Type ℓ} (d : A) (P : A → Type κ) (p : P d) where
  entry : (xs : List A) (i : ℕ) → All P xs → P (get_or xs i d)
  entry [] i a = p
  entry (x ∷ xs) zero a = a.0
  entry (x ∷ xs) (suc i) a = entry xs i a.1

  pub All-shift_down : (n j : ℕ) (xs : List A) → All P xs → All P (shift_down n j d xs)
  unfolding shift_down
  All-shift_down zero j xs a = a
  All-shift_down (suc n) j xs a =
      All-shift_down n (j + 1) (set xs j (get_or xs (j + 1) d))
        (All-set P xs j (get_or xs (j + 1) d) (entry xs (j + 1) a) a)

  pub All-shift_up : (n j : ℕ) (xs : List A) → All P xs → All P (shift_up n j d xs)
  unfolding shift_up
  All-shift_up zero j xs a = a
  All-shift_up (suc n) j xs a =
      All-shift_up n (j - 1) (set xs j (get_or xs (j - 1) d))
        (All-set P xs j (get_or xs (j - 1) d) (entry xs (j - 1) a) a)
