-- ===== src/Base/Append.antt =====
-- Indexing into two lists put together.
use Prim.Native.Nat.{ℕ, zero, suc, ◌+◌}
use mathlib.Core.Path.{◌≡◌, refl, ap}
use mathlib.Core.List.{List, [], ◌∷◌, ◌++◌}
use native.Mathlib.Omega.{arith}
use zenus.Base.Lists.{drop, get_or, length, take}

module _ {ℓ} {A : Type ℓ} where
  pub get_or-append_right :
      (xs ys : List A) (i k : ℕ) (d : A) → i ≡ length xs + k → get_or (xs ++ ys) i d ≡ get_or ys k d
  get_or-append_right [] ys i k d h = ap (λ j. get_or ys j d) (omega (arith, h))
  get_or-append_right (x ∷ xs) ys zero k d h = absurd (omega (arith, h))
  get_or-append_right (x ∷ xs) ys (suc i) k d h = get_or-append_right xs ys i k d (omega (arith, h))

  pub drop-append_right :
      (xs ys : List A) (i k : ℕ) → i ≡ length xs + k → drop i (xs ++ ys) ≡ drop k ys
  drop-append_right [] ys i k h = ap (λ j. drop j ys) (omega (arith, h))
  drop-append_right (x ∷ xs) ys zero k h = absurd (omega (arith, h))
  drop-append_right (x ∷ xs) ys (suc i) k h = drop-append_right xs ys i k (omega (arith, h))

  pub take-append_left : (xs ys : List A) → take (length xs) (xs ++ ys) ≡ xs
  take-append_left [] ys = refl
  take-append_left (x ∷ xs) ys = ap (λ l. x ∷ l) (take-append_left xs ys)
