-- ===== src/Base/Members.antt =====
-- Lists of numbers that are all different, and predicates on joined lists.
use Prim.Native.Nat.{ℕ}
use mathlib.Core.Path.{sym}
use mathlib.Core.Logic.{◌≢◌}
use mathlib.Core.List.{List, [], ◌∷◌, ◌++◌}
use zenus.Base.Lists.{All}

abbrev pub Distinct : List ℕ → Type 0
Distinct [] = Unit
Distinct (x ∷ xs) = All (λ y. x ≢ y) xs × Distinct xs

pub All-map {ℓ κ μ} :
    {A : Type ℓ} (P : A → Type κ) (Q : A → Type μ) (xs : List A)
    → ((x : A) → P x → Q x)
    → All P xs
    → All Q xs
All-map P Q [] f a = tt
All-map P Q (x ∷ xs) f a = (f x a.0, All-map P Q xs f a.1)

pub All-last {ℓ κ} :
    {A : Type ℓ} (P : A → Type κ) (xs ys : List A) (z : A)
    → All P (xs ++ (ys ++ (z ∷ [])))
    → P z × All P (xs ++ ys)
All-last P [] [] z a = (a.0, tt)
All-last P [] (y ∷ ys) z a = let r = All-last P [] ys z a.1 in (r.0, (a.0, r.1))
All-last P (x ∷ xs) ys z a = let r = All-last P xs ys z a.1 in (r.0, (a.0, r.1))

pub Distinct-last :
    (xs ys : List ℕ) (z : ℕ)
    → Distinct (xs ++ (ys ++ (z ∷ [])))
    → All (λ y. z ≢ y) (xs ++ ys) × Distinct (xs ++ ys)
Distinct-last [] [] z d = (tt, tt)
Distinct-last [] (y ∷ ys) z d =
    let r = Distinct-last [] ys z d.1 in
    let q = All-last (λ w. y ≢ w) [] ys z d.0 in ((λ e. q.0 (sym e), r.0), (q.1, r.1))
Distinct-last (x ∷ xs) ys z d =
    let r = Distinct-last xs ys z d.1 in
    let q = All-last (λ w. x ≢ w) xs ys z d.0 in ((λ e. q.0 (sym e), r.0), (q.1, r.1))

pub All-left {ℓ κ} : {A : Type ℓ} (P : A → Type κ) (xs ys : List A) → All P (xs ++ ys) → All P xs
All-left P [] ys a = tt
All-left P (x ∷ xs) ys a = (a.0, All-left P xs ys a.1)

pub All-swap {ℓ κ} :
    {A : Type ℓ} (P : A → Type κ) (xs ys : List A) (z : A)
    → P z
    → All P (xs ++ ys)
    → All P (xs ++ (ys ++ (z ∷ [])))
All-swap P [] [] z p a = (p, tt)
All-swap P [] (y ∷ ys) z p a = (a.0, All-swap P [] ys z p a.1)
All-swap P (x ∷ xs) ys z p a = (a.0, All-swap P xs ys z p a.1)

pub Distinct-swap :
    (xs ys : List ℕ) (z : ℕ)
    → All (λ y. z ≢ y) (xs ++ ys)
    → Distinct (xs ++ ys)
    → Distinct (xs ++ (ys ++ (z ∷ [])))
Distinct-swap [] [] z a d = (tt, tt)
Distinct-swap [] (y ∷ ys) z a d =
    (All-swap (λ w. y ≢ w) [] ys z (λ e. a.0 (sym e)) d.0, Distinct-swap [] ys z a.1 d.1)
Distinct-swap (x ∷ xs) ys z a d =
    (All-swap (λ w. x ≢ w) xs ys z (λ e. a.0 (sym e)) d.0, Distinct-swap xs ys z a.1 d.1)

pub All-right {ℓ κ} : {A : Type ℓ} (P : A → Type κ) (xs ys : List A) → All P (xs ++ ys) → All P ys
All-right P [] ys a = a
All-right P (x ∷ xs) ys a = All-right P xs ys a.1

-- An element taken out of the middle of the first of two lists.
pub All-middle {ℓ κ} :
    {A : Type ℓ} (P : A → Type κ) (xs ys zs : List A) (x : A)
    → All P ((xs ++ (x ∷ ys)) ++ zs)
    → P x × All P ((xs ++ ys) ++ zs)
All-middle P [] ys zs x a = a
All-middle P (w ∷ xs) ys zs x a = let r = All-middle P xs ys zs x a.1 in (r.0, (a.0, r.1))

pub Distinct-middle :
    (xs ys zs : List ℕ) (x : ℕ)
    → Distinct ((xs ++ (x ∷ ys)) ++ zs)
    → Distinct (x ∷ ((xs ++ ys) ++ zs))
Distinct-middle [] ys zs x d = d
Distinct-middle (w ∷ xs) ys zs x d =
    let r = Distinct-middle xs ys zs x d.1 in
    let q = All-middle (λ y. w ≢ y) xs ys zs x d.0 in ((λ e. q.0 (sym e), r.0), (q.1, r.1))

pub Distinct-left : (xs ys : List ℕ) → Distinct (xs ++ ys) → Distinct xs
Distinct-left [] ys d = tt
Distinct-left (x ∷ xs) ys d = (All-left (λ y. x ≢ y) xs ys d.0, Distinct-left xs ys d.1)
