-- ===== src/Syscall/UserStack/Strings.antt =====
-- The first loop of `write_initial_user_stack`, crates/zenus-syscall/src/userstack.rs.
use zenus.Base.{ℕ, ◌+◌, ◌≡◌, ◌≢◌, ◌≤◌, ◌<◌, List, [], ◌∷◌, length, arith, refl, ◌∙◌, inl, ◌⊎◌}
use zenus.Syscall.UserStack.{Memory, copy_bytes, lens_of, store_byte, write_strings}
use zenus.Syscall.UserStack.Layout.{total}
use zenus.Syscall.UserStack.Memory.{store_byte_other, store_byte_self}

-- The bytes of a string.
unfoldable pub Holds : Memory → ℕ → List ℕ → Type 0
Holds mem a [] = Unit
Holds mem a (x ∷ xs) = (mem a ≡ x) × Holds mem (a + 1) xs

-- The strings one after the other, a zero byte behind each.
unfoldable pub Strings : Memory → ℕ → List (List ℕ) → Type 0
Strings mem a [] = Unit
Strings mem a (arg ∷ args) =
    Holds mem a arg × ((mem (a + length arg) ≡ 0) × Strings mem (a + length arg + 1) args)

copy_bytes_other :
    (mem : Memory) (a : ℕ) (xs : List ℕ) (g : ℕ)
    → (g < a) ⊎ (a + length xs ≤ g)
    → copy_bytes mem a xs g ≡ mem g
unfolding copy_bytes
copy_bytes_other mem a [] g h = refl
copy_bytes_other mem a (x ∷ xs) g h =
    let next : (g < a + 1) ⊎ (a + 1 + length xs ≤ g) = ground (arith, h) in
    let off : g ≢ a = λ e. ground (arith, h, e) in
    copy_bytes_other (store_byte mem a x) (a + 1) xs g next ∙ store_byte_other mem a x g off

Holds-same :
    (mem mem' : Memory) (a : ℕ) (xs : List ℕ)
    → ((g : ℕ) → a ≤ g → g < a + length xs → mem' g ≡ mem g)
    → Holds mem a xs
    → Holds mem' a xs
unfolding Holds
Holds-same mem mem' a [] h k = tt
Holds-same mem mem' a (x ∷ xs) h (e, k) = (
  h a (omega arith) (omega arith) ∙ e,
  Holds-same mem mem' (a + 1) xs (λ g l r. h g (omega (arith, l)) (omega (arith, r))) k,
)

copy_bytes-Holds : (mem : Memory) (a : ℕ) (xs : List ℕ) → Holds (copy_bytes mem a xs) a xs
unfolding copy_bytes Holds
copy_bytes-Holds mem a [] = tt
copy_bytes-Holds mem a (x ∷ xs) = (
  copy_bytes_other (store_byte mem a x) (a + 1) xs a (inl (omega arith)) ∙ store_byte_self mem a x,
  copy_bytes-Holds (store_byte mem a x) (a + 1) xs,
)

pub write_strings_other :
    (mem : Memory) (a : ℕ) (argv : List (List ℕ)) (g : ℕ)
    → (g < a) ⊎ (a + total (lens_of argv) ≤ g)
    → write_strings mem a argv g ≡ mem g
unfolding write_strings total lens_of
write_strings_other mem a [] g h = refl
write_strings_other mem a (arg ∷ args) g h =
    let len = length arg in
    let m1 = copy_bytes mem a arg in
    let m2 = store_byte m1 (a + len) 0 in
    let next : (g < a + len + 1) ⊎ (a + len + 1 + total (lens_of args) ≤ g) = ground (arith, h) in
    let copied : (g < a) ⊎ (a + len ≤ g) = ground (arith, h) in
    let off : g ≢ a + len = λ e. ground (arith, h, e) in
    write_strings_other m2 (a + len + 1) args g next
    ∙ (store_byte_other m1 (a + len) 0 g off ∙ copy_bytes_other mem a arg g copied)

pub write_strings-Strings :
    (mem : Memory) (a : ℕ) (argv : List (List ℕ)) → Strings (write_strings mem a argv) a argv
unfolding write_strings Strings
write_strings-Strings mem a [] = tt
write_strings-Strings mem a (arg ∷ args) =
    let len = length arg in
    let m1 = copy_bytes mem a arg in
    let m2 = store_byte m1 (a + len) 0 in
    let m3 = write_strings m2 (a + len + 1) args in
    let below : (g : ℕ) → g < a + len + 1 → m3 g ≡ m2 g =
      λ g l. write_strings_other m2 (a + len + 1) args g (inl l) in
    (
      Holds-same m1 m3 a arg
          (λ g l r.
            below g (omega (arith, r))
            ∙ store_byte_other m1 (a + len) 0 g (λ e. omega (arith, r, e)))
          (copy_bytes-Holds mem a arg),
      (
        below (a + len) (omega arith) ∙ store_byte_self m1 (a + len) 0,
        write_strings-Strings m2 (a + len + 1) args,
      ),
    )

pub Strings-same :
    (mem mem' : Memory) (a : ℕ) (argv : List (List ℕ))
    → ((g : ℕ) → a ≤ g → mem' g ≡ mem g)
    → Strings mem a argv
    → Strings mem' a argv
unfolding Strings
Strings-same mem mem' a [] h k = tt
Strings-same mem mem' a (arg ∷ args) h (s, (z, k)) = (
  Holds-same mem mem' a arg (λ g l r. h g l) s,
  (
    h (a + length arg) (omega arith) ∙ z,
    Strings-same mem mem' (a + length arg + 1) args (λ g l. h g (omega (arith, l))) k,
  ),
)
