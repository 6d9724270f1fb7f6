-- ===== src/Syscall/UserStack/Memory.antt =====
-- Stores to the user memory of crates/zenus-syscall/src/userstack.rs, and what is read back.
use zenus.Base.{
  ℕ, zero, suc, ◌+◌, ◌*◌, ◌/◌, ◌%◌, ◌^◌, ◌≡◌, ◌≢◌, ◌≤◌, ◌<◌, arith, refl, sym, ◌∙◌, inl, inr, ◌⊎◌,
}
use zenus.Syscall.UserStack.{Memory, store_byte, store_le, store64}

-- What a program reads at an address.
unfoldable pub load_le : ℕ → Memory → ℕ → ℕ
load_le zero mem a = 0
load_le (suc n) mem a = mem a + 256 * load_le n mem (a + 1)

abbrev pub load64 : Memory → ℕ → ℕ
load64 mem a = load_le 8 mem a

-- Nothing is left of the number after so many bytes.
pub Bytes : ℕ → ℕ → Type 0
Bytes zero v = v ≡ 0
Bytes (suc n) v = Bytes n (v / 256)

pub store_byte_self : (mem : Memory) (a v : ℕ) → store_byte mem a v a ≡ v
unfolding store_byte
store_byte_self mem a v = ground arith

pub store_byte_other : (mem : Memory) (a v g : ℕ) → g ≢ a → store_byte mem a v g ≡ mem g
unfolding store_byte
store_byte_other mem a v g h = ground (arith, h)

pub store_le_other :
    (n : ℕ) (mem : Memory) (a v g : ℕ) → (g < a) ⊎ (a + n ≤ g) → store_le n mem a v g ≡ mem g
unfolding store_le
store_le_other zero mem a v g h = refl
store_le_other (suc n) mem a v g h =
    let next : (g < a + 1) ⊎ (a + 1 + n ≤ g) = elim h [
      | inl l ↦ inl (omega (arith, l))
      | inr l ↦ inr (omega (arith, l))
    ] in
    let off : g ≢ a = elim h [
      | inl l ↦ (λ e. omega (arith, l, e))
      | inr l ↦ (λ e. omega (arith, l, e))
    ] in
    store_le_other n (store_byte mem a (v % 256)) (a + 1) (v / 256) g next
    ∙ store_byte_other mem a (v % 256) g off

pub load_le-store_le :
    (n : ℕ) (mem : Memory) (a v : ℕ) → Bytes n v → load_le n (store_le n mem a v) a ≡ v
unfolding load_le store_le Bytes
load_le-store_le zero mem a v b = sym b
load_le-store_le (suc n) mem a v b =
    let m1 = store_byte mem a (v % 256) in
    let low : store_le n m1 (a + 1) (v / 256) a ≡ v % 256 =
      store_le_other n m1 (a + 1) (v / 256) a (inl (omega arith))
      ∙ store_byte_self mem a (v % 256) in
    let high = load_le-store_le n m1 (a + 1) (v / 256) b in rw (low, high) (omega arith)

-- Memory that agrees from an address on gives the same reads there.
pub load_le-same :
    (n : ℕ) (mem mem' : Memory) (a : ℕ)
    → ((g : ℕ) → a ≤ g → mem' g ≡ mem g)
    → load_le n mem' a ≡ load_le n mem a
unfolding load_le
load_le-same zero mem mem' a h = refl
load_le-same (suc n) mem mem' a h =
    rw (h a (omega arith), load_le-same n mem mem' (a + 1) (λ g l. h g (omega (arith, l)))) refl

-- The same for the addresses of the number alone.
pub load_le-below :
    (n : ℕ) (mem mem' : Memory) (a : ℕ)
    → ((g : ℕ) → g < a + n → mem' g ≡ mem g)
    → load_le n mem' a ≡ load_le n mem a
unfolding load_le
load_le-below zero mem mem' a h = refl
load_le-below (suc n) mem mem' a h =
    rw (h a (omega arith), load_le-below n mem mem' (a + 1) (λ g l. h g (omega (arith, l)))) refl

u64-Bytes : (v : ℕ) → v < 2 ^ 64 → Bytes 8 v
unfolding Bytes
u64-Bytes v h = omega arith

pub load64-store64 : (mem : Memory) (a v : ℕ) → v < 2 ^ 64 → load64 (store64 mem a v) a ≡ v
load64-store64 mem a v h = load_le-store_le 8 mem a v (u64-Bytes v h)
