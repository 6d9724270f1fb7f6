-- ===== src/Syscall/UserStack.antt =====
-- The first stack of a program, crates/zenus-syscall/src/userstack.rs. The user memory that the page
-- table describes is a function from addresses to bytes; that its pages are mapped, the switch of the
-- page table and the interrupt flag are left out.
pub mod Layout
pub mod Memory
pub mod Strings
pub mod Write
mod Tests
use zenus.Base.{
  ℕ, zero, suc, ◌+◌, ◌-◌, ◌*◌, ◌/◌, ◌%◌, ◌==◌, ltb, leb, if◌then◌else◌, Bool, true, false, Option,
  none, some, List, [], ◌∷◌, length, add64, u64_mod,
}

abbrev pub user_stack_pages : ℕ
user_stack_pages = 16

abbrev pub user_stack_bytes : ℕ
user_stack_bytes = user_stack_pages * 4096

abbrev pub stack_headroom : ℕ
stack_headroom = 512

pub record UserStackLayout : Type 0 where
  pub str_pos : ℕ
  pub ptr_array_start : ℕ
  pub user_rsp : ℕ
  pub bytes_used : ℕ

infixl 1 ◌>>=◌
-- `?` on an Option.
abbrev pub ◌>>=◌ : {A B : Type 0} → Option A → (A → Option B) → Option B
none >>= f = none
some x >>= f = f x

abbrev pub checked_sub : ℕ → ℕ → Option ℕ
checked_sub x y = if leb y x then some (x - y) else none

-- A u64 result that must not overflow.
abbrev pub checked : ℕ → Option ℕ
checked x = if ltb x u64_mod then some x else none

-- `x & !7`
abbrev pub align_down : ℕ → ℕ
align_down x = x / 8 * 8

-- The loop over the lengths.
pub place_strings : ℕ → List ℕ → Option ℕ
place_strings str_pos [] = some str_pos
place_strings str_pos (len ∷ lens) = do
  x ← checked_sub str_pos len
  y ← checked_sub x 1
  place_strings y lens

pub layout_user_stack : ℕ → List ℕ → Option UserStackLayout
unfolding place_strings
layout_user_stack stack_top argv_lens = do
  str_pos ← place_strings stack_top argv_lens
  slots ← checked (length argv_lens + 1)
  ptr_array_size ← checked (slots * 8)
  unaligned ← checked_sub str_pos ptr_array_size
  let ptr_array_start = align_down unaligned
  user_rsp ← checked_sub ptr_array_start 8
  headroom_used ← checked_sub stack_top user_rsp
  if ltb user_stack_bytes (add64 headroom_used stack_headroom)
      then none
      else some (record {
        str_pos = str_pos;
        ptr_array_start = ptr_array_start;
        user_rsp = user_rsp;
        bytes_used = headroom_used;
      })

abbrev pub Memory : Type 0
Memory = ℕ → ℕ

pub store_byte : Memory → ℕ → ℕ → Memory
store_byte mem a v g = if g == a then v else mem g

-- `n` bytes, the lowest first.
pub store_le : ℕ → Memory → ℕ → ℕ → Memory
store_le zero mem a v = mem
store_le (suc n) mem a v = store_le n (store_byte mem a (v % 256)) (a + 1) (v / 256)

-- `*(a as *mut u64) = v`
abbrev pub store64 : Memory → ℕ → ℕ → Memory
store64 mem a v = store_le 8 mem a v

-- `copy_nonoverlapping`
pub copy_bytes : Memory → ℕ → List ℕ → Memory
copy_bytes mem a [] = mem
copy_bytes mem a (x ∷ xs) = copy_bytes (store_byte mem a x) (a + 1) xs

pub write_strings : Memory → ℕ → List (List ℕ) → Memory
unfolding copy_bytes store_byte
write_strings mem cur [] = mem
write_strings mem cur (arg ∷ args) =
    let len = length arg in
    write_strings (store_byte (copy_bytes mem cur arg) (cur + len) 0) (cur + len + 1) args

-- The second loop and the NULL after it.
pub write_pointers : Memory → ℕ → ℕ → List (List ℕ) → Memory
unfolding store_le
write_pointers mem ptr_pos str_cur [] = store64 mem ptr_pos 0
write_pointers mem ptr_pos str_cur (arg ∷ args) =
    write_pointers (store64 mem ptr_pos str_cur) (ptr_pos + 8) (str_cur + length arg + 1) args

pub write_initial_user_stack : Memory → UserStackLayout → List (List ℕ) → Memory
unfolding write_strings write_pointers
write_initial_user_stack mem layout argv =
    let m1 = write_strings mem layout.str_pos argv in
    let m2 = write_pointers m1 layout.ptr_array_start layout.str_pos argv in
    store64 m2 layout.user_rsp (length argv)

-- The lengths that the callers pass.
pub lens_of : List (List ℕ) → List ℕ
lens_of [] = []
lens_of (arg ∷ args) = length arg ∷ lens_of args
