-- ===== src/Syscall/UserStack/Tests.antt =====
-- The theorems on crates/zenus-syscall/src/userstack.rs at a concrete stack.
use zenus.Base.{ℕ, ◌≡◌, none, List, [], ◌∷◌, arith, refl}
use zenus.Syscall.UserStack.{
  Memory, UserStackLayout, layout_user_stack, lens_of, place_strings, write_initial_user_stack,
  write_strings, write_pointers, copy_bytes, store_byte, store_le,
}
use zenus.Syscall.UserStack.Memory.{load64, load_le}
use zenus.Syscall.UserStack.Write.{Started, write_initial_user_stack-Started}

abbrev top : ℕ
top = 0x7FFF_F000

-- `ls` and an empty argument.
abbrev argv : List (List ℕ)
argv = (108 ∷ 115 ∷ []) ∷ [] ∷ []

abbrev placed : UserStackLayout
placed = record {
  str_pos = 0x7FFF_EFFC;
  ptr_array_start = 0x7FFF_EFE0;
  user_rsp = 0x7FFF_EFD8;
  bytes_used = 40;
}

abbrev blank : Memory
blank = λ g. 0xAA

write_initial_user_stack-Started_example :
    Started top placed argv blank (write_initial_user_stack blank placed argv)
unfolding layout_user_stack place_strings lens_of
write_initial_user_stack-Started_example =
    write_initial_user_stack-Started top argv placed blank (omega arith) refl

second_pointer : load64 (write_initial_user_stack blank placed argv) 0x7FFF_EFE8 ≡ 0x7FFF_EFFF
unfolding load_le write_initial_user_stack write_strings write_pointers copy_bytes store_byte
    store_le
second_pointer = refl

-- One argument of 16 pages does not fit.
too_long : layout_user_stack top (65536 ∷ []) ≡ none
unfolding layout_user_stack place_strings
too_long = refl
