-- ===== src/Syscall/UserStack/Layout.antt =====
-- Where `layout_user_stack` of crates/zenus-syscall/src/userstack.rs puts the pieces, and when it gives up.
use zenus.Base.{
  ℕ, ◌+◌, ◌-◌, ◌*◌, ◌^◌, ◌≡◌, ◌<◌, ◌&&◌, leb, if◌then◌else◌, Bool, none, some, List, [], ◌∷◌,
  length, arith,
}
use zenus.Syscall.UserStack.{
  UserStackLayout, align_down, layout_user_stack, place_strings, stack_headroom, user_stack_bytes,
}

-- The bytes of the strings and of their terminators.
unfoldable pub total : List ℕ → ℕ
total [] = 0
total (len ∷ lens) = len + 1 + total lens

place_strings-total :
    (top : ℕ) (lens : List ℕ)
    → place_strings top lens ≡ (if leb (total lens) top then some (top - total lens) else none)
unfolding place_strings total
place_strings-total top [] = ground arith
place_strings-total top (len ∷ lens) = ground (arith, place_strings-total (top - len - 1) lens)

-- The pieces by arithmetic alone: the strings end at the top, the pointers and their NULL below them, on a
-- multiple of 8, and the count below these.
unfoldable pub layout_of : ℕ → List ℕ → UserStackLayout
unfolding total
layout_of top lens =
    let str_pos = top - total lens in
    let start = align_down (str_pos - (length lens + 1) * 8) in
    record {
      str_pos = str_pos;
      ptr_array_start = start;
      user_rsp = start - 8;
      bytes_used = top - (start - 8);
    }

-- What the pieces take, without the gap that the alignment leaves.
unfoldable pub needed : List ℕ → ℕ
needed lens = total lens + (length lens + 1) * 8 + 8

abbrev pub fits : ℕ → List ℕ → Bool
fits top lens =
    leb (needed lens) top && leb ((layout_of top lens).bytes_used + stack_headroom) user_stack_bytes

-- Where the top and the headroom do not overflow, `layout_user_stack` gives a layout exactly when the pieces
-- fit above address 0 and, with the gap and the headroom, in the 16 pages; it is then the one that the
-- arithmetic without its checks gives.
pub layout_user_stack-fits :
    (top : ℕ) (lens : List ℕ)
    → top + stack_headroom < 2 ^ 64
    → layout_user_stack top lens ≡ (if fits top lens then some (layout_of top lens) else none)
unfolding layout_user_stack layout_of needed
layout_user_stack-fits top lens h =
    rw (layout_user_stack, place_strings-total top lens) (ground arith)
