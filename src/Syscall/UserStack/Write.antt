-- ===== src/Syscall/UserStack/Write.antt =====
-- What a program finds on the stack that `write_initial_user_stack` of
-- crates/zenus-syscall/src/userstack.rs wrote where `layout_user_stack` said.
use zenus.Base.{
  ℕ, ◌+◌, ◌*◌, ◌%◌, ◌^◌, ◌≡◌, ◌≤◌, ◌<◌, true, List, [], ◌∷◌, length, arith, ◌∙◌, inl, inr, ◌⊎◌, ap,
  suc, subst, sym, refl, some,
}
use zenus.Syscall.UserStack.{
  Memory, UserStackLayout, lens_of, stack_headroom, store64, user_stack_bytes, write_pointers,
  write_initial_user_stack, layout_user_stack, write_strings,
}
use zenus.Syscall.UserStack.Layout.{fits, layout_of, layout_user_stack-fits, needed, total}
use zenus.Syscall.UserStack.Memory.{
  load64, load64-store64, load_le-below, load_le-same, store_le_other,
}
use zenus.Syscall.UserStack.Strings.{
  Strings, Strings-same, write_strings-Strings, write_strings_other,
}

-- The addresses of the strings, and a NULL.
unfoldable pub Pointers : Memory → ℕ → ℕ → List (List ℕ) → Type 0
Pointers mem p a [] = load64 mem p ≡ 0
Pointers mem p a (arg ∷ args) = (load64 mem p ≡ a) × Pointers mem (p + 8) (a + length arg + 1) args

Pointers-same :
    (mem mem' : Memory) (p a : ℕ) (argv : List (List ℕ))
    → ((g : ℕ) → p ≤ g → mem' g ≡ mem g)
    → Pointers mem p a argv
    → Pointers mem' p a argv
unfolding Pointers
Pointers-same mem mem' p a [] h k = load_le-same 8 mem mem' p h ∙ k
Pointers-same mem mem' p a (arg ∷ args) h (e, k) = (
  load_le-same 8 mem mem' p h ∙ e,
  Pointers-same mem mem' (p + 8) (a + length arg + 1) args (λ g l. h g (omega (arith, l))) k,
)

write_pointers_other :
    (mem : Memory) (p a : ℕ) (argv : List (List ℕ)) (g : ℕ)
    → (g < p) ⊎ (p + (length argv + 1) * 8 ≤ g)
    → write_pointers mem p a argv g ≡ mem g
unfolding write_pointers
write_pointers_other mem p a [] g h = store_le_other 8 mem p 0 g (ground (arith, h))
write_pointers_other mem p a (arg ∷ args) g h =
    let next : (g < p + 8) ⊎ (p + 8 + (length args + 1) * 8 ≤ g) = ground (arith, h) in
    let off : (g < p) ⊎ (p + 8 ≤ g) = ground (arith, h) in
    write_pointers_other (store64 mem p a) (p + 8) (a + length arg + 1) args g next
    ∙ store_le_other 8 mem p a g off

write_pointers-Pointers :
    (mem : Memory) (p a : ℕ) (argv : List (List ℕ))
    → a + total (lens_of argv) < 2 ^ 64
    → Pointers (write_pointers mem p a argv) p a argv
unfolding write_pointers Pointers total lens_of
write_pointers-Pointers mem p a [] h = load64-store64 mem p 0 (omega arith)
write_pointers-Pointers mem p a (arg ∷ args) h =
    let m1 = store64 mem p a in
    let m2 = write_pointers m1 (p + 8) (a + length arg + 1) args in
    (
      load_le-below 8 m1 m2 p
            (λ g l. write_pointers_other m1 (p + 8) (a + length arg + 1) args g (inl l))
          ∙ load64-store64 mem p a (omega (arith, h)),
      write_pointers-Pointers m1 (p + 8) (a + length arg + 1) args (omega (arith, h)),
    )

-- The stack as a program finds it: the count at the stack pointer, the pointers above it, the strings
-- they point to, all in the pages of the stack below `top`.
pub record Started (top : ℕ) (layout : UserStackLayout) (argv : List (List ℕ)) (mem mem' : Memory)
    : Type 0 where
  pub argc : load64 mem' layout.user_rsp ≡ length argv
  pub pointers : Pointers mem' (layout.user_rsp + 8) layout.str_pos argv
  pub strings : Strings mem' layout.str_pos argv
  pub to_top : layout.str_pos + total (lens_of argv) ≡ top
  pub in_stack : top + stack_headroom ≤ layout.user_rsp + user_stack_bytes
  pub aligned : layout.ptr_array_start % 8 ≡ 0
  pub elsewhere : (g : ℕ) → (g < layout.user_rsp) ⊎ (top ≤ g) → mem' g ≡ mem g

-- How the pieces of a layout lie.
record InOrder (top n t : ℕ) (layout : UserStackLayout) : Type 0 where
  to_top : layout.str_pos + t ≡ top
  below : layout.ptr_array_start + (n + 1) * 8 ≤ layout.str_pos
  rsp : layout.user_rsp + 8 ≡ layout.ptr_array_start
  in_stack : top + stack_headroom ≤ layout.user_rsp + user_stack_bytes
  aligned : layout.ptr_array_start % 8 ≡ 0

layout_of-InOrder :
    (top : ℕ) (lens : List ℕ)
    → fits top lens ≡ true
    → InOrder top (length lens) (total lens) (layout_of top lens)
unfolding layout_of needed
layout_of-InOrder top lens h = record {
  to_top = ground (arith, h);
  below = ground (arith, h);
  rsp = ground (arith, h);
  in_stack = ground (arith, h);
  aligned = ground (arith, h);
}

length-lens_of : (argv : List (List ℕ)) → length (lens_of argv) ≡ length argv
unfolding lens_of
length-lens_of [] = refl
length-lens_of (arg ∷ args) = ap suc (length-lens_of args)

length-total : (argv : List (List ℕ)) → length argv ≤ total (lens_of argv)
unfolding total lens_of
length-total [] = omega arith
length-total (arg ∷ args) = omega (arith, length-total args)

InOrder-Started :
    (top : ℕ) (layout : UserStackLayout) (argv : List (List ℕ)) (mem : Memory)
    → top < 2 ^ 64
    → InOrder top (length argv) (total (lens_of argv)) layout
    → Started top layout argv mem (write_initial_user_stack mem layout argv)
unfolding write_initial_user_stack
InOrder-Started top layout argv mem h o =
    let rsp = layout.user_rsp in
    let p = layout.ptr_array_start in
    let a = layout.str_pos in
    let m1 = write_strings mem a argv in
    let m2 = write_pointers m1 p a argv in
    let m3 = store64 m2 rsp (length argv) in
    let at_rsp : (g : ℕ) → p ≤ g → m3 g ≡ m2 g =
      λ g l. store_le_other 8 m2 rsp (length argv) g (inr (omega (arith, l, o.rsp))) in
    let ptrs =
      Pointers-same m2 m3 p a argv at_rsp
        (write_pointers-Pointers m1 p a argv (omega (arith, h, o.to_top))) in
    let off : (g : ℕ) → a ≤ g → m3 g ≡ m1 g = λ g l.
      at_rsp g (omega (arith, l, o.below))
      ∙ write_pointers_other m1 p a argv g (inr (omega (arith, l, o.below))) in
    record {
      argc = load64-store64 m2 rsp (length argv) (omega (arith, h, o.to_top, length-total argv));
      pointers = subst (λ q. Pointers m3 q a argv) (sym o.rsp) ptrs;
      strings = Strings-same m1 m3 a argv off (write_strings-Strings mem a argv);
      to_top = o.to_top;
      in_stack = o.in_stack;
      aligned = o.aligned;
      elsewhere = λ g l.
          store_le_other 8 m2 rsp (length argv) g (ground (arith, l, o.rsp, o.below, o.to_top))
          ∙ (write_pointers_other m1 p a argv g (ground (arith, l, o.rsp, o.below, o.to_top))
              ∙ write_strings_other mem a argv g (ground (arith, l, o.rsp, o.below, o.to_top)));
    }

-- Where `layout_user_stack` gives a layout, the write puts the count at the stack pointer, above it the
-- addresses of the arguments and a NULL, and at these the arguments, a zero byte behind each, all in the
-- pages of the stack, the pointers on a multiple of 8; no byte elsewhere changes.
pub write_initial_user_stack-Started :
    (top : ℕ) (argv : List (List ℕ)) (layout : UserStackLayout) (mem : Memory)
    → top + stack_headroom < 2 ^ 64
    → layout_user_stack top (lens_of argv) ≡ some layout
    → Started top layout argv mem (write_initial_user_stack mem layout argv)
write_initial_user_stack-Started top argv layout mem h e =
    let c = layout_user_stack-fits top (lens_of argv) h in
    let f : fits top (lens_of argv) ≡ true = ground (arith, c, e) in
    let same : layout_of top (lens_of argv) ≡ layout = ground (arith, c, e, f) in
    let o : InOrder top (length argv) (total (lens_of argv)) (layout_of top (lens_of argv)) =
      subst (λ n. InOrder top n (total (lens_of argv)) (layout_of top (lens_of argv)))
        (length-lens_of argv) (layout_of-InOrder top (lens_of argv) f) in
    InOrder-Started top layout argv mem (omega (arith, h))
      (subst (λ l. InOrder top (length argv) (total (lens_of argv)) l) same o)
