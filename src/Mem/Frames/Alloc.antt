-- ===== src/Mem/Frames/Alloc.antt =====
-- Frames are handed out once: `alloc_frame` against the frames that callers hold.
use zenus.Base.{
  ℕ, ◌-◌, ◌<◌, ◌≡◌, ap, ◌∙◌, Option, none, some, List, get_or, set, arith, ltb, false, inl, inr,
  subst, sym, add64, Option-cases,
}
use native.Mathlib.Decide.{dec_lt}
use zenus.Mem.Frames.{FrameAllocator, high_scan, low_scan, page_size, live, cursors, alloc_frame}
use zenus.Mem.Frames.Scan.{high_scan-HighFrame}
use zenus.Mem.Frames.Owned.{IsValid, Owned, Served}
use zenus.Mem.Frames.Serve.{pop-Served, high-Served, low-Served}

-- The three branches of `alloc_frame` that serve.
pub alloc_pop :
    (fa : FrameAllocator)
    → 0 < fa.free_count
    → alloc_frame fa ≡ (
      some (get_or fa.free_stack (fa.free_count - 1) 0),
      record fa { free_count = fa.free_count - 1; used_memory = add64 fa.used_memory page_size },
    )
unfolding alloc_frame
alloc_pop fa h = ground arith

pub alloc_high :
    (fa : FrameAllocator) (s : ℕ)
    → ltb 0 fa.free_count ≡ false
    → high_scan (live fa) fa.next_free ≡ some s
    → alloc_frame fa ≡ (
      some s,
      record fa { next_free = add64 s page_size; used_memory = add64 fa.used_memory page_size },
    )
unfolding alloc_frame
alloc_high fa s h e = rw (h, e)

pub alloc_low :
    (fa : FrameAllocator) (j c : ℕ)
    → ltb 0 fa.free_count ≡ false
    → high_scan (live fa) fa.next_free ≡ none
    → low_scan (live fa) (cursors fa) fa.floor 0 ≡ some (j, c)
    → alloc_frame fa ≡ (
      some c,
      record fa {
        low_cursor = set fa.low_cursor j (add64 c page_size);
        used_memory = add64 fa.used_memory page_size;
      },
    )
unfolding alloc_frame
alloc_low fa j c h e k = rw (h, e, k)

pub alloc_none :
    (fa : FrameAllocator)
    → ltb 0 fa.free_count ≡ false
    → high_scan (live fa) fa.next_free ≡ none
    → low_scan (live fa) (cursors fa) fa.floor 0 ≡ none
    → alloc_frame fa ≡ (none, fa)
unfolding alloc_frame
alloc_none fa h e k = rw (h, e, k)

none-ne : {x : ℕ} → none ≡ some x → ⊥
none-ne e = cc

conclude :
    (fa : FrameAllocator) (held : List ℕ) (x s : ℕ) (fa' : FrameAllocator)
    → alloc_frame fa ≡ (some s, fa')
    → (alloc_frame fa).0 ≡ some x
    → Served fa held s fa'
    → Served fa held x (alloc_frame fa).1
conclude fa held x s fa' q e sv =
    subst (λ (out : Option ℕ × FrameAllocator). out.0 ≡ some x → Served fa held x out.1) (sym q)
      (λ e'. let z : s ≡ x = ground arith in subst (λ y. Served fa held y fa') z sv) e

-- Whenever `alloc_frame` returns a frame, no caller holds it, it is page-aligned, and the
-- bookkeeping stays sound with the frame among those that are held.
pub alloc_frame-Served :
    (fa : FrameAllocator) (held : List ℕ) (x : ℕ)
    → IsValid fa
    → Owned fa held
    → (alloc_frame fa).0 ≡ some x
    → Served fa held x (alloc_frame fa).1
unfolding alloc_frame
alloc_frame-Served fa held x v o e = elim (dec_lt 0 fa.free_count) [
  | yes h ↦ conclude fa held x _ _ (alloc_pop fa h) e (pop-Served fa held v o h)
  | no h ↦
      let z : ltb 0 fa.free_count ≡ false = ground arith in
      elim (Option-cases (high_scan (live fa) fa.next_free)) [
        | inr (s, k) ↦ conclude fa held x s _ (alloc_high fa s z k) e (
            high-Served fa held v o s
              (high_scan-HighFrame (live fa) fa.next_free {s = s} v.in_range v.next_range k))
        | inl k ↦ elim (Option-cases (low_scan (live fa) (cursors fa) fa.floor 0)) [
          | inr ((j, c), l) ↦
              conclude fa held x c _ (alloc_low fa j c z k l) e (low-Served fa held v o j c l)
          | inl l ↦ absurd (
              none-ne
                (ap (λ (out : Option ℕ × FrameAllocator). out.0) (sym (alloc_none fa z k l)) ∙ e))
        ]
      ]
]

-- A call that fails changes nothing.
pub alloc_frame-none : (fa : FrameAllocator) → (alloc_frame fa).0 ≡ none → (alloc_frame fa).1 ≡ fa
unfolding alloc_frame
alloc_frame-none fa e = ground arith
