-- ===== src/Mem/Frames/Recycle.antt =====
-- `free_frame` gives a frame back to the allocator.
use zenus.Base.{
  All-swap, Distinct-swap, All-right, take-set_self, take-set_ge, get_or-set_self, ℕ, ◌+◌, ◌-◌, ◌%◌,
  ◌<◌, ◌≡◌, ◌≢◌, ◌⊎◌, refl, ap, ◌∙◌, some, List, [], ◌∷◌, ◌++◌, set, Distinct, All-map, take, All,
  arith, true, false, subst, sym, add64, length-set,
}
use native.Mathlib.Numerals.{add-one}
use zenus.Mem.Frames.{
  FrameAllocator, page_size, recycled, alloc_frame, free_frame, free_stack_size, contains,
}
use zenus.Mem.Frames.Alloc.{alloc_pop}
use zenus.Mem.Frames.Owned.{IsValid, Passed, Owned}

not-contains : (xs : List ℕ) (a : ℕ) → All (λ y. a ≢ y) xs → contains xs a ≡ false
not-contains [] a d = refl
not-contains (x ∷ xs) a d = ground (arith, not-contains xs a d.1)

free_push :
    (fa : FrameAllocator) (x : ℕ)
    → x ≢ 0
    → x % page_size ≡ 0
    → contains (recycled fa) x ≡ false
    → fa.free_count < free_stack_size
    → free_frame fa x ≡ record fa {
      free_stack = set fa.free_stack fa.free_count x;
      free_count = fa.free_count + 1;
      used_memory = fa.used_memory - page_size;
    }
unfolding free_frame
free_push fa x n a c h = rw c (ground arith)

-- What `free_frame` does with a frame that a caller holds.
pub record Freed (fa : FrameAllocator) (held : List ℕ) (x : ℕ) (fa' : FrameAllocator) : Type 0 where
  pub keeps : IsValid fa'
  pub owned : Owned fa' held
  pub back : recycled fa' ≡ recycled fa ++ (x ∷ [])

-- On a valid allocator, freeing a held frame other than frame 0, with room on the stack, puts it on
-- top of the stack and takes it from the frames that are held.
pub free_frame-Freed :
    (fa : FrameAllocator) (held : List ℕ) (x : ℕ)
    → IsValid fa
    → Owned fa (x ∷ held)
    → x ≢ 0
    → fa.free_count < free_stack_size
    → Freed fa held x (free_frame fa x)
unfolding free_frame
free_frame-Freed fa held x v o n h =
    rw (free_push fa x n o.passed.0.aligned (not-contains (recycled fa) x fresh) h) (record {
      keeps = record {
        slots = v.slots;
        cursor_slots = v.cursor_slots;
        fits = v.fits;
        stack_slots = length-set fa.free_stack fa.free_count x ∙ v.stack_slots;
        stack_fits = omega arith;
        in_range = v.in_range;
        next_range = v.next_range;
        floor_le = v.floor_le;
        cursors_ok = v.cursors_ok;
        apart = v.apart;
      };
      owned = record {
        passed =
            subst (λ l. All (Passed pushed) (held ++ l)) (sym back)
              (All-map (Passed fa) (Passed pushed) (held ++ (recycled fa ++ (x ∷ []))) keep
                (All-swap (Passed fa) held (recycled fa) x o.passed.0 o.passed.1));
        distinct =
            subst (λ l. Distinct (held ++ l)) (sym back)
              (Distinct-swap held (recycled fa) x o.distinct.0 o.distinct.1);
      };
      back = back;
    })
  where
    pushed : FrameAllocator
    pushed = record fa {
      free_stack = set fa.free_stack fa.free_count x;
      free_count = fa.free_count + 1;
      used_memory = fa.used_memory - page_size;
    }

    fresh : All (λ y. x ≢ y) (recycled fa)
    fresh = All-right (λ y. x ≢ y) held (recycled fa) o.distinct.0

    keep : (y : ℕ) → Passed fa y → Passed pushed y
    keep y q = record { high = q.high; low = q.low; aligned = q.aligned }

    back : take (fa.free_count + 1) (set fa.free_stack fa.free_count x) ≡ recycled fa ++ (x ∷ [])
    back = rw add-one (take-set_self fa.free_count fa.free_stack x (omega (arith, v.stack_slots)))

-- A frame that is on the recycled stack already is not taken twice, and neither are frame 0 and an
-- address inside a frame: the allocator is left as it is.
pub free_frame-refuses :
    (fa : FrameAllocator) (x : ℕ)
    → (x ≡ 0) ⊎ (x % page_size ≢ 0) ⊎ (contains (recycled fa) x ≡ true)
    → free_frame fa x ≡ fa
unfolding free_frame
free_frame-refuses fa x h = ground arith

-- On a valid allocator with room on the stack, a held frame other than frame 0 that is given back
-- is the next one served; the stack, the bump pointer and the cursors are as before, and
-- `used_memory` is a page less and a page more.
pub alloc-free :
    (fa : FrameAllocator) (held : List ℕ) (x : ℕ)
    → IsValid fa
    → Owned fa (x ∷ held)
    → x ≢ 0
    → fa.free_count < free_stack_size
    → let (y, fa') = alloc_frame (free_frame fa x) in
      (y ≡ some x)
      × (recycled fa' ≡ recycled fa)
      × (fa'.next_free ≡ fa.next_free)
      × (fa'.low_cursor ≡ fa.low_cursor)
      × (fa'.used_memory ≡ add64 (fa.used_memory - page_size) page_size)
alloc-free fa held x v o n h =
    let fresh = All-right (λ y. x ≢ y) held (recycled fa) o.distinct.0 in
    let e : fa.free_count + 1 - 1 ≡ fa.free_count = omega arith in
    rw
      (
        free_push fa x n o.passed.0.aligned (not-contains (recycled fa) x fresh) h,
        alloc_pop
            (record fa {
              free_stack = set fa.free_stack fa.free_count x;
              free_count = fa.free_count + 1;
              used_memory = fa.used_memory - page_size;
            })
            (omega arith),
        e,
      )
      (
        ap some (get_or-set_self fa.free_stack fa.free_count x 0 (omega (arith, v.stack_slots))),
        take-set_ge fa.free_count fa.free_count fa.free_stack x (omega arith),
        refl,
        refl,
        refl,
      )
