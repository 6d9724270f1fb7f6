-- ===== src/Mem/Frames/Serve.antt =====
-- Each branch of `alloc_frame` hands out a frame that nobody holds.
use zenus.Base.{
  ℕ, suc, ◌+◌, ◌-◌, ◌≤◌, ◌<◌, ◌≡◌, ◌≢◌, refl, ap, ◌∙◌, some, List, [], ◌∷◌, ◌++◌, length, get_or,
  set, Distinct, All-set, All-map, All-last, Distinct-last, All-left, take, All, arith, inl, inr,
  subst, sym, add64, length-set, length-take_le, take-suc, take-set_lt,
}
use zenus.Mem.Frames.{FrameAllocator, low_scan, page_size, live, cursors, recycled}
use zenus.Mem.Frames.Scan.{
  IsCursor, PassedLow, HighFrame, low_scan_start, low_scan-fresh, PassedLow-set, PassedLow_above,
}
use zenus.Mem.Frames.Owned.{live_cursors, IsValid, Passed, Owned, Served}

-- The stack with its top taken off.
recycled-pop :
    (fa : FrameAllocator)
    → 0 < fa.free_count
    → fa.free_count ≤ length fa.free_stack
    → recycled fa
      ≡ take (fa.free_count - 1) fa.free_stack ++ (get_or fa.free_stack (fa.free_count - 1) 0 ∷ [])
recycled-pop fa h k =
    let e : fa.free_count ≡ suc (fa.free_count - 1) = omega arith in
    ap (λ n. take n fa.free_stack) e ∙ take-suc (fa.free_count - 1) fa.free_stack 0 (omega arith)

module _ (fa : FrameAllocator) (held : List ℕ) (v : IsValid fa) (o : Owned fa held) where
  abbrev pub popped : FrameAllocator
  popped = record fa {
    free_count = fa.free_count - 1;
    used_memory = add64 fa.used_memory page_size;
  }

  -- the branch that pops the recycled stack
  pub pop-Served :
      0 < fa.free_count → Served fa held (get_or fa.free_stack (fa.free_count - 1) 0) popped
  pop-Served h =
      let x : ℕ = get_or fa.free_stack (fa.free_count - 1) 0 in
      let s = take (fa.free_count - 1) fa.free_stack in
      let e = recycled-pop fa h (omega (arith, v.stack_slots, v.stack_fits)) in
      let p = All-last (Passed fa) held s x (subst (λ l. All (Passed fa) (held ++ l)) e o.passed) in
      let d = Distinct-last held s x (subst (λ l. Distinct (held ++ l)) e o.distinct) in
      let keep = λ (y : ℕ) (q : Passed fa y).
        let r : Passed popped y = record { high = q.high; low = q.low; aligned = q.aligned } in r in
      record {
        fresh = All-left (λ y. x ≢ y) held s d.0;
        aligned = p.0.aligned;
        keeps = record {
          slots = v.slots;
          cursor_slots = v.cursor_slots;
          stack_slots = v.stack_slots;
          fits = v.fits;
          stack_fits = omega (arith, v.stack_fits);
          in_range = v.in_range;
          next_range = v.next_range;
          floor_le = v.floor_le;
          cursors_ok = v.cursors_ok;
          apart = v.apart;
        };
        owned = record {
          passed = (keep x p.0, All-map (Passed fa) (Passed popped) (held ++ s) keep p.1);
          distinct = d;
        };
        counted = refl;
      }

  -- the branch that moves the bump pointer
  abbrev pub bumped : ℕ → FrameAllocator
  bumped x = record fa {
    next_free = add64 x page_size;
    used_memory = add64 fa.used_memory page_size;
  }

  pub high-Served : (x : ℕ) → HighFrame (live fa) fa.next_free x → Served fa held x (bumped x)
  high-Served x f =
      let next : add64 x page_size ≡ x + page_size = omega (arith, f.in_range) in
      let keep = λ (y : ℕ) (q : Passed fa y).
        let r : Passed (bumped x) y = record {
          high = omega (arith, q.high, f.at_next);
          low = q.low;
          aligned = q.aligned;
        } in
        r in
      let new : Passed (bumped x) x = record {
        high = inr (omega arith);
        low =
            PassedLow_above fa.floor x (live fa) (cursors fa)
              (omega (arith, v.floor_le, f.at_next));
        aligned = f.aligned;
      } in
      let differ = λ (y : ℕ) (q : Passed fa y).
        let r : x ≢ y = omega (arith, q.high, f.at_next, v.floor_le) in r in
      let fresh = All-map (Passed fa) (λ y. x ≢ y) (held ++ recycled fa) differ o.passed in
      record {
        fresh = All-left (λ y. x ≢ y) held (recycled fa) fresh;
        aligned = f.aligned;
        keeps = record {
          slots = v.slots;
          cursor_slots = v.cursor_slots;
          stack_slots = v.stack_slots;
          fits = v.fits;
          stack_fits = v.stack_fits;
          in_range = v.in_range;
          next_range = omega (arith, f.in_range);
          floor_le = omega (arith, v.floor_le, f.at_next);
          cursors_ok = v.cursors_ok;
          apart = v.apart;
        };
        owned = record {
          passed =
              (new, All-map (Passed fa) (Passed (bumped x)) (held ++ recycled fa) keep o.passed);
          distinct = (fresh, o.distinct);
        };
        counted = refl;
      }

  -- the branch that moves the cursor of region `j`
  abbrev pub moved : ℕ → ℕ → FrameAllocator
  moved j x = record fa {
    low_cursor = set fa.low_cursor j (add64 x page_size);
    used_memory = add64 fa.used_memory page_size;
  }

  pub low-Served :
      (j x : ℕ)
      → low_scan (live fa) (cursors fa) fa.floor 0 ≡ some (j, x)
      → Served fa held x (moved j x)
  low-Served j x e =
      let (f, after) =
        low_scan_start (live fa) (cursors fa) fa.floor j x v.in_range (live_cursors fa v) v.apart
          e in
      let next : add64 x page_size ≡ x + page_size = omega (arith, f.in_range) in
      let inside : j < fa.region_count = omega (
        arith,
        f.index,
        length-take_le fa.region_count fa.low_cursor (omega (arith, v.cursor_slots, v.fits)),
      ) in
      let cs : cursors (moved j x) ≡ set (cursors fa) j (x + page_size) =
        take-set_lt fa.region_count j fa.low_cursor (add64 x page_size) inside
        ∙ ap (set (cursors fa) j) next in
      let keep = λ (y : ℕ) (q : Passed fa y).
        let r : Passed (moved j x) y = record {
          high = q.high;
          low = subst (PassedLow fa.floor y (live fa)) (sym cs) (
              PassedLow-set fa.floor y j (x + page_size) (live fa) (cursors fa)
                (omega (arith, f.forward)) q.low);
          aligned = q.aligned;
        } in
        r in
      let new : Passed (moved j x) x = record {
        high = inl f.below;
        low = subst (PassedLow fa.floor x (live fa)) (sym cs) after;
        aligned = f.aligned;
      } in
      let differ = λ (y : ℕ) (q : Passed fa y) (z : x ≡ y).
        low_scan-fresh (live fa) (cursors fa) fa.floor 0 j x y v.in_range (live_cursors fa v) e
          q.low (sym z) in
      let fresh = All-map (Passed fa) (λ y. x ≢ y) (held ++ recycled fa) differ o.passed in
      record {
        fresh = All-left (λ y. x ≢ y) held (recycled fa) fresh;
        aligned = f.aligned;
        keeps = record {
          slots = v.slots;
          cursor_slots = length-set fa.low_cursor j (add64 x page_size) ∙ v.cursor_slots;
          stack_slots = v.stack_slots;
          fits = v.fits;
          stack_fits = v.stack_fits;
          in_range = v.in_range;
          next_range = v.next_range;
          floor_le = v.floor_le;
          cursors_ok =
              All-set IsCursor fa.low_cursor j (add64 x page_size)
                (omega (arith, f.aligned, f.in_range)) v.cursors_ok;
          apart = v.apart;
        };
        owned = record {
          passed =
              (new, All-map (Passed fa) (Passed (moved j x)) (held ++ recycled fa) keep o.passed);
          distinct = (fresh, o.distinct);
        };
        counted = refl;
      }
