-- ===== src/Mem/Frames/Plan/Reserve.antt =====
-- What `reserve_region` takes away, keeps and leaves valid.
use zenus.Base.{
  ap, ◌&&◌, ℕ, ◌+◌, ◌-◌, ◌%◌, ◌/◌, ◌≤◌, ◌<◌, ◌≡◌, ◌⊎◌, refl, ◌∙◌, sym, subst, length, arith, ltb,
  leb, [], Bool-cases, inl, inr, All, page_down, length-take_le, if◌then◌else◌,
}
use zenus.Mem.Frames.{FrameAllocator, max_regions, live, page_size}
use zenus.Mem.Frames.Scan.{InRange, Apart, IsCursor, phys_limit}
use zenus.Mem.Frames.Owned.{IsValid}
use zenus.Mem.Frames.Plan.{reserve_loop, reserve_region, reserved_base, reserved_end, reserve_fuel}
use zenus.Mem.Frames.Plan.Carve.{carve}
use zenus.Mem.Frames.Plan.Loop.{Sized, reserve_loop-carve}
use zenus.Mem.Frames.Plan.Pieces.{Covers, carve_less, carve_rest, All-carve, Apart-carve}
use zenus.Mem.Frames.Plan.Tidy.{Tidy, reserve_loop-Tidy}

-- A reservation that stays below the physical limit when it is rounded out.
pub record Reservable (base length : ℕ) : Type 0 where
  pub nonempty : 0 < length
  pub below : base + length + page_size ≤ phys_limit

module _ (base len : ℕ) (r : Reservable base len) where
  rounded :
      (reserved_end base len % page_size ≡ 0)
      × (reserved_end base len ≤ phys_limit)
      × (page_down base + len ≤ reserved_end base len)
  rounded = ground (arith, r.below)

  abbrev looped : FrameAllocator → FrameAllocator
  looped fa = reserve_loop reserve_fuel (reserved_base base) (reserved_end base len) fa 0

  reserve_region_eq :
      (fa : FrameAllocator)
      → reserve_region fa base len ≡ (
          if leb (reserved_base base) (looped fa).next_free
            && ltb (looped fa).next_free (reserved_end base len)
          then (record (looped fa) { next_free = reserved_end base len })
          else looped fa)
  unfolding reserve_region
  reserve_region_eq fa = ground (arith, r.nonempty)

  live-reserve_region : (fa : FrameAllocator) → live (reserve_region fa base len) ≡ live (looped fa)
  live-reserve_region fa = ground (arith, reserve_region_eq fa)

  -- The list of regions after the call is what `carve` makes of it.
  pub reserve_region-carve :
      (fa : FrameAllocator)
      → IsValid fa
      → live (reserve_region fa base len)
        ≡ carve
            (max_regions - fa.region_count)
            (reserved_base base)
            (reserved_end base len)
            (live fa)
  reserve_region-carve fa v =
      let s : Sized fa = record { slots = v.slots; fits = v.fits } in
      live-reserve_region fa
      ∙ reserve_loop-carve reserve_fuel (reserved_base base) (reserved_end base len) fa [] (live fa)
          s refl
          (omega (
            arith,
            length-take_le fa.region_count fa.regions (omega (arith, v.slots, v.fits)),
            v.fits,
          ))

  excludes_rounded :
      (fa : FrameAllocator) (x : ℕ)
      → IsValid fa
      → Covers (live (reserve_region fa base len)) x
      → Covers (live fa) x × ((x < reserved_base base) ⊎ (reserved_end base len ≤ x))
  excludes_rounded fa x v c =
      carve_less (reserved_base base) (reserved_end base len) (omega (arith, rounded)) rounded.1
        (live fa) (max_regions - fa.region_count) x v.in_range
        (subst (λ l. Covers l x) (reserve_region-carve fa v) c)

  -- On a valid allocator, after `reserve_region` of a range that is not empty and stays in physical
  -- memory when rounded, an allocatable byte was allocatable before, and its page is not one of the
  -- ⌈len / 4096⌉ pages from the page of `base` on. These hold the whole of the range [base, base +
  -- len) only if the range does not run over into one page more, as one whose base is not at the
  -- start of a page may.
  pub reserve_region_excludes :
      (fa : FrameAllocator) (x : ℕ)
      → IsValid fa
      → Covers (live (reserve_region fa base len)) x
      → Covers (live fa) x
        × ((x / 4096 < base / 4096) ⊎ (base / 4096 + (len + 4095) / 4096 ≤ x / 4096))
  reserve_region_excludes fa x v c =
      let e = excludes_rounded fa x v c in
      (e.0, elim e.1 [ inl l ↦ inl (ground (arith, l)) | inr h ↦ inr (ground (arith, h, r.below)) ])

  -- On a valid allocator with a free slot in the table, and for such a range, an allocatable byte
  -- outside the rounded reservation stays allocatable.
  pub reserve_region_keeps :
      (fa : FrameAllocator) (x : ℕ)
      → IsValid fa
      → fa.region_count < max_regions
      → Covers (live fa) x
      → (x < reserved_base base) ⊎ (reserved_end base len ≤ x)
      → Covers (live (reserve_region fa base len)) x
  reserve_region_keeps fa x v k c u =
      subst (λ l. Covers l x) (sym (reserve_region-carve fa v))
        (carve_rest (reserved_base base) (reserved_end base len) (omega (arith, rounded)) rounded.1
          (live fa) (max_regions - fa.region_count) x v.in_range v.apart (omega arith) c u)

  start_Tidy : (fa : FrameAllocator) → IsValid fa → Tidy fa fa
  start_Tidy fa v = record {
    slots = v.slots;
    cursor_slots = v.cursor_slots;
    fits = v.fits;
    cursors_ok = v.cursors_ok;
    same_next = refl;
    same_floor = refl;
    same_stack = refl;
    same_count = refl;
    same_used = refl;
  }

  -- For such a range `reserve_region` keeps every part of the allocator's invariant.
  pub reserve_region-IsValid :
      (fa : FrameAllocator) → IsValid fa → IsValid (reserve_region fa base len)
  reserve_region-IsValid fa v =
      let ee : IsCursor (reserved_end base len) = (rounded.0, rounded.1) in
      let t =
        reserve_loop-Tidy fa (reserved_base base) (reserved_end base len) ee reserve_fuel fa 0
          (start_Tidy fa v) in
      let m : ℕ = max_regions - fa.region_count in
      let be : reserved_base base ≤ reserved_end base len = omega (arith, rounded) in
      let l = sym (live-reserve_region fa) ∙ reserve_region-carve fa v in
      let inr' : All InRange (live (looped fa)) = subst (All InRange) (sym l) (
        All-carve (reserved_base base) (reserved_end base len) be rounded.1 InRange (live fa) m
          (λ a b q p. omega arith) v.in_range v.in_range) in
      let apt : Apart (live (looped fa)) = subst Apart (sym l) (
        Apart-carve (reserved_base base) (reserved_end base len) be rounded.1 (live fa) m v.in_range
          v.apart) in
      rw (reserve_region_eq fa)
        (elim (Bool-cases (
          leb (reserved_base base) (looped fa).next_free
          && ltb (looped fa).next_free (reserved_end base len))) [
            | inl h ↦ rw h (record {
              slots = t.slots;
              cursor_slots = t.cursor_slots;
              stack_slots = ap length t.same_stack ∙ v.stack_slots;
              fits = t.fits;
              stack_fits = omega (arith, t.same_count, v.stack_fits);
              in_range = inr';
              next_range = rounded.1;
              floor_le =
                  let lt : (looped fa).next_free < reserved_end base len = ground arith in
                  omega (arith, lt, t.same_floor, t.same_next, v.floor_le);
              cursors_ok = t.cursors_ok;
              apart = apt;
            })
            | inr h ↦ rw h (record {
              slots = t.slots;
              cursor_slots = t.cursor_slots;
              stack_slots = ap length t.same_stack ∙ v.stack_slots;
              fits = t.fits;
              stack_fits = omega (arith, t.same_count, v.stack_fits);
              in_range = inr';
              next_range = omega (arith, t.same_next, v.next_range);
              floor_le = omega (arith, t.same_next, t.same_floor, v.floor_le);
              cursors_ok = t.cursors_ok;
              apart = apt;
            })
          ])

-- A reservation in physical memory whose length is a whole number of pages comes out short by what
-- its base lies above its page: on a valid allocator with a free slot, its last `base % 4096`
-- bytes stay allocatable if they were.
pub reserve_region_short :
    (fa : FrameAllocator) (base len x : ℕ)
    → Reservable base len
    → IsValid fa
    → fa.region_count < max_regions
    → len % page_size ≡ 0
    → page_down base + len ≤ x
    → x < base + len
    → Covers (live fa) x
    → Covers (live (reserve_region fa base len)) x
reserve_region_short fa base len x r v k a lo hi c =
    reserve_region_keeps base len r fa x v k c (inr (ground (arith, r.below)))
