-- ===== src/Mem/Frames/Plan/Tidy.antt =====
-- What the loop of `reserve_region` leaves alone, and what stays true of the arrays.
use zenus.Base.{
  [], ◌∷◌, ℕ, zero, suc, ◌+◌, ◌-◌, ◌≤◌, ◌≡◌, refl, ◌∙◌, length, get_or, arith, length-set, max, ltb,
  Bool-cases, inl, inr, lt→ltb, All, All-set, List,
}
use native.Mathlib.Decide.{dec_lt}
use zenus.Mem.Frames.{FrameAllocator, MemRegion, no_region, max_regions}
use zenus.Mem.Frames.Scan.{IsCursor}
use zenus.Mem.Frames.Plan.{
  drop_region, put_region, insert_tail, reserve_step, reserve_loop, shift_up,
}
use zenus.Mem.Frames.Plan.Shift.{length-shift_down, length-shift_up, All-shift_down, All-shift_up}
use zenus.Mem.Frames.Plan.Carve.{
  Cut-cases, cut, low_part, high_part, step_apart, step_covered, step_front, step_back, step_middle,
}
use zenus.Mem.Frames.Plan.Loop.{insert_tail_full}

pub record Tidy (fa0 fa : FrameAllocator) : Type 0 where
  pub slots : length fa.regions ≡ max_regions
  pub cursor_slots : length fa.low_cursor ≡ max_regions
  pub fits : fa.region_count ≤ max_regions
  pub cursors_ok : All IsCursor fa.low_cursor
  pub same_next : fa.next_free ≡ fa0.next_free
  pub same_floor : fa.floor ≡ fa0.floor
  pub same_stack : fa.free_stack ≡ fa0.free_stack
  pub same_count : fa.free_count ≡ fa0.free_count
  pub same_used : fa.used_memory ≡ fa0.used_memory

IsCursor-zero : IsCursor 0
IsCursor-zero = omega arith

module _ (fa0 fa : FrameAllocator) (i : ℕ) (t : Tidy fa0 fa) where
  drop_region-Tidy : Tidy fa0 (drop_region fa i)
  unfolding drop_region
  drop_region-Tidy =
      let n : ℕ = fa.region_count - 1 - i in
      record {
        slots = length-shift_down no_region n i fa.regions ∙ t.slots;
        cursor_slots = length-shift_down 0 n i fa.low_cursor ∙ t.cursor_slots;
        fits = omega (arith, t.fits);
        cursors_ok = All-shift_down 0 IsCursor IsCursor-zero n i fa.low_cursor t.cursors_ok;
        same_next = t.same_next;
        same_floor = t.same_floor;
        same_stack = t.same_stack;
        same_count = t.same_count;
        same_used = t.same_used;
      }

  put_region-Tidy : (r : MemRegion) → Tidy fa0 (put_region fa i r)
  put_region-Tidy r = record {
    slots = length-set fa.regions i r ∙ t.slots;
    cursor_slots = t.cursor_slots;
    fits = t.fits;
    cursors_ok = t.cursors_ok;
    same_next = t.same_next;
    same_floor = t.same_floor;
    same_stack = t.same_stack;
    same_count = t.same_count;
    same_used = t.same_used;
  }

  insert_tail-Tidy : (r : MemRegion) (c : ℕ) → IsCursor c → Tidy fa0 (insert_tail fa i r c)
  unfolding insert_tail
  insert_tail-Tidy r c k = elim (dec_lt fa.region_count max_regions) [
    | yes h ↦
        let n : ℕ = fa.region_count - (i + 1) in
        rw (lt→ltb fa.region_count max_regions h) (record {
          slots =
              length-set (shift_up n fa.region_count no_region fa.regions) (i + 1) r
              ∙ length-shift_up no_region n fa.region_count fa.regions
              ∙ t.slots;
          cursor_slots =
              length-set (shift_up n fa.region_count 0 fa.low_cursor) (i + 1) c
              ∙ length-shift_up 0 n fa.region_count fa.low_cursor
              ∙ t.cursor_slots;
          fits = omega arith;
          cursors_ok =
              All-set IsCursor (shift_up n fa.region_count 0 fa.low_cursor) (i + 1) c k (
                All-shift_up 0 IsCursor IsCursor-zero n fa.region_count fa.low_cursor t.cursors_ok);
          same_next = t.same_next;
          same_floor = t.same_floor;
          same_stack = t.same_stack;
          same_count = t.same_count;
          same_used = t.same_used;
        })
    | no h ↦ rw (insert_tail_full fa i r c (omega arith)) t
  ]

entry : (xs : List ℕ) (i : ℕ) → All IsCursor xs → IsCursor (get_or xs i 0)
entry [] i a = IsCursor-zero
entry (x ∷ xs) zero a = a.0
entry (x ∷ xs) (suc i) a = entry xs i a.1

module _ (fa0 : FrameAllocator) (base end : ℕ) (e : IsCursor end) where
  reserve_step-Tidy :
      (fa : FrameAllocator) (i : ℕ) → Tidy fa0 fa → Tidy fa0 (reserve_step base end fa i).0
  reserve_step-Tidy fa i t =
      let r = get_or fa.regions i no_region in
      elim (Cut-cases (cut base end r)) [
        | inl c ↦ rw (step_apart base end fa i r refl c) t
        | inr (inl c) ↦ rw (step_covered base end fa i r refl c) (drop_region-Tidy fa0 fa i t)
        | inr (inr (inl c)) ↦
            rw (step_front base end fa i r refl c) (put_region-Tidy fa0 fa i t (high_part end r))
        | inr (inr (inr (inl c))) ↦
            rw (step_back base end fa i r refl c) (put_region-Tidy fa0 fa i t (low_part base r))
        | inr (inr (inr (inr c))) ↦
            let k = entry fa.low_cursor i t.cursors_ok in
            rw (step_middle base end fa i r refl c) (
              insert_tail-Tidy fa0 (put_region fa i (low_part base r)) i
                (put_region-Tidy fa0 fa i t (low_part base r)) (high_part end r)
                (max (get_or fa.low_cursor i 0) end) (omega arith))
      ]

  pub reserve_loop-Tidy :
      (fuel : ℕ) (fa : FrameAllocator) (i : ℕ)
      → Tidy fa0 fa
      → Tidy fa0 (reserve_loop fuel base end fa i)
  unfolding reserve_loop
  reserve_loop-Tidy zero fa i t = t
  reserve_loop-Tidy (suc fuel) fa i t = elim (Bool-cases (ltb i fa.region_count)) [
    | inl h ↦
        rw (h, reserve_loop)
          (reserve_loop-Tidy fuel (reserve_step base end fa i).0 (reserve_step base end fa i).1
            (reserve_step-Tidy fa i t))
    | inr h ↦ rw (h, reserve_loop) t
  ]
