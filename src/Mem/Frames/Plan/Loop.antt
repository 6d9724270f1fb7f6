-- ===== src/Mem/Frames/Plan/Loop.antt =====
-- The loop of `reserve_region` computes `carve`, ends by its test, and leaves the rest alone.
use mathlib.Core.List.{append_assoc}
use zenus.Base.{
  ℕ, zero, suc, ◌+◌, ◌-◌, ◌*◌, ◌≤◌, ◌<◌, ◌≡◌, refl, ap, ◌∙◌, sym, subst, List, [], ◌∷◌, ◌++◌,
  length, get_or, arith, length-set, max, inl, inr, length-append, length-take_le, lt→ltb,
}
use native.Mathlib.Decide.{dec_lt}
use zenus.Mem.Frames.{FrameAllocator, MemRegion, no_region, max_regions, live}
use zenus.Mem.Frames.Plan.{
  drop_region, put_region, insert_tail, reserve_step, reserve_loop, shift_up,
}
use zenus.Mem.Frames.Plan.Shift.{length-shift_down, length-shift_up}
use zenus.Mem.Frames.Plan.Carve.{
  Cut-cases, apart, cut, carve, carve_apart, carve_covered, carve_front, carve_back, carve_split,
  carve_full, carve_nil, low_part, high_part, view, live-drop_region, live-put_region,
  live-insert_tail, step_apart, step_covered, step_front, step_back, step_middle,
}

pub record Sized (fa : FrameAllocator) : Type 0 where
  pub slots : length fa.regions ≡ max_regions
  pub fits : fa.region_count ≤ max_regions

drop_region-Sized : (fa : FrameAllocator) (i : ℕ) → Sized fa → Sized (drop_region fa i)
unfolding drop_region
drop_region-Sized fa i s = record {
  slots = length-shift_down no_region (fa.region_count - 1 - i) i fa.regions ∙ s.slots;
  fits = omega (arith, s.fits);
}

put_region-Sized :
    (fa : FrameAllocator) (i : ℕ) (r : MemRegion) → Sized fa → Sized (put_region fa i r)
put_region-Sized fa i r s = record { slots = length-set fa.regions i r ∙ s.slots; fits = s.fits }

insert_tail-Sized :
    (fa : FrameAllocator) (i : ℕ) (r : MemRegion) (c : ℕ)
    → fa.region_count < max_regions
    → Sized fa
    → Sized (insert_tail fa i r c)
unfolding insert_tail
insert_tail-Sized fa i r c k s =
    let n : ℕ = fa.region_count - (i + 1) in
    rw (lt→ltb fa.region_count max_regions k) (record {
      slots =
          length-set (shift_up n fa.region_count no_region fa.regions) (i + 1) r
          ∙ length-shift_up no_region n fa.region_count fa.regions
          ∙ s.slots;
      fits = omega arith;
    })

count-insert_tail :
    (fa : FrameAllocator) (i : ℕ) (r : MemRegion) (c : ℕ)
    → fa.region_count < max_regions
    → (insert_tail fa i r c).region_count ≡ fa.region_count + 1
unfolding insert_tail
count-insert_tail fa i r c k = rw (lt→ltb fa.region_count max_regions k)

pub insert_tail_full :
    (fa : FrameAllocator) (i : ℕ) (r : MemRegion) (c : ℕ)
    → max_regions ≤ fa.region_count
    → insert_tail fa i r c ≡ fa
unfolding insert_tail
insert_tail_full fa i r c k = ground arith

round :
    (fuel base end : ℕ) (fa fa' : FrameAllocator) (i i' : ℕ)
    → i < fa.region_count
    → reserve_step base end fa i ≡ (fa', i')
    → reserve_loop (suc fuel) base end fa i ≡ reserve_loop fuel base end fa' i'
unfolding reserve_loop
round fuel base end fa fa' i i' h e =
    rw (lt→ltb i fa.region_count h, reserve_loop)
      (ap (λ (p : FrameAllocator × ℕ). reserve_loop fuel base end p.0 p.1) e)

last_round :
    (fuel base end : ℕ) (fa : FrameAllocator) (i : ℕ)
    → fa.region_count ≤ i
    → reserve_loop (suc fuel) base end fa i ≡ fa
unfolding reserve_loop
last_round fuel base end fa i h = ground arith

index : (P : List MemRegion) (s : MemRegion) → length P + 1 ≡ length (P ++ (s ∷ []))
index P s = omega (arith, length-append P (s ∷ []))

count-drop_region :
    (fa : FrameAllocator) (i : ℕ) → (drop_region fa i).region_count ≡ fa.region_count - 1
unfolding drop_region
count-drop_region fa i = refl

-- The tail of a region that is cut in the middle starts where the reservation ends.
cut_tail : (base end : ℕ) (t : MemRegion) → t.base ≡ end → cut base end t ≡ apart
cut_tail base end t q = ground arith

-- What is claimed of the loop from the round after the entries `P`.
abbrev Carves : ℕ → ℕ → ℕ → FrameAllocator → List MemRegion → List MemRegion → Type 0
Carves fuel base end fa P Q =
    live (reserve_loop fuel base end fa (length P))
    ≡ P ++ carve (max_regions - fa.region_count) base end Q

live_length :
    (fa : FrameAllocator) (P Q : List MemRegion)
    → Sized fa
    → live fa ≡ P ++ Q
    → length P + length Q ≡ fa.region_count
live_length fa P Q s e = omega (
  arith,
  ap length e,
  length-append P Q,
  length-take_le fa.region_count fa.regions (omega (arith, s.slots, s.fits)),
)

-- Entry `r` of the array is done: the claim for the rounds after it gives the claim with it.
advance :
    (fuel base end m : ℕ) (fa : FrameAllocator) (P Q : List MemRegion) (r : MemRegion)
    → max_regions - fa.region_count ≡ m
    → Carves fuel base end fa (P ++ (r ∷ [])) Q
    → live (reserve_loop fuel base end fa (length P + 1)) ≡ P ++ (r ∷ carve m base end Q)
advance fuel base end m fa P Q r z c =
    rw (index P r, ← z)
      (c ∙ append_assoc P (r ∷ []) (carve (max_regions - fa.region_count) base end Q))

advance_tail :
    (fuel base end m : ℕ) (fa : FrameAllocator) (P Q : List MemRegion) (r t : MemRegion)
    → max_regions - fa.region_count ≡ m
    → t.base ≡ end
    → Carves fuel base end fa (P ++ (r ∷ [])) (t ∷ Q)
    → live (reserve_loop fuel base end fa (length P + 1)) ≡ P ++ (r ∷ t ∷ carve m base end Q)
advance_tail fuel base end m fa P Q r t z b c =
    advance fuel base end m fa P (t ∷ Q) r z c
    ∙ ap (λ l. P ++ (r ∷ l)) (carve_apart m base end t Q (cut_tail base end t b))

snoc :
    (fa : FrameAllocator) (P Q : List MemRegion) (r : MemRegion)
    → live fa ≡ P ++ (r ∷ Q)
    → live fa ≡ (P ++ (r ∷ [])) ++ Q
snoc fa P Q r e = e ∙ sym (append_assoc P (r ∷ []) Q)

-- In as many rounds as the loop can need, the regions from the one at hand on become what `carve`
-- makes of them, and those before it stay.
pub reserve_loop-carve :
    (fuel base end : ℕ) (fa : FrameAllocator) (P Q : List MemRegion)
    → Sized fa
    → live fa ≡ P ++ Q
    → 2 * length Q + (max_regions - fa.region_count) < fuel
    → Carves fuel base end fa P Q
reserve_loop-carve zero base end fa P Q s e f = absurd (omega arith)
reserve_loop-carve (suc fuel) base end fa P [] s e f =
    rw (last_round fuel base end fa (length P) (omega (arith, live_length fa P [] s e)))
      (rw (carve_nil (max_regions - fa.region_count) base end) e)
reserve_loop-carve (suc fuel) base end fa P (r ∷ Q) s e f =
    let v = view fa P r Q (omega (arith, s.slots, s.fits)) e in
    let h : fa.region_count ≤ length fa.regions = omega (arith, s.slots, s.fits) in
    let m : ℕ = max_regions - fa.region_count in
    let i : ℕ = length P in
    let n = live_length fa P (r ∷ Q) s e in
    let go = λ (fa' : FrameAllocator) (i' : ℕ). round fuel base end fa fa' i i' v.inside in
    elim (Cut-cases (cut base end r)) [
      | inl c ↦
          rw (carve_apart m base end r Q c, go fa (i + 1) (step_apart base end fa i r v.at c))
            (advance fuel base end m fa P Q r refl (
              reserve_loop-carve fuel base end fa (P ++ (r ∷ [])) Q s (snoc fa P Q r e)
                (omega arith)))
      | inr (inl c) ↦
          let fa' = drop_region fa i in
          rw (carve_covered m base end r Q c, go fa' i (step_covered base end fa i r v.at c))
            (subst (λ k. live (reserve_loop fuel base end fa' i) ≡ P ++ carve k base end Q)
              (omega (arith, count-drop_region fa i))
              (reserve_loop-carve fuel base end fa' P Q (drop_region-Sized fa i s)
                (live-drop_region fa P r Q h e) (omega (arith, count-drop_region fa i))))
      | inr (inr (inl c)) ↦
          let r' = high_part end r in
          rw
            (
              carve_front m base end r Q c,
              go (put_region fa i r') (i + 1) (step_front base end fa i r v.at c),
            )
            (advance fuel base end m (put_region fa i r') P Q r' refl (
              reserve_loop-carve fuel base end (put_region fa i r') (P ++ (r' ∷ [])) Q
                (put_region-Sized fa i r' s)
                (snoc (put_region fa i r') P Q r' (live-put_region fa P r Q h e r')) (omega arith)))
      | inr (inr (inr (inl c))) ↦
          let r' = low_part base r in
          rw
            (
              carve_back m base end r Q c,
              go (put_region fa i r') (i + 1) (step_back base end fa i r v.at c),
            )
            (advance fuel base end m (put_region fa i r') P Q r' refl (
              reserve_loop-carve fuel base end (put_region fa i r') (P ++ (r' ∷ [])) Q
                (put_region-Sized fa i r' s)
                (snoc (put_region fa i r') P Q r' (live-put_region fa P r Q h e r')) (omega arith)))
      | inr (inr (inr (inr c))) ↦
          let r' = low_part base r in
          let put = put_region fa i r' in
          let ps = put_region-Sized fa i r' s in
          let pl = live-put_region fa P r Q h e r' in
          let x : ℕ = max (get_or fa.low_cursor i 0) end in
          let t = high_part end r in
          let fa' = insert_tail put i t x in
          rw (go fa' (i + 1) (step_middle base end fa i r v.at c))
            (elim (dec_lt fa.region_count max_regions) [
              | yes k ↦
                  let cnt = count-insert_tail put i t x k in
                  rw (carve_split m base end r Q c (omega arith)) (
                    advance_tail fuel base end (m - 1) fa' P Q r' t (omega (arith, cnt)) refl (
                      reserve_loop-carve fuel base end fa' (P ++ (r' ∷ [])) (t ∷ Q)
                        (insert_tail-Sized put i t x k ps)
                        (snoc fa' P (t ∷ Q) r' (
                          live-insert_tail put P r' Q (omega (arith, ps.slots)) pl t x k
                            (omega (arith, ps.slots))))
                        (omega (arith, cnt))))
              | no k ↦
                  rw
                    (
                      carve_full m base end r Q c (omega arith),
                      insert_tail_full put i t x (omega arith),
                    )
                    (advance fuel base end m put P Q r' refl (
                      reserve_loop-carve fuel base end put (P ++ (r' ∷ [])) Q ps
                        (snoc put P Q r' pl) (omega arith)))
            ])
    ]
