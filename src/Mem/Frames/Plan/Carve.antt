-- ===== src/Mem/Frames/Plan/Carve.antt =====
-- What a reservation makes of a list of regions, with the array slots that are left: the list that
-- `reserve_region` computes in place. Rounds of the loop are matched with entries of the list.
use mathlib.Core.List.{append_assoc}
use zenus.Base.{
  take-suc, lt→ltb, ℕ, zero, suc, ◌+◌, ◌-◌, ◌≤◌, ◌<◌, ◌≡◌, ◌⊎◌, refl, ap, ◌∙◌, List, [], ◌∷◌, ◌++◌,
  length, get_or, set, take, drop, arith, max, leb, ltb, ◌&&◌, ◌||◌, if◌then◌else◌, take-suc,
  lt→ltb, sub64, inl, inr, take-set_lt,
}
use mathlib.Core.Path.{ap₂}
use native.Mathlib.Numerals.{add-one}
use zenus.Mem.Frames.{FrameAllocator, MemRegion, no_region, region_end, max_regions, live}
use zenus.Mem.Frames.Plan.{drop_region, put_region, insert_tail, reserve_step}
use zenus.Mem.Frames.Plan.Shift.{take-shift_down, take-shift_up-set, set-append}

abbrev pub low_part : ℕ → MemRegion → MemRegion
low_part base r = record { base = r.base; length = sub64 base r.base }

abbrev pub high_part : ℕ → MemRegion → MemRegion
high_part end r = record { base = end; length = sub64 (region_end r) end }

-- How a reservation meets a region.
pub data Cut : Type 0 where
  apart covered front back middle : Cut

abbrev pub cut : ℕ → ℕ → MemRegion → Cut
cut base end r =
    if leb end r.base || leb (region_end r) base
    then apart
    else if leb base r.base && leb (region_end r) end
    then covered
    else if leb base r.base
    then front
    else if leb (region_end r) end
    then back
    else middle

pub Cut-cases : (c : Cut) → (c ≡ apart) ⊎ (c ≡ covered) ⊎ (c ≡ front) ⊎ (c ≡ back) ⊎ (c ≡ middle)
Cut-cases apart = inl refl
Cut-cases covered = inr (inl refl)
Cut-cases front = inr (inr (inl refl))
Cut-cases back = inr (inr (inr (inl refl)))
Cut-cases middle = inr (inr (inr (inr refl)))

-- The pieces that are left, in order, with `room` free slots in the array. A region that is cut in
-- the middle keeps its tail only if a slot is free.
pub carve : ℕ → ℕ → ℕ → List MemRegion → List MemRegion
carve room base end [] = []
carve room base end (r ∷ rs) =
    let rest = carve room base end rs in
    let more = carve (suc room) base end rs in
    let fewer = carve (room - 1) base end rs in
    elim (cut base end r) [
      | apart ↦ r ∷ rest
      | covered ↦ more
      | front ↦ high_part end r ∷ rest
      | back ↦ low_part base r ∷ rest
      | middle ↦
          if ltb 0 room then low_part base r ∷ high_part end r ∷ fewer else low_part base r ∷ rest
    ]

pub carve_nil : (room base end : ℕ) → carve room base end [] ≡ []
unfolding carve
carve_nil room base end = refl

module _ (room base end : ℕ) (r : MemRegion) (rs : List MemRegion) where
  pub carve_apart :
      cut base end r ≡ apart → carve room base end (r ∷ rs) ≡ r ∷ carve room base end rs
  unfolding carve
  carve_apart c = rw (c, carve)

  pub carve_covered :
      cut base end r ≡ covered → carve room base end (r ∷ rs) ≡ carve (suc room) base end rs
  unfolding carve
  carve_covered c = rw (c, carve)

  pub carve_front :
      cut base end r ≡ front
      → carve room base end (r ∷ rs) ≡ high_part end r ∷ carve room base end rs
  unfolding carve
  carve_front c = rw (c, carve)

  pub carve_back :
      cut base end r ≡ back
      → carve room base end (r ∷ rs) ≡ low_part base r ∷ carve room base end rs
  unfolding carve
  carve_back c = rw (c, carve)

  pub carve_split :
      cut base end r ≡ middle
      → 0 < room
      → carve room base end (r ∷ rs)
        ≡ low_part base r ∷ high_part end r ∷ carve (room - 1) base end rs
  unfolding carve
  carve_split c h = rw (c, carve, lt→ltb 0 room h)

  pub carve_full :
      cut base end r ≡ middle
      → room ≡ 0
      → carve room base end (r ∷ rs) ≡ low_part base r ∷ carve room base end rs
  unfolding carve
  carve_full c h = rw (c, carve, h)

-- The array around the entry that a round looks at.
pub record View (fa : FrameAllocator) (P : List MemRegion) (r : MemRegion) (Q : List MemRegion)
    : Type 0 where
  pub before : take (length P) fa.regions ≡ P
  pub at : get_or fa.regions (length P) no_region ≡ r
  pub behind : take (fa.region_count - 1 - length P) (drop (suc (length P)) fa.regions) ≡ Q
  pub inside : length P < fa.region_count

take_parts :
    (n : ℕ) (xs P Q : List MemRegion) (r : MemRegion)
    → n ≤ length xs
    → take n xs ≡ P ++ (r ∷ Q)
    → (take (length P) xs ≡ P)
      × (get_or xs (length P) no_region ≡ r)
      × (take (n - 1 - length P) (drop (suc (length P)) xs) ≡ Q)
      × (length P < n)
take_parts zero xs [] Q r h e = cc
take_parts zero xs (p ∷ P) Q r h e = cc
take_parts (suc n) [] P Q r h e = absurd (omega arith)
take_parts (suc n) (x ∷ xs) [] Q r h e =
    let z : suc n - 1 - 0 ≡ n = omega arith in
    let q : take n xs ≡ Q = ground arith in (refl, ground arith, rw z q, omega arith)
take_parts (suc n) (x ∷ xs) (p ∷ P) Q r h e =
    let q : take n xs ≡ P ++ (r ∷ Q) = ground arith in
    let hd : x ≡ p = ground arith in
    let ih = take_parts n xs P Q r (omega arith) q in
    let z : suc n - 1 - suc (length P) ≡ n - 1 - length P = omega arith in
    (ap₂ (λ a b. a ∷ b) hd ih.0, ih.1, rw z ih.2, omega (arith, ih.3))

pub view :
    (fa : FrameAllocator) (P : List MemRegion) (r : MemRegion) (Q : List MemRegion)
    → fa.region_count ≤ length fa.regions
    → live fa ≡ P ++ (r ∷ Q)
    → View fa P r Q
view fa P r Q h e =
    let v = take_parts fa.region_count fa.regions P Q r h e in
    record { before = v.0; at = v.1; behind = v.2; inside = v.3 }

-- What the three ways to change the array leave of the live list.
module _ (fa : FrameAllocator) (P : List MemRegion) (r : MemRegion) (Q : List MemRegion)
    (h : fa.region_count ≤ length fa.regions) (e : live fa ≡ P ++ (r ∷ Q)) where
  pub live-drop_region : live (drop_region fa (length P)) ≡ P ++ Q
  unfolding drop_region
  live-drop_region =
      let v = view fa P r Q h e in
      take-shift_down no_region (fa.region_count - 1 - length P) (length P) (fa.region_count - 1)
        fa.regions (omega (arith, v.inside)) (omega (arith, v.inside))
      ∙ ap₂ (λ a b. a ++ b) v.before v.behind

  pub live-put_region : (s : MemRegion) → live (put_region fa (length P) s) ≡ P ++ (s ∷ Q)
  live-put_region s =
      let v = view fa P r Q h e in
      take-set_lt fa.region_count (length P) fa.regions s v.inside
      ∙ ap (λ l. set l (length P) s) e
      ∙ set-append no_region (length P) P Q r s refl

  pub live-insert_tail :
      (s : MemRegion) (c : ℕ)
      → fa.region_count < max_regions
      → fa.region_count < length fa.regions
      → live (insert_tail fa (length P) s c) ≡ P ++ (r ∷ s ∷ Q)
  unfolding insert_tail
  live-insert_tail s c k l =
      let v = view fa P r Q h e in
      let n : ℕ = fa.region_count - 1 - length P in
      let m : fa.region_count - (length P + 1) ≡ n = omega arith in
      rw (lt→ltb fa.region_count max_regions k, m, add-one, add-one)
        (take-shift_up-set no_region n (suc (length P)) fa.region_count fa.regions s
            (omega (arith, v.inside)) l
          ∙ ap₂ (λ a b. a ++ (s ∷ b))
              (take-suc (length P) fa.regions no_region (omega (arith, v.inside))
                ∙ ap₂ (λ a b. a ++ (b ∷ [])) v.before v.at)
              v.behind
          ∙ append_assoc P (r ∷ []) (s ∷ Q))

-- What a round of `reserve_loop` does at an entry, by the way that the reservation meets it.
module _ (base end : ℕ) (fa : FrameAllocator) (i : ℕ) (r : MemRegion)
    (e : get_or fa.regions i no_region ≡ r) where
  pub step_apart : cut base end r ≡ apart → reserve_step base end fa i ≡ (fa, i + 1)
  unfolding reserve_step
  step_apart c = rw e (ground arith)

  pub step_covered : cut base end r ≡ covered → reserve_step base end fa i ≡ (drop_region fa i, i)
  unfolding reserve_step
  step_covered c = rw e (ground arith)

  pub step_front :
      cut base end r ≡ front
      → reserve_step base end fa i ≡ (put_region fa i (high_part end r), i + 1)
  unfolding reserve_step
  step_front c = rw e (ground arith)

  pub step_back :
      cut base end r ≡ back
      → reserve_step base end fa i ≡ (put_region fa i (low_part base r), i + 1)
  unfolding reserve_step
  step_back c = rw e (ground arith)

  pub step_middle :
      cut base end r ≡ middle
      → reserve_step base end fa i ≡ (
        insert_tail
            (put_region fa i (low_part base r))
            i
            (high_part end r)
            (max (get_or fa.low_cursor i 0) end),
        i + 1,
      )
  unfolding reserve_step
  step_middle c = rw e (ground arith)
