-- ===== src/Mem/Frames/History.antt =====
-- Any history of allocations and frees, by callers that free only what they hold.
use zenus.Base.{
  ℕ, ◌≡◌, ◌==◌, ◌||◌, not, ltb, Bool-cases, true, arith, inl, inr, none, some, List, ◌∷◌, ◌++◌,
  Distinct, All-middle, Distinct-middle, Distinct-left, subst, sym,
}
use zenus.Mem.Frames.{FrameAllocator, free_stack_size, recycled, alloc_frame, free_frame}
use zenus.Mem.Frames.Owned.{IsValid, Passed, Owned}
use zenus.Mem.Frames.Alloc.{alloc_frame-Served, alloc_frame-none}
use zenus.Mem.Frames.Recycle.{free_frame-Freed}

-- The allocator and the frames that callers hold.
pub record World : Type 0 where
  pub fa : FrameAllocator
  pub held : List ℕ

-- A failed allocation, a successful one, and a free of any held frame, which its holder gives up
-- whether the allocator takes it back or not.
pub data Step : World → World → Type 0 where
  fail : (w : World) → (alloc_frame w.fa).0 ≡ none → Step w (record w { fa = (alloc_frame w.fa).1 })
  serve :
      (w : World) (x : ℕ)
      → (alloc_frame w.fa).0 ≡ some x
      → Step w (record { fa = (alloc_frame w.fa).1; held = x ∷ w.held })
  give_back :
      (fa : FrameAllocator) (before after : List ℕ) (x : ℕ)
      → Step
          (record { fa = fa; held = before ++ (x ∷ after) })
          (record { fa = free_frame fa x; held = before ++ after })

pub data Reach (w : World) : World → Type 0 where
  here : Reach w w
  next : {u v : World} → Reach w u → Step u v → Reach w v

pub record IsSound (w : World) : Type 0 where
  pub valid : IsValid w.fa
  pub owned : Owned w.fa w.held

free_frame_lost :
    (fa : FrameAllocator) (x : ℕ)
    → (x == 0 || not (ltb fa.free_count free_stack_size)) ≡ true
    → free_frame fa x ≡ fa
unfolding free_frame
free_frame_lost fa x b = ground (arith, b)

Step-IsSound : {u v : World} → Step u v → IsSound u → IsSound v
Step-IsSound (fail w e) s =
    subst (λ fa. IsSound (record w { fa = fa })) (sym (alloc_frame-none w.fa e)) s
Step-IsSound (serve w x e) s =
    let r = alloc_frame-Served w.fa w.held x s.valid s.owned e in
    record { valid = r.keeps; owned = r.owned }
Step-IsSound (give_back fa before after x) s =
    let o : Owned fa (x ∷ (before ++ after)) = record {
      passed = All-middle (Passed fa) before after (recycled fa) x s.owned.passed;
      distinct = Distinct-middle before after (recycled fa) x s.owned.distinct;
    } in
    elim (Bool-cases (x == 0 || not (ltb fa.free_count free_stack_size))) [
      | inl b ↦
          let rest : Owned fa (before ++ after) = record {
            passed = o.passed.1;
            distinct = o.distinct.1;
          } in
          subst (λ f. IsSound (record { fa = f; held = before ++ after }))
            (sym (free_frame_lost fa x b)) (record { valid = s.valid; owned = rest })
      | inr b ↦
          let r =
            free_frame-Freed fa (before ++ after) x s.valid o (ground (arith, b))
              (ground (arith, b)) in
          record { valid = r.keeps; owned = r.owned }
    ]

pub Reach-IsSound : {u v : World} → IsSound u → Reach u v → IsSound v
Reach-IsSound s here = s
Reach-IsSound s (next r st) = Step-IsSound st (Reach-IsSound s r)

-- In every history of allocations and frees of held frames that starts in a sound state, no frame
-- is held twice: two holders never share a page. A free of frame 0 and one on a full stack, which the
-- allocator does not take back, are among them.
pub held_once : {u v : World} → IsSound u → Reach u v → Distinct v.held
held_once {v = w} s r = Distinct-left w.held (recycled w.fa) (Reach-IsSound s r).owned.distinct
