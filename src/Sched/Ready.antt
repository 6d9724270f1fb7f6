-- ===== src/Sched/Ready.antt =====
-- The choice of the next task, `find_next_ready` of crates/zenus-sched/src/scheduler.rs.
use zenus.Base.{
  ℕ, ◌+◌, ◌-◌, ◌≡◌, ◌≢◌, ◌≤◌, ◌<◌, ◌==◌, leb, ltb, sym, ◌∙◌, if◌then◌else◌, Bool, true, false, not,
  ◌&&◌, Option, none, some, arith, refl, Bool-cases, Option-cases, inl, inr, ◌⊎◌,
}
use zenus.Sched.{TaskArray, active_at, active_on, find_next_ready, max_tasks, scan}
use zenus.Sched.Scan.{scan-none, scan-some, scan_finds}

-- How many slots round the table a slot comes after the current one.
abbrev pub rank : ℕ → ℕ → ℕ
rank current j = if ltb current j then j - current else max_tasks + j - current

module _ (a : TaskArray) (current cpu : ℕ) where
  -- The tests of the first and the third loop.
  abbrev own_test : ℕ → Bool
  own_test i = not (i == 0) && active_on a cpu i

  abbrev other_test : ℕ → Bool
  other_test i = not (i == current) && active_at a i

  abbrev first_loop : Option ℕ
  first_loop = scan own_test (current + 1) (max_tasks - (current + 1))

  abbrev second_loop : Option ℕ
  second_loop = scan (active_on a cpu) 1 (current - 1)

  abbrev third_loop : Option ℕ
  third_loop = scan other_test 1 (max_tasks - 1)

  first_pick : (i : ℕ) → first_loop ≡ some i → find_next_ready a current cpu ≡ i
  unfolding find_next_ready
  first_pick i e = rw e refl

  second_pick :
      (i : ℕ) → first_loop ≡ none → second_loop ≡ some i → find_next_ready a current cpu ≡ i
  unfolding find_next_ready
  second_pick i n e = rw n (rw e refl)

  third_pick :
      (i : ℕ)
      → first_loop ≡ none
      → second_loop ≡ none
      → third_loop ≡ some i
      → find_next_ready a current cpu ≡ i
  unfolding find_next_ready
  third_pick i n m e = rw n (rw m (rw e refl))

  last_pick :
      first_loop ≡ none
      → second_loop ≡ none
      → third_loop ≡ none
      → find_next_ready a current cpu ≡ (if active_on a cpu 0 then 0 else current)
  unfolding find_next_ready
  last_pick n m o = rw n (rw m (rw o refl))

  -- A task of the CPU behind the current one: the choice is after the current one, and no later.
  pub next_ready_ahead :
      (j : ℕ)
      → active_on a cpu j ≡ true
      → current < j
      → j < max_tasks
      → let p = find_next_ready a current cpu in (current < p) × (p ≤ j)
  next_ready_ahead j t l u =
      let (i, e, b) =
        scan_finds own_test (current + 1) (max_tasks - (current + 1)) j (omega (arith, l))
          (omega (arith, l, u)) (ground (arith, t, l)) in
      let (f, _, _) = scan-some own_test (current + 1) (max_tasks - (current + 1)) i e in
      rw (first_pick i e) (omega (arith, f), b)

  -- A task of the CPU before the current one: the choice is after the current one, or no later.
  pub next_ready_behind :
      (j : ℕ)
      → active_on a cpu j ≡ true
      → 0 < j
      → j < current
      → current < max_tasks
      → let p = find_next_ready a current cpu in
        ((current < p) × (p < max_tasks)) ⊎ ((0 < p) × (p ≤ j))
  next_ready_behind j t z l u = elim (Option-cases first_loop) [
    | inr (i, e) ↦
        let (f, g, _) = scan-some own_test (current + 1) (max_tasks - (current + 1)) i e in
        rw (first_pick i e) (inl (omega (arith, f), omega (arith, g, u)))
    | inl n ↦
        let (i, e, b) =
          scan_finds (active_on a cpu) 1 (current - 1) j (omega (arith, z)) (omega (arith, l, z))
            t in
        let (f, _, _) = scan-some (active_on a cpu) 1 (current - 1) i e in
        rw (second_pick i n e) (inr (omega (arith, f), b))
  ]

  no_own :
      (i : ℕ)
      → first_loop ≡ none
      → second_loop ≡ none
      → 0 < i
      → i < max_tasks
      → i ≢ current
      → active_on a cpu i ≡ false
  no_own i n m z u o = elim (Bool-cases (leb i current)) [
    | inl b ↦
        scan-none (active_on a cpu) 1 (current - 1) i m (omega (arith, z)) (ground (arith, b, o))
    | inr b ↦ ground (
      arith,
      z,
      scan-none own_test (current + 1) (max_tasks - (current + 1)) i n (ground (arith, b))
          (ground (arith, b, u)),
    )
  ]

  own_passes : (i : ℕ) → active_on a cpu i ≡ true → 0 < i → own_test i ≡ true
  own_passes i b z = rw b (ground (arith, z))

  not_own : (i : ℕ) → own_test i ≡ false → active_on a cpu i ≡ true → 0 < i → ⊥
  not_own i f b z = ground (arith, f, own_passes i b z)

  -- The task that the first loop returns: no task of the CPU comes sooner after the current one.
  first_nearest :
      (i k : ℕ)
      → first_loop ≡ some k
      → current < max_tasks
      → 0 < i
      → i < max_tasks
      → i ≢ current
      → (active_on a cpu i ≡ false) ⊎ (rank current k ≤ rank current i)
  first_nearest i k e c z u o =
      let (f, g, _) = scan-some own_test (current + 1) (max_tasks - (current + 1)) k e in
      elim (Bool-cases (active_on a cpu i)) [
        | inr b ↦ inl b
        | inl b ↦ elim (Bool-cases (ltb current i)) [
          | inr l ↦ inr (ground (arith, l, f, g, u, c, o))
          | inl l ↦
              let (j, q, m) =
                scan_finds own_test (current + 1) (max_tasks - (current + 1)) i (ground (arith, l))
                  (omega (arith, u, c)) (own_passes i b z) in
              let same : j ≡ k = ground (arith, sym q ∙ e) in inr (ground (arith, l, f, same, m))
        ]
      ]

  -- And the task that the second one returns.
  second_nearest :
      (i k : ℕ)
      → first_loop ≡ none
      → second_loop ≡ some k
      → current < max_tasks
      → 0 < i
      → i < max_tasks
      → i ≢ current
      → (active_on a cpu i ≡ false) ⊎ (rank current k ≤ rank current i)
  second_nearest i k n e c z u o =
      let (f, g, _) = scan-some (active_on a cpu) 1 (current - 1) k e in
      elim (Bool-cases (active_on a cpu i)) [
        | inr b ↦ inl b
        | inl b ↦ elim (Bool-cases (ltb current i)) [
          | inl l ↦ absurd (
              not_own i
                (scan-none own_test (current + 1) (max_tasks - (current + 1)) i n
                  (ground (arith, l)) (omega (arith, u, c)))
                b z)
          | inr l ↦
              let (j, q, m) =
                scan_finds (active_on a cpu) 1 (current - 1) i (omega (arith, z))
                  (ground (arith, l, o)) b in
              let same : j ≡ k = ground (arith, sym q ∙ e) in inr (ground (arith, l, f, g, same, m))
        ]
      ]

  third_nearest :
      (i k : ℕ)
      → third_loop ≡ some k
      → 0 < i
      → i < max_tasks
      → i ≢ current
      → (active_at a i ≡ false) ⊎ (k ≤ i)
  third_nearest i k e z u o = elim (Bool-cases (active_at a i)) [
    | inr b ↦ inl b
    | inl b ↦
        let (j, q, m) =
          scan_finds other_test 1 (max_tasks - 1) i (omega (arith, z)) (omega (arith, u))
            (rw b (ground (arith, o))) in
        let same : j ≡ k = ground (arith, sym q ∙ e) in inr (omega (arith, same, m))
  ]

  -- For the choice and any task of the slots 1 to 127 other than the current one: the choice is another active
  -- task of the CPU, and this task is none or does not come sooner after the current one, going round; or
  -- this task is none of the CPU, the choice is another active task, and this one is not active or has no
  -- lower slot; or this task is not active, and the choice is the idle task if it is active and of the CPU, and
  -- else the current one.
  pub find_next_ready_order :
      (i : ℕ)
      → current < max_tasks
      → 0 < i
      → i < max_tasks
      → i ≢ current
      → let p = find_next_ready a current cpu in
        ((active_on a cpu p ≡ true)
          × (0 < p)
          × (p ≢ current)
          × ((active_on a cpu i ≡ false) ⊎ (rank current p ≤ rank current i)))
        ⊎ (((active_on a cpu i ≡ false)
              × (active_at a p ≡ true)
              × (0 < p)
              × (p ≢ current)
              × ((active_at a i ≡ false) ⊎ (p ≤ i)))
            ⊎ ((active_at a i ≡ false) × (p ≡ (if active_on a cpu 0 then 0 else current))))
  find_next_ready_order i c z u o = elim (Option-cases first_loop) [
    | inr (k, e) ↦
        let (f, _, t) = scan-some own_test (current + 1) (max_tasks - (current + 1)) k e in
        rw (first_pick k e)
          (inl (ground (arith, t), omega (arith, f), omega (arith, f), first_nearest i k e c z u o))
    | inl n ↦ elim (Option-cases second_loop) [
      | inr (k, e) ↦
          let (f, g, t) = scan-some (active_on a cpu) 1 (current - 1) k e in
          rw (second_pick k n e)
            (inl (t, omega (arith, f), omega (arith, f, g), second_nearest i k n e c z u o))
      | inl m ↦ elim (Option-cases third_loop) [
        | inr (k, e) ↦
            let (f, _, t) = scan-some other_test 1 (max_tasks - 1) k e in
            rw (third_pick k n m e) (
              inr (
                inl (
                  no_own i n m z u o,
                  ground (arith, t),
                  omega (arith, f),
                  ground (arith, t),
                  third_nearest i k e z u o,
                )))
        | inl l ↦
            let idle : active_at a i ≡ false = ground (
              arith,
              o,
              scan-none other_test 1 (max_tasks - 1) i l (omega (arith, z)) (omega (arith, u)),
            ) in
            inr (inr (idle, last_pick n m l))
      ]
    ]
  ]
