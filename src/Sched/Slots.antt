-- ===== src/Sched/Slots.antt =====
-- The search for a free slot and its hint, `TaskArray` of crates/zenus-sched/src/scheduler.rs.
use zenus.Base.{
  ℕ, ◌+◌, ◌-◌, ◌≡◌, ◌≤◌, ◌<◌, leb, true, false, Option, none, some, arith, refl, Bool-cases,
  Option-cases, inl, inr, ◌⊎◌,
}
use zenus.Sched.{TaskArray, empty_at, find_free, max_tasks, scan}
use zenus.Sched.Scan.{scan-none, scan-some}

module _ (a : TaskArray) where
  abbrev above : Option ℕ
  above = scan (empty_at a.tasks) a.next_free (max_tasks - a.next_free)

  abbrev below : Option ℕ
  below = scan (empty_at a.tasks) 0 a.next_free

  found_above : (k : ℕ) → above ≡ some k → find_free a ≡ (some k, record a { next_free = k + 1 })
  unfolding find_free
  found_above k e = rw e refl

  found_below :
      (k : ℕ)
      → above ≡ none
      → below ≡ some k
      → find_free a ≡ (some k, record a { next_free = k + 1 })
  unfolding find_free
  found_below k n e = rw n (rw e refl)

  found_nowhere : above ≡ none → below ≡ none → find_free a ≡ (none, a)
  unfolding find_free
  found_nowhere n e = rw n (rw e refl)

  -- Wherever the hint stands, the search finds an empty slot of the table, and moves the hint behind it but
  -- not past the table's end; or it finds none, changes nothing, and no slot of the table is empty.
  pub find_free-empty_at :
      (i : ℕ)
      → a.next_free ≤ max_tasks
      → i < max_tasks
      → let (slot, b) = find_free a in
        ((k : ℕ) × (slot ≡ some k)
          × (empty_at a.tasks k ≡ true)
          × (b.tasks ≡ a.tasks)
          × (b.next_free ≡ k + 1)
          × (b.next_free ≤ max_tasks))
        ⊎ ((slot ≡ none) × (b ≡ a) × (empty_at a.tasks i ≡ false))
  find_free-empty_at i h u = elim (Option-cases above) [
    | inr (k, e) ↦
        let (_, l, t) = scan-some (empty_at a.tasks) a.next_free (max_tasks - a.next_free) k e in
        rw (found_above k e) (inl (k, refl, t, refl, refl, (omega (arith, l, h))))
    | inl n ↦ elim (Option-cases below) [
      | inr (k, e) ↦
          let (_, l, t) = scan-some (empty_at a.tasks) 0 a.next_free k e in
          rw (found_below k n e) (inl (k, refl, t, refl, refl, (omega (arith, l, h))))
      | inl m ↦ rw (found_nowhere n m) (
          inr (
            refl,
            refl,
            (elim (Bool-cases (leb a.next_free i)) [
              | inl b ↦
                  scan-none (empty_at a.tasks) a.next_free (max_tasks - a.next_free) i n
                    (ground (arith, b)) (omega (arith, u, h))
              | inr b ↦
                  scan-none (empty_at a.tasks) 0 a.next_free i m (omega arith) (ground (arith, b))
            ]),
          ))
    ]
  ]
