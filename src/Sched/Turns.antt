-- ===== src/Sched/Turns.antt =====
-- Every task gets its turn: a sequence of choices of crates/zenus-sched/src/scheduler.rs.
use zenus.Base.{
  ℕ, zero, suc, ◌+◌, ◌-◌, ◌≡◌, ◌≢◌, ◌≤◌, ◌<◌, ◌==◌, leb, ltb, if◌then◌else◌, true, arith,
  Bool-cases, inl, inr,
}
use zenus.Sched.{TaskArray, active_on, find_next_ready, max_tasks}
use zenus.Sched.Ready.{next_ready_ahead, next_ready_behind}

-- The current task after `n` choices of the CPU, where the tables are what the others make of them.
pub picks : (ℕ → TaskArray) → ℕ → ℕ → ℕ → ℕ
picks tables cpu current zero = current
picks tables cpu current (suc n) =
    picks (λ k. tables (suc k)) cpu (find_next_ready (tables 0) current cpu) n

-- How far round the table it is to a task.
distance : ℕ → ℕ → ℕ
distance current j = if leb current j then j - current else max_tasks + j - current

-- A choice comes nearer to a task of the CPU that it does not leave out.
nearer :
    (a : TaskArray) (cpu current j : ℕ)
    → active_on a cpu j ≡ true
    → 0 < j
    → j < max_tasks
    → current < max_tasks
    → current ≢ j
    → let p = find_next_ready a current cpu in (p < max_tasks) × (distance p j < distance current j)
unfolding distance
nearer a cpu current j t z u c n = elim (Bool-cases (ltb current j)) [
  | inl b ↦ ground (arith, b, u, next_ready_ahead a current cpu j t (ground (arith, b)) u)
  | inr b ↦ elim (next_ready_behind a current cpu j t z (ground (arith, b, n)) c) [
    | inl (l, m) ↦ ground (arith, b, l, m, n, c)
    | inr (l, m) ↦ ground (arith, b, l, m, n, c, u)
  ]
]

turn_within :
    (bound : ℕ) (tables : ℕ → TaskArray) (cpu current j : ℕ)
    → ((k : ℕ) → active_on (tables k) cpu j ≡ true)
    → 0 < j
    → j < max_tasks
    → current < max_tasks
    → distance current j ≤ bound
    → (n : ℕ) × (n ≤ bound) × (picks tables cpu current n ≡ j)
unfolding picks distance
turn_within zero tables cpu current j t z u c d = (0, omega arith, ground (arith, d, z, u, c))
turn_within (suc bound) tables cpu current j t z u c d = elim (Bool-cases (current == j)) [
  | inl e ↦ (0, omega arith, ground (arith, e))
  | inr e ↦
      let p = find_next_ready (tables 0) current cpu in
      let (b, l) = nearer (tables 0) cpu current j (t 0) z u c (ground (arith, e)) in
      let (n, m, f) =
        turn_within bound (λ k. tables (suc k)) cpu p j (λ k. t (suc k)) z u b (less d l) in
      (suc n, omega (arith, m), f)
]
  where
    less : {a b n : ℕ} → a ≤ suc n → b < a → b ≤ n
    less h l = omega (arith, h, l)

-- A task of the slots 1 to 127 that stays ready for the CPU, whatever else becomes of the table between
-- the choices, is the current task after fewer than 128 of them.
pub turn_comes :
    (tables : ℕ → TaskArray) (cpu current j : ℕ)
    → ((k : ℕ) → active_on (tables k) cpu j ≡ true)
    → 0 < j
    → j < max_tasks
    → current < max_tasks
    → (n : ℕ) × (n < max_tasks) × (picks tables cpu current n ≡ j)
unfolding distance
turn_comes tables cpu current j t z u c =
    let (n, b, e) =
      turn_within (max_tasks - 1) tables cpu current j t z u c (ground (arith, z, u, c)) in
    (n, omega (arith, b), e)
