-- ===== src/Sched/Life/Reaped.antt =====
-- From the exit of a task to the answer its parent gets, crates/zenus-sched/src/scheduler.rs.
use zenus.Base.{
  ℕ, zero, suc, ◌^◌, ◌≡◌, ◌≤◌, ◌<◌, ◌-◌, ◌==◌, Bool, not, ◌&&◌, Option, none, some, List, arith,
  refl, get_or, ◌⊎◌, inl, inr, ap, ◌∙◌,
}
use zenus.Sched.{Task, ZombieList, ZombieRecord, find_by_child, max_zombies, push, record_is}
use zenus.Sched.Zombies.{IsValid, one_if, tally, tally_of}
use zenus.Sched.Children.{find_by_child-tally, push-tally}
use zenus.Sched.Life.{
  Scheduler, exit_current_task, exit_current_task-exit_slot, exit_status, wait_for_child,
}

module _ (test other : ZombieRecord → Bool) where
  tally_of_le :
      ((rec : ZombieRecord) → one_if (other rec) ≤ one_if (test rec))
      → (records : List (Option ZombieRecord)) (n : ℕ)
      → tally_of other records n ≤ tally_of test records n
  unfolding tally_of
  tally_of_le h records zero = omega arith
  tally_of_le h records (suc n) =
      omega (arith, tally_of_le h records n, slot_le (get_or records n none))
    where
      slot_le : (o : Option ZombieRecord) → one_if (record_is other o) ≤ one_if (record_is test o)
      slot_le none = omega arith
      slot_le (some rec) = h rec

-- A search for a child whose every record has one exit code.
find_by_child_status :
    (z : ZombieList) (pid code : ℕ)
    → IsValid z
    → 0 < tally (λ rec. rec.child_pid == pid) z
    → tally (λ rec. rec.child_pid == pid && not (rec.exit_code == code)) z ≡ 0
    → exit_status (find_by_child z pid).0 ≡ some (pid, code)
find_by_child_status z pid code v some_record same_code =
    elim (find_by_child-tally z pid (λ rec. rec.child_pid == pid && not (rec.exit_code == code))
      v) [
        | inr (_, _, n) ↦ ground (arith, n, some_record)
        | inl (rec, e, m, t, _) ↦ rw e (ground (arith, m, t, same_code))
      ]

find_by_child_nothing :
    (z : ZombieList) (pid : ℕ)
    → IsValid z
    → tally (λ rec. rec.child_pid == pid) z ≡ 0
    → exit_status (find_by_child z pid).0 ≡ none
find_by_child_nothing z pid v n = elim (find_by_child-tally z pid (λ rec. rec.child_pid == pid) v) [
  | inr (e, _, _) ↦ rw e refl
  | inl (rec, e, m, t, _) ↦ ground (arith, n, m, t)
]

wait-find_by_child :
    (s : Scheduler) (parent pid options : ℕ)
    → 0 < pid
    → pid < 2 ^ 64 - 1
    → (wait_for_child s parent pid options).0 ≡ exit_status (find_by_child s.zombies pid).0
unfolding wait_for_child
wait-find_by_child s parent pid options z l = ground (arith, z, l)

-- A task ends whose id no record has yet. If there is room for one more record, whoever waits for it
-- learns its id and its code; with 64 records the exit is forgotten and the wait finds nothing.
pub exit-wait :
    (s : Scheduler) (idx code parent options : ℕ) (task : Task)
    → get_or s.tasks.tasks idx none ≡ some task
    → IsValid s.zombies
    → tally (λ rec. rec.child_pid == task.id) s.zombies ≡ 0
    → 0 < task.id
    → task.id < 2 ^ 64 - 1
    → let answer = (wait_for_child (exit_current_task s idx code) parent task.id options).0 in
      ((s.zombies.count < max_zombies) × (answer ≡ some (task.id, code)))
      ⊎ ((s.zombies.count ≡ max_zombies) × (answer ≡ none))
unfolding tally
exit-wait s idx code parent options task e v fresh z l =
    let pid = task.id in
    let is_child = λ (rec : ZombieRecord). rec.child_pid == pid in
    let other_code = λ (rec : ZombieRecord). rec.child_pid == pid && not (rec.exit_code == code) in
    let rec : ZombieRecord = record {
      child_pid = pid;
      parent_pid = task.parent_pid;
      exit_code = code;
    } in
    let w = (push s.zombies rec).1 in
    let asks =
      ap (λ u. (wait_for_child u parent pid options).0)
        (exit_current_task-exit_slot s idx code task e)
      ∙ wait-find_by_child _ parent pid options z l in
    elim (push-tally is_child s.zombies rec v) [
      | inr (full, _, same) ↦ inr (
        full,
        asks
            ∙ ap (λ u. exit_status (find_by_child u pid).0) same
            ∙ find_by_child_nothing s.zombies pid v fresh,
      )
      | inl (room, _, valid, one) ↦ elim (push-tally other_code s.zombies rec v) [
        | inr (full, _, _) ↦ ground (arith, full, room)
        | inl (_, _, _, none_other) ↦ inl (
          room,
          asks
              ∙ find_by_child_status w pid code valid (ground (arith, one)) (
                  ground (
                    arith,
                    none_other,
                    fresh,
                    tally_of_le is_child other_code (λ r. ground arith) s.zombies.records
                        s.zombies.count,
                  )),
        )
      ]
    ]
