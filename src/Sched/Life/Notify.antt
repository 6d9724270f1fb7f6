-- ===== src/Sched/Life/Notify.antt =====
-- The notification word of crates/zenus-sched/src/scheduler.rs, stored by an exit and read once.
use zenus.Base.{ℕ, ◌+◌, ◌*◌, ◌/◌, ◌%◌, ◌^◌, ◌≡◌, ◌<◌, none, some, arith, get_or}
use zenus.Sched.{Task}
use zenus.Sched.Life.{
  Scheduler, check_child_exit_notify, exit_current_task, exit_current_task-exit_slot, exit_word,
}

word-parts :
    (t c : ℕ)
    → t < 2 ^ 32
    → c < 2 ^ 16
    → let w = 2 ^ 63 + c * 2 ^ 32 + t in
      (w / 2 ^ 63 % 2 ≡ 1) × (w % 2 ^ 32 ≡ t) × (w / 2 ^ 32 % 2 ^ 16 ≡ c)
word-parts t c h k = (omega (arith, h, k), omega (arith, h, k), omega (arith, h, k))

-- After the exit of a task the word says its id and its code, as far as 32 and 16 bits hold them, and it
-- says so once.
pub exit-notify :
    (s : Scheduler) (idx code : ℕ) (task : Task)
    → get_or s.tasks.tasks idx none ≡ some task
    → let (first, s') = check_child_exit_notify (exit_current_task s idx code) in
      (first ≡ some (task.id % 2 ^ 32, code % 2 ^ 16)) × ((check_child_exit_notify s').0 ≡ none)
unfolding check_child_exit_notify exit_word
exit-notify s idx code task e =
    let (a, b, c) = word-parts (task.id % 2 ^ 32) (code % 2 ^ 16) (omega arith) (omega arith) in
    rw (exit_current_task-exit_slot s idx code task e) (ground (arith, a, b, c), ground (arith, a))
