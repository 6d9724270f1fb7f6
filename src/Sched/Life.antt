-- ===== src/Sched/Life.antt =====
-- The end of a task and what its parent does about it: `exit_current_task`, `wait_for_child`, `reap_task`,
-- the notification word and `signal_deliver` of crates/zenus-sched/src/scheduler.rs. What the exit does to the
-- page tables, the stack, the control group and the PID namespace, and the switch to the next task at its end, are
-- left out. The parts behind the several locks are one record.
pub mod Notify
pub mod Reaped
use zenus.Base.{
  ◌≡◌, refl, ℕ, zero, suc, ◌+◌, ◌-◌, ◌*◌, ◌/◌, ◌%◌, ◌^◌, ◌==◌, ltb, leb, if◌then◌else◌, Bool, true,
  false, not, ◌&&◌, ◌||◌, Option, none, some, List, get_or, set,
}
use zenus.Sched.Caps.{with_bit}
use zenus.Sched.{
  Task, TaskArray, TaskState, ZombieList, ZombieRecord, find_any_child, find_by_child, mark_freed,
  max_tasks, push, reap_all_for_parent, scan, sleeping, waiting, ready, terminated, running,
  stopped, task_is,
}

pub record Scheduler : Type 0 where
  pub tasks : TaskArray
  pub zombies : ZombieList
  pub child_exit_notify : ℕ
  pub task_count : ℕ
  pub cpu_task_count : List ℕ

abbrev pub is_terminated : TaskState → Bool
is_terminated ready = false
is_terminated running = false
is_terminated waiting = false
is_terminated sleeping = false
is_terminated terminated = true
is_terminated stopped = false

abbrev pub is_blocked : TaskState → Bool
is_blocked ready = false
is_blocked running = false
is_blocked waiting = true
is_blocked sleeping = true
is_blocked terminated = false
is_blocked stopped = false

abbrev pub sigchld : ℕ
sigchld = 17

abbrev pub signalled : ℕ → Task → Task
signalled sig task =
    let task' = record task { pending_signals = with_bit task.pending_signals sig } in
    if is_blocked task.state then record task' { state = ready } else task'

abbrev pub map_slot : (Task → Task) → Option Task → Option Task
map_slot f none = none
map_slot f (some task) = some (f task)

-- The slot of the first task that passes.
pub find_task : (Task → Bool) → TaskArray → Option ℕ
unfolding scan
find_task test a = scan (λ i. task_is test (get_or a.tasks i none)) 0 max_tasks

abbrev pub at_slot : (Task → Task) → TaskArray → Option ℕ → TaskArray
at_slot f a none = a
at_slot f a (some i) = record a { tasks = set a.tasks i (map_slot f (get_or a.tasks i none)) }

pub signal_deliver : TaskArray → ℕ → ℕ → TaskArray
unfolding find_task
signal_deliver a task_id sig = at_slot (signalled sig) a (find_task (λ task. task.id == task_id) a)

-- The word that `exit_current_task` stores. The parts do not overlap, so `|` is a sum.
pub exit_word : ℕ → ℕ → ℕ
exit_word task_id code = 2 ^ 63 + code % 2 ^ 16 * 2 ^ 32 + task_id % 2 ^ 32

-- The exit of the task in the slot.
abbrev pub exit_slot : Scheduler → ℕ → ℕ → Task → Scheduler
exit_slot s idx code task =
    let dead = record task { state = terminated; exit_code = code } in
    let tasks = record s.tasks { tasks = set s.tasks.tasks idx (some dead) } in
    let rec : ZombieRecord = record {
      child_pid = task.id;
      parent_pid = task.parent_pid;
      exit_code = code;
    } in
    record s {
      tasks = signal_deliver tasks task.parent_pid sigchld;
      zombies = (push s.zombies rec).1;
      child_exit_notify = exit_word task.id code;
    }

-- An empty slot has no task to end.
pub exit_current_task : Scheduler → ℕ → ℕ → Scheduler
unfolding signal_deliver push exit_word
exit_current_task s idx code = elim (get_or s.tasks.tasks idx none) [
  | none ↦ s
  | some task ↦ exit_slot s idx code task
]

abbrev pub exit_status : Option ZombieRecord → Option (ℕ × ℕ)
exit_status none = none
exit_status (some rec) = some (rec.child_pid, rec.exit_code)

-- `-1i64 as u64` is 2 ^ 64 - 1. The options change nothing.
pub wait_for_child : Scheduler → ℕ → ℕ → ℕ → Option (ℕ × ℕ) × Scheduler
unfolding find_any_child find_by_child
wait_for_child s parent_pid child_pid options =
    let (result, zombies) =
      if child_pid == 2 ^ 64 - 1 || child_pid == 0
      then find_any_child s.zombies parent_pid
      else find_by_child s.zombies child_pid in
    (exit_status result, record s { zombies = zombies })

-- The counters are u32 and wrap.
abbrev pub minus_one : ℕ → ℕ
minus_one n = (n + 2 ^ 32 - 1) % 2 ^ 32

abbrev pub cpu_of : Option Task → ℕ
cpu_of none = 0
cpu_of (some task) = task.cpu

abbrev pub reap_slot : Scheduler → Option ℕ → Scheduler
reap_slot s none = s
reap_slot s (some i) =
    let cpu = cpu_of (get_or s.tasks.tasks i none) in
    let tasks = mark_freed s.tasks i in
    record s {
      tasks = record tasks { tasks = set tasks.tasks i none };
      task_count = minus_one s.task_count;
      cpu_task_count = set s.cpu_task_count cpu (minus_one (get_or s.cpu_task_count cpu 0));
    }

pub reap_task : Scheduler → ℕ → Scheduler
unfolding find_task mark_freed
reap_task s task_id =
    reap_slot s (find_task (λ task. task.id == task_id && is_terminated task.state) s.tasks)

pub check_child_exit_notify : Scheduler → Option (ℕ × ℕ) × Scheduler
check_child_exit_notify s =
    let val = s.child_exit_notify in
    let cleared = record s { child_exit_notify = 0 } in
    if val / 2 ^ 63 % 2 == 1
    then (some (val % 2 ^ 32, val / 2 ^ 32 % 2 ^ 16), cleared)
    else (none, cleared)

pub reap_zombies_for_parent : Scheduler → ℕ → Scheduler
unfolding reap_all_for_parent
reap_zombies_for_parent s parent_pid = record s {
  zombies = reap_all_for_parent s.zombies parent_pid;
}

pub exit_current_task-exit_slot :
    (s : Scheduler) (idx code : ℕ) (task : Task)
    → get_or s.tasks.tasks idx none ≡ some task
    → exit_current_task s idx code ≡ exit_slot s idx code task
unfolding exit_current_task
exit_current_task-exit_slot s idx code task e = rw (e, exit_current_task) refl
