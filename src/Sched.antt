-- ===== src/Sched.antt =====
-- The task table, the choice of the next task and the records of dead children,
-- crates/zenus-sched/src/scheduler.rs, with the task states of crates/zenus-sched/src/task.rs. A task has
-- the fields that these functions read or write. An index at or above the table's 128 slots, where the
-- source panics, reads an empty slot.
pub mod Scan
pub mod Ready
pub mod Turns
pub mod Slots
pub mod Zombies
pub mod Children
pub mod Reap
pub mod Life
pub mod Caps
pub mod Signals
mod Tests
use zenus.Base.{
  ℕ, zero, suc, ◌+◌, ◌-◌, ◌==◌, ◌^◌, ltb, leb, if◌then◌else◌, Bool, true, false, not, ◌&&◌, ◌||◌,
  Option, none, some, List, [], ◌∷◌, get_or, set, replicate, sub64, ◌*◌,
}

abbrev pub max_tasks : ℕ
max_tasks = 128

abbrev pub max_zombies : ℕ
max_zombies = 64

abbrev pub stack_guard : ℕ
stack_guard = 32 * 1024

abbrev pub min_task_stack : ℕ
min_task_stack = stack_guard + 4 * 1024

abbrev pub frame_bytes : ℕ
frame_bytes = 160

abbrev pub isr_descent : ℕ
isr_descent = 40 + 15 * 8

-- `isize::MAX` is 2 ^ 63 - 1.
pub stack_size_is_valid : ℕ → Bool
stack_size_is_valid stack_size =
    leb min_task_stack stack_size
    && (leb stack_size (2 ^ 63 - 1) && leb frame_bytes (stack_size - stack_guard))

-- The subtraction wraps.
pub frame_base : ℕ → ℕ
frame_base stack_top = sub64 stack_top stack_guard

pub data TaskState : Type 0 where
  ready : TaskState
  running : TaskState
  waiting : TaskState
  sleeping : TaskState
  terminated : TaskState
  stopped : TaskState

pub record Task : Type 0 where
  pub id : ℕ
  pub state : TaskState
  pub cpu : ℕ
  pub parent_pid : ℕ
  pub exit_code : ℕ
  pub pending_signals : ℕ
  pub signal_mask : ℕ
  pub signal_handlers : List ℕ

pub record TaskArray : Type 0 where
  pub tasks : List (Option Task)
  pub next_free : ℕ

pub new_tasks : TaskArray
new_tasks = record { tasks = replicate max_tasks none; next_free = 0 }

abbrev pub is_live : TaskState → Bool
is_live ready = true
is_live running = true
is_live waiting = false
is_live sleeping = false
is_live terminated = false
is_live stopped = false

abbrev pub is_active : Task → Bool
is_active task = is_live task.state

-- The first index of the next `rounds` from `idx` on that passes: a loop `for idx in a..b` which returns.
pub scan : (ℕ → Bool) → ℕ → ℕ → Option ℕ
scan test idx zero = none
scan test idx (suc rounds) =
    let rest = scan test (suc idx) rounds in if test idx then some idx else rest

abbrev pub is_empty : Option Task → Bool
is_empty none = true
is_empty (some task) = false

pub empty_at : List (Option Task) → ℕ → Bool
empty_at tasks i = is_empty (get_or tasks i none)

abbrev pub found : TaskArray → Option ℕ → Option ℕ × TaskArray
found a none = (none, a)
found a (some i) = (some i, record a { next_free = i + 1 })

abbrev pub or_scan : Option ℕ → Option ℕ → Option ℕ
or_scan none next = next
or_scan (some i) next = some i

pub find_free : TaskArray → Option ℕ × TaskArray
unfolding scan empty_at
find_free a = found a (
    or_scan (scan (empty_at a.tasks) a.next_free (max_tasks - a.next_free))
      (scan (empty_at a.tasks) 0 a.next_free))

pub mark_freed : TaskArray → ℕ → TaskArray
mark_freed a idx = if ltb idx a.next_free then record a { next_free = idx } else a

abbrev pub task_is : (Task → Bool) → Option Task → Bool
task_is test none = false
task_is test (some task) = test task

-- An active task at the index.
pub active_at : TaskArray → ℕ → Bool
active_at a i = task_is is_active (get_or a.tasks i none)

-- An active task of the CPU at the index.
pub active_on : TaskArray → ℕ → ℕ → Bool
active_on a cpu i = task_is (λ task. is_active task && task.cpu == cpu) (get_or a.tasks i none)

-- The last resort of `find_next_ready`.
abbrev pub or_idle : Bool → ℕ → Option ℕ → ℕ
or_idle idle current (some i) = i
or_idle idle current none = if idle then 0 else current

pub find_next_ready : TaskArray → ℕ → ℕ → ℕ
unfolding scan active_on active_at
find_next_ready a current cpu = or_idle (active_on a cpu 0) current (
    or_scan
      (scan (λ i. not (i == 0) && active_on a cpu i) (current + 1) (max_tasks - (current + 1)))
      (or_scan (scan (active_on a cpu) 1 (current - 1))
        (scan (λ i. not (i == current) && active_at a i) 1 (max_tasks - 1))))

abbrev pub on_cpu : ℕ → Option Task → Option Task
on_cpu cpu none = none
on_cpu cpu (some task) = some (record task { cpu = cpu })

pub migrate_task_to_cpu : TaskArray → ℕ → ℕ → TaskArray
migrate_task_to_cpu a idx cpu = record a {
  tasks = set a.tasks idx (on_cpu cpu (get_or a.tasks idx none));
}

pub record ZombieRecord : Type 0 where
  pub child_pid : ℕ
  pub parent_pid : ℕ
  pub exit_code : ℕ

pub record ZombieList : Type 0 where
  pub records : List (Option ZombieRecord)
  pub count : ℕ

pub no_zombies : ZombieList
no_zombies = record { records = replicate max_zombies none; count = 0 }

pub push : ZombieList → ZombieRecord → Bool × ZombieList
push z rec =
    if leb max_zombies z.count
    then (false, z)
    else (true, record { records = set z.records z.count (some rec); count = z.count + 1 })

abbrev pub record_is : (ZombieRecord → Bool) → Option ZombieRecord → Bool
record_is test none = false
record_is test (some rec) = test rec

-- A record at the index that passes.
pub record_at : (ZombieRecord → Bool) → ZombieList → ℕ → Bool
record_at test z i = record_is test (get_or z.records i none)

-- `records.swap(i, j)`
pub swap : List (Option ZombieRecord) → ℕ → ℕ → List (Option ZombieRecord)
swap records i j = set (set records i (get_or records j none)) j (get_or records i none)

-- The record at the index is taken out, and the last one put there.
pub take_record : ZombieList → ℕ → ZombieList
unfolding swap
take_record z i =
    let records = set z.records i none in
    let count = z.count - 1 in
    record { records = if ltb i count then swap records i count else records; count = count }

-- The return of a search.
pub taken : ZombieList → Option ℕ → Option ZombieRecord × ZombieList
unfolding take_record
taken z none = (none, z)
taken z (some i) = (get_or z.records i none, take_record z i)

pub find_by_child : ZombieList → ℕ → Option ZombieRecord × ZombieList
unfolding taken scan record_at
find_by_child z child_pid =
    taken z (scan (record_at (λ rec. rec.child_pid == child_pid) z) 0 z.count)

pub find_any_child : ZombieList → ℕ → Option ZombieRecord × ZombieList
unfolding taken scan record_at
find_any_child z parent_pid =
    taken z (scan (record_at (λ rec. rec.parent_pid == parent_pid) z) 0 z.count)

-- The loop of `reap_all_for_parent`, with the rounds it can take.
pub reap_from : (ZombieRecord → Bool) → ℕ → ZombieList → ℕ → ZombieList
unfolding record_at take_record
reap_from test zero z i = z
reap_from test (suc rounds) z i =
    let again = reap_from test rounds (take_record z i) i in
    let next = reap_from test rounds z (i + 1) in
    if ltb i z.count then (if record_at test z i then again else next) else z

pub reap_all_for_parent : ZombieList → ℕ → ZombieList
unfolding reap_from
reap_all_for_parent z parent_pid = reap_from (λ rec. rec.parent_pid == parent_pid) z.count z 0
