-- ===== src/Sched/Tests.antt =====
-- The theorems on the files of crates/zenus-sched/src at concrete tables.
use zenus.Base.{
  if◌then◌else◌, ◌≤◌, List, ◌++◌, ◌+◌, ◌%◌, ◌^◌, not, ◌&&◌, ◌||◌, ℕ, ◌≡◌, ◌≢◌, ◌<◌, ◌⊎◌, ◌==◌, Bool,
  true, false, none, some, [], ◌∷◌, arith, refl, replicate,
}
use zenus.Sched.Signals.{
  attempt, arrive, Event, check_and_deliver_signal, check_and_deliver_signal-next_signal, frame_rsp,
  handler_of, next_signal, pending_at,
}
use zenus.Sched.Caps.{all, clear, drops, has, has-drops, listed, may_kill, may_set_uid}
use zenus.Sched.{
  Task, TaskArray, ZombieList, ZombieRecord, active_at, active_on, find_next_ready, max_tasks,
  max_zombies, ready, reap_all_for_parent, running, sleeping,
}
use zenus.Sched.Ready.{find_next_ready_order, rank}
use zenus.Sched.Turns.{picks, turn_comes}
use zenus.Sched.Zombies.{IsValid, tally, tally_of}
use zenus.Sched.Reap.{reap_all_for_parent-tally, without}
use zenus.Sched.Life.{Scheduler, exit_current_task, wait_for_child}
use zenus.Sched.Life.Reaped.{exit-wait}

-- An idle task, a sleeping parent, a running child and a ready task of the other CPU.
abbrev idle_task : Task
idle_task = record {
  id = 1;
  state = ready;
  cpu = 0;
  parent_pid = 0;
  exit_code = 0;
  pending_signals = 0;
  signal_mask = 0;
  signal_handlers = replicate 64 0;
}

abbrev parent : Task
parent = record idle_task { id = 2; state = sleeping }

abbrev child : Task
child = record idle_task { id = 3; state = running; parent_pid = 2 }

abbrev far_task : Task
far_task = record idle_task { id = 4; cpu = 1 }

abbrev four_tasks : TaskArray
four_tasks = record {
  tasks = some idle_task ∷ some parent ∷ some child ∷ some far_task ∷ replicate 124 none;
  next_free = 4;
}

find_next_ready_order_example :
    ((active_on four_tasks 1 (find_next_ready four_tasks 2 1) ≡ true)
      × (0 < find_next_ready four_tasks 2 1)
      × (find_next_ready four_tasks 2 1 ≢ 2)
      × ((active_on four_tasks 1 3 ≡ false) ⊎ (rank 2 (find_next_ready four_tasks 2 1) ≤ rank 2 3)))
    ⊎ (((active_on four_tasks 1 3 ≡ false)
          × (active_at four_tasks (find_next_ready four_tasks 2 1) ≡ true)
          × (0 < find_next_ready four_tasks 2 1)
          × (find_next_ready four_tasks 2 1 ≢ 2)
          × ((active_at four_tasks 3 ≡ false) ⊎ (find_next_ready four_tasks 2 1 ≤ 3)))
        ⊎ ((active_at four_tasks 3 ≡ false)
            × (find_next_ready four_tasks 2 1 ≡ (if active_on four_tasks 1 0 then 0 else 2))))
find_next_ready_order_example =
    find_next_ready_order four_tasks 2 1 3 (omega arith) (omega arith) (omega arith) (omega arith)

turn_comes_example : (n : ℕ) × (n < max_tasks) × (picks (λ k. four_tasks) 0 3 n ≡ 2)
unfolding active_on
turn_comes_example =
    turn_comes (λ k. four_tasks) 0 3 2 (λ k. refl) (omega arith) (omega arith) (omega arith)

abbrev old_record : ZombieRecord
old_record = record { child_pid = 9; parent_pid = 2; exit_code = 1 }

abbrev other_record : ZombieRecord
other_record = record { child_pid = 8; parent_pid = 5; exit_code = 0 }

abbrev two_zombies : ZombieList
two_zombies = record {
  records = some old_record ∷ some other_record ∷ replicate 62 none;
  count = 2;
}

two_zombies-IsValid : IsValid two_zombies
two_zombies-IsValid = record { size = refl; room = omega arith }

abbrev of_five : ZombieRecord → Bool
of_five rec = rec.parent_pid == 5

reap_all_for_parent-tally_example :
    (tally of_five (reap_all_for_parent two_zombies 2)
      ≡ tally (without of_five (λ rec. rec.parent_pid == 2)) two_zombies)
    × (IsValid (reap_all_for_parent two_zombies 2))
reap_all_for_parent-tally_example =
    reap_all_for_parent-tally two_zombies 2 of_five two_zombies-IsValid

abbrev family : Scheduler
family = record {
  tasks = four_tasks;
  zombies = two_zombies;
  child_exit_notify = 0;
  task_count = 4;
  cpu_task_count = 3 ∷ 1 ∷ [];
}

exit-wait_example :
    ((two_zombies.count < max_zombies)
      × ((wait_for_child (exit_current_task family 2 7) 2 3 0).0 ≡ some (3, 7)))
    ⊎ ((two_zombies.count ≡ max_zombies)
        × ((wait_for_child (exit_current_task family 2 7) 2 3 0).0 ≡ none))
unfolding tally tally_of
exit-wait_example =
    exit-wait family 2 7 2 0 child refl two_zombies-IsValid refl (omega arith) (omega arith)

has-drops_example :
    (has (drops all (7 ∷ 16 ∷ [])) 13 ≡ (has all 13 && not (listed (7 ∷ 16 ∷ []) 13)))
    × (may_set_uid 0 (drops all (7 ∷ 16 ∷ [])) 1000
        ≡ (1000 == 0 || (has all 7 && not (listed (7 ∷ 16 ∷ []) 7))))
    × (may_kill 0 (drops all (7 ∷ 16 ∷ [])) 1000
        ≡ (1000 == 0 || (has all 5 && not (listed (7 ∷ 16 ∷ []) 5))))
has-drops_example = has-drops all (7 ∷ 16 ∷ []) 13 0 1000

-- A dead child's signal is pending, and one with a handler.
abbrev interrupted : Task
interrupted = record idle_task {
  pending_signals = 2 ^ 17 + 2 ^ 20;
  signal_handlers = replicate 20 0 ++ (4096 ∷ replicate 43 0);
}

abbrev every_page : ℕ → Bool
every_page address = true

-- SIGUSR2 arrives, and the task is about to return twice.
abbrev two_returns : List Event
two_returns = arrive 12 ∷ attempt 8192 514 ∷ attempt 8192 514 ∷ []

abbrev handled : Task
handled = record interrupted { signal_mask = 2 ^ 17 }

check_and_deliver_signal-next_signal_example :
    ((check_and_deliver_signal every_page handled 8192 514).0
      ≡ some (frame_rsp 8192, handler_of handled 20, clear 514 8))
    × (frame_rsp 8192 % 16 ≡ 0)
    × (pending_at (check_and_deliver_signal every_page handled 8192 514).1 20 ≡ false)
    × (pending_at (check_and_deliver_signal every_page handled 8192 514).1 17
        ≡ pending_at handled 17)
    × (pending_at handled 3 ≡ false)
unfolding next_signal handler_of
check_and_deliver_signal-next_signal_example =
    check_and_deliver_signal-next_signal every_page handled 8192 514 20 17 3 refl (omega arith) refl
      (omega arith) (omega arith)
