-- ===== src/Fs/Cgroup/Tests.antt =====
-- The theorems on crates/zenus-fs/src/cgroup.rs at concrete tables.
use zenus.Base.{◌≡◌, ◌≤◌, ◌<◌, ◌+◌, ◌⊎◌, true, false, none, some, List, [], ◌∷◌, arith, refl}
use zenus.Fs.Cgroup.{
  CgroupTable, empty_table, memory_current, memory_max, set_pids_max, set_memory_max, create,
  cgroup_root, or_else,
}
use zenus.Fs.Cgroup.Tasks.{attach, charge, group_of_task}
use zenus.Fs.Cgroup.Count.{IsValid}
use zenus.Fs.Cgroup.Attach.{attach_refused}
use zenus.Fs.Cgroup.Move.{table_charges}
use zenus.Fs.Cgroup.Charge.{charge_limited}
use zenus.Fs.Cgroup.Calls.{
  Call, attach_to, charge_memory, create_group, detach_task, limit_memory, limit_pids, remove_group,
  run,
}
use zenus.Fs.Cgroup.Runs.{empty-IsValid, run_any-IsValid}
use zenus.Fs.Cgroup.Lock.{
  Global, attach_task, cpu_max_for_task, free_calls_return, io_max_for_task, locked_group_of_task,
}
use zenus.Fs.Cgroup.Lock

-- Groups `a` and `b`; task 7 in `a` has charged a page of two, task 8 is alone in the full `b`.
abbrev two_groups_calls : List Call
two_groups_calls =
    create_group (97 ∷ [])
    ∷ create_group (98 ∷ [])
    ∷ limit_memory 1 8192
    ∷ limit_pids 2 1
    ∷ attach_to 1 7
    ∷ attach_to 2 8
    ∷ charge_memory 7 4096
    ∷ []

abbrev two_groups : CgroupTable
two_groups = run empty_table two_groups_calls

two_groups-IsValid : IsValid two_groups
unfolding empty_table
two_groups-IsValid = (run_any-IsValid empty_table two_groups_calls empty-IsValid (omega arith)).1

two_groups-next_id : two_groups.next_id ≡ 3
unfolding run attach charge set_pids_max set_memory_max create empty_table
two_groups-next_id = refl

run_any-IsValid_example :
    (IsValid empty_table) × (IsValid (run two_groups (remove_group 1 ∷ detach_task 7 ∷ [])))
run_any-IsValid_example =
    run_any-IsValid two_groups (remove_group 1 ∷ detach_task 7 ∷ []) two_groups-IsValid
      (omega (arith, two_groups-next_id))

attach_refused_example :
    (group_of_task (attach two_groups 2 7).1 7 ≡ none)
    × (charge (attach two_groups 2 7).1 7 9999 ≡ (true, (attach two_groups 2 7).1))
unfolding run attach charge set_pids_max set_memory_max create empty_table
attach_refused_example = attach_refused two_groups 2 7 9999 two_groups-IsValid refl

two_groups_charges : table_charges two_groups ≡ 4096
unfolding run attach charge set_pids_max set_memory_max create empty_table table_charges
two_groups_charges = refl

charge_limited_example :
    ((8192 < memory_current two_groups 1 + 4097)
      × ((charge two_groups 7 4097).0 ≡ false)
      × ((charge two_groups 7 4097).1 ≡ two_groups))
    ⊎ ((memory_current two_groups 1 + 4097 ≤ 8192)
        × ((charge two_groups 7 4097).0 ≡ true)
        × (memory_current (charge two_groups 7 4097).1 1 ≡ memory_current two_groups 1 + 4097)
        × (table_charges (charge two_groups 7 4097).1 ≡ table_charges two_groups + 4097))
unfolding run attach charge set_pids_max set_memory_max create empty_table group_of_task memory_max
charge_limited_example =
    charge_limited two_groups 7 4097 1 8192 two_groups-IsValid (ground (arith, two_groups_charges))
      refl refl (ground arith) (ground arith)

abbrev free_lock : Global
free_lock = record { locked = false; table = two_groups }

free_calls_return_example :
    (attach_task 1 free_lock 1 8
      ≡ some (
        Lock.is_ok (attach two_groups 1 8).0,
        record free_lock { table = (attach two_groups 1 8).1 },
      ))
    × (Lock.charge_memory 1 free_lock 8 10
        ≡ some
            ((charge two_groups 8 10).0, record free_lock { table = (charge two_groups 8 10).1 }))
    × (locked_group_of_task 1 free_lock 8
        ≡ some (or_else (group_of_task two_groups 8) cgroup_root, free_lock))
    × (cpu_max_for_task 0 free_lock 8 ≡ none)
    × (io_max_for_task 0 free_lock 8 ≡ none)
free_calls_return_example = free_calls_return 0 free_lock 1 8 10 refl
