-- ===== src/Ns/Pid/Tests.antt =====
-- Runs of the PID namespaces, and the theorem about them at a concrete namespace.
use zenus.Base.{◌≡◌, some, refl, arith}
use zenus.Ns.Pid.{
  PidTable, create, find_global, find_idx, find_local, find_namespace, global_tid, index_of,
  index_of_task, init, local_pid, new_namespace, register_in, register_task, shift_take,
  unregister_in, unregister_task,
}
use zenus.Ns.Pid.Register.{IsValid, Registered, register_in-Registered}

-- Namespace 5 beside the root, with two tasks.
two_tasks : PidTable
unfolding init create register_task find_namespace find_idx index_of register_in
two_tasks = (register_task (register_task (create init 5).1 5 100).1 5 101).1

second_task : global_tid two_tasks 5 2 ≡ some 101
unfolding two_tasks global_tid find_local init create register_task find_namespace find_idx index_of
    register_in
second_task = refl

second_pid : local_pid two_tasks 5 101 ≡ some 2
unfolding two_tasks local_pid find_global init create register_task find_namespace find_idx index_of
    register_in
second_pid = refl

-- The entry of task 100 is gone and that of task 101 has moved down.
first_leaves : local_pid (unregister_task two_tasks 5 100) 5 101 ≡ some 2
unfolding two_tasks unregister_task unregister_in index_of_task shift_take local_pid find_global
    init create register_task find_namespace find_idx index_of register_in
first_leaves = refl

fresh-IsValid : IsValid (new_namespace 5)
fresh-IsValid = record { slots = refl; fits = omega arith; issued = tt }

register_in-Registered_example :
    Registered (new_namespace 5) 100 (register_in (new_namespace 5) 100)
register_in-Registered_example =
    register_in-Registered (new_namespace 5) 100 fresh-IsValid (omega arith) (omega arith)
