-- ===== src/Sync/Lockdep/Tests.antt =====
-- The theorems on crates/zenus-sync/src/lockdep.rs at concrete inputs: two locks, 1 and 2, that CPU 0
-- takes in this order and CPU 1 in the other one.
use zenus.Base.{◌≡◌, false, none, some, List, [], ◌∷◌, ◌++◌, if◌then◌else◌, leb, arith, refl}
use zenus.Sync.Lockdep.{
  LockdepState, lockdep_acquire, lockdep_init, lockdep_register, lockdep_release, lockdep_status,
  max_locks, new_lockdep,
}
use zenus.Sync.Lockdep.Order.{before}
use zenus.Sync.Lockdep.Bounds.{IsValid, new_lockdep-IsValid}
use zenus.Sync.Lockdep.Run.{
  Call, acquire_call, init_call, register_call, release_call, keep_edges, keeps_edges, run,
  run-IsValid, step,
}
use zenus.Sync.Lockdep.Inversion.{holds, inversion_refused}
use zenus.Sync.Lockdep.Status.{lockdep_status-Copied, snapshot_of}

abbrev first_calls : List Call
first_calls = init_call ∷ register_call (97 ∷ []) ∷ register_call (98 ∷ []) ∷ acquire_call 0 1 ∷ []

abbrev later_calls : List Call
later_calls = release_call 0 2 ∷ release_call 0 1 ∷ acquire_call 1 2 ∷ []

abbrev holding : LockdepState
holding = run new_lockdep first_calls

abbrev crossed : LockdepState
crossed = run (lockdep_acquire holding 0 2).1 later_calls

holding-IsValid : IsValid holding
holding-IsValid = run-IsValid new_lockdep first_calls new_lockdep-IsValid

inversion_refused_example : (lockdep_acquire crossed 1 1).0 ≡ false
unfolding run step keeps_edges keep_edges lockdep_acquire lockdep_register lockdep_init
    lockdep_release new_lockdep holds before
inversion_refused_example =
    inversion_refused holding 0 2 1 later_calls 1 holding-IsValid refl refl (omega arith) refl refl
      refl refl refl

crossed-IsValid : IsValid crossed
unfolding run step
crossed-IsValid =
    run-IsValid new_lockdep (first_calls ++ (acquire_call 0 2 ∷ later_calls)) new_lockdep-IsValid

lockdep_status-Copied_example :
    lockdep_status holding
    ≡ (if leb max_locks holding.class_count then none else some (snapshot_of holding))
lockdep_status-Copied_example = lockdep_status-Copied holding holding-IsValid

-- With 64 classes the index is out of range.
status_panics : lockdep_status (record new_lockdep { class_count = 64 }) ≡ none
unfolding lockdep_status new_lockdep
status_panics = refl

crossed_refused : (lockdep_acquire crossed 1 1).1.violations ≡ 1
unfolding run step lockdep_acquire lockdep_register lockdep_init lockdep_release new_lockdep
crossed_refused = refl
