-- ===== src/Fs/Cgroup/Lock.antt =====
-- The calls that take the lock of the table, the end of crates/zenus-fs/src/cgroup.rs. The lock is
-- that of crates/zenus-sync/src/spinlock.rs, on a CPU where nobody else changes it meanwhile; its
-- interrupt flag and its reports are left out. The loop runs on fuel: `none` is one that has not ended.
use zenus.Base.{
  ℕ, zero, suc, ◌≡◌, Bool, true, false, if◌then◌else◌, Option, none, some, refl, arith,
}
use zenus.Fs.Cgroup.{CgroupTable, Attached, cgroup_root, cgroup_unlimited, or_else, cpu_max, io_max}
use zenus.Fs.Cgroup.Tasks.{attach, charge, detach, group_of_task, uncharge, charge_cpu, charge_io}

pub record Global : Type 0 where
  pub locked : Bool
  pub table : CgroupTable

-- `SpinLock::lock`
unfoldable pub lock : ℕ → Global → Option Global
lock zero g = none
lock (suc fuel) g =
    let rest = lock fuel g in if g.locked then rest else some (record g { locked = true })

-- The guard is dropped.
abbrev unlock : Global → Global
unlock g = record g { locked = false }

-- A call under the guard.
with_lock : {A : Type 0} → ℕ → Global → (CgroupTable → A × CgroupTable) → Option (A × Global)
unfolding lock
with_lock fuel g f = elim (lock fuel g) [
  | none ↦ none
  | some h ↦ let (a, t) = f h.table in some (a, unlock (record h { table = t }))
]

abbrev pub is_ok : Attached → Bool
is_ok none = true
is_ok (some e) = false

pub attach_task : ℕ → Global → ℕ → ℕ → Option (Bool × Global)
unfolding with_lock attach
attach_task fuel g group task =
    with_lock fuel g (λ t. let (r, t') = attach t group task in (is_ok r, t'))

pub detach_task : ℕ → Global → ℕ → Option (ℕ × Global)
unfolding with_lock detach
detach_task fuel g task = with_lock fuel g (λ t. detach t task)

pub locked_group_of_task : ℕ → Global → ℕ → Option (ℕ × Global)
unfolding with_lock group_of_task
locked_group_of_task fuel g task =
    with_lock fuel g (λ t. (or_else (group_of_task t task) cgroup_root, t))

pub charge_memory : ℕ → Global → ℕ → ℕ → Option (Bool × Global)
unfolding with_lock charge
charge_memory fuel g task bytes = with_lock fuel g (λ t. charge t task bytes)

pub uncharge_memory : ℕ → Global → ℕ → ℕ → Option (Bool × Global)
unfolding with_lock uncharge
uncharge_memory fuel g task bytes = with_lock fuel g (λ t. (true, uncharge t task bytes))

-- The guard is held while the group is asked for.
quota_for_task : (CgroupTable → ℕ → Option ℕ) → ℕ → Global → ℕ → Option (ℕ × Global)
unfolding lock locked_group_of_task
quota_for_task quota fuel g task = elim (lock fuel g) [
  | none ↦ none
  | some h ↦ elim (locked_group_of_task fuel h task) [
    | none ↦ none
    | some (gid, h') ↦ some (or_else (quota h'.table gid) cgroup_unlimited, unlock h')
  ]
]

pub cpu_max_for_task : ℕ → Global → ℕ → Option (ℕ × Global)
unfolding quota_for_task cpu_max
cpu_max_for_task fuel g task = quota_for_task cpu_max fuel g task

pub io_max_for_task : ℕ → Global → ℕ → Option (ℕ × Global)
unfolding quota_for_task io_max
io_max_for_task fuel g task = quota_for_task io_max fuel g task

pub charge_cpu_for_task : ℕ → Global → ℕ → ℕ → Option (Bool × Global)
unfolding with_lock charge_cpu
charge_cpu_for_task fuel g task ticks = with_lock fuel g (λ t. charge_cpu t task ticks)

pub charge_io_for_task : ℕ → Global → ℕ → ℕ → Option (Bool × Global)
unfolding with_lock charge_io
charge_io_for_task fuel g task bytes = with_lock fuel g (λ t. charge_io t task bytes)

-- A lock that is held is not taken, however long it spins.
lock_held : (fuel : ℕ) (g : Global) → g.locked ≡ true → lock fuel g ≡ none
unfolding lock
lock_held zero g h = refl
lock_held (suc fuel) g h = ground (arith, h, lock_held fuel g h)

lock_free :
    (fuel : ℕ) (g : Global)
    → g.locked ≡ false
    → lock (suc fuel) g ≡ some (record g { locked = true })
unfolding lock
lock_free fuel g h = rw h refl

-- A call that finds the lock free is the call on the table, and leaves the lock free.
with_lock_free :
    {A : Type 0} (fuel : ℕ) (g : Global) (f : CgroupTable → A × CgroupTable)
    → g.locked ≡ false
    → with_lock (suc fuel) g f
      ≡ (some ((f g.table).0, record g { locked = false; table = (f g.table).1 }))
unfolding with_lock
with_lock_free fuel g f h = rw (lock_free fuel g h, with_lock) refl

quota_stuck :
    (quota : CgroupTable → ℕ → Option ℕ) (fuel : ℕ) (g : Global) (task : ℕ)
    → g.locked ≡ false
    → quota_for_task quota fuel g task ≡ none
unfolding quota_for_task with_lock lock
quota_stuck quota zero g task h = refl
quota_stuck quota (suc fuel) g task h =
    rw (lock_free fuel g h, quota_for_task)
      (rw (lock_held (suc fuel) (record g { locked = true }) refl, with_lock) refl)

-- Where the lock is free, one look at it is enough for an `attach_task`, a `charge_memory` and the question for a
-- task's group, and they leave it free; but `cpu_max_for_task` and `io_max_for_task` return for no number of looks: they
-- hold the lock when they ask for the task's group, which wants it again.
pub free_calls_return :
    (fuel : ℕ) (g : Global) (group task bytes : ℕ)
    → g.locked ≡ false
    → let (r, t) = attach g.table group task in
      let (granted, t') = charge g.table task bytes in
      (attach_task (suc fuel) g group task ≡ some (is_ok r, record g { locked = false; table = t }))
      × (charge_memory (suc fuel) g task bytes
          ≡ some (granted, record g { locked = false; table = t' }))
      × (locked_group_of_task (suc fuel) g task
          ≡ some (or_else (group_of_task g.table task) cgroup_root, record g { locked = false }))
      × (cpu_max_for_task fuel g task ≡ none)
      × (io_max_for_task fuel g task ≡ none)
unfolding attach_task charge_memory locked_group_of_task cpu_max_for_task io_max_for_task
free_calls_return fuel g group task bytes h = (
  with_lock_free fuel g _ h,
  with_lock_free fuel g _ h,
  with_lock_free fuel g _ h,
  quota_stuck cpu_max fuel g task h,
  quota_stuck io_max fuel g task h,
)
