-- ===== src/Fs/Cgroup/Tasks.antt =====
-- The tasks of the control groups, crates/zenus-fs/src/cgroup.rs: who is in which group, and what is
-- charged to it.
use zenus.Base.{
  ℕ, ◌-◌, ◌==◌, leb, if◌then◌else◌, Bool, true, false, not, ◌||◌, Option, none, some, List, [], ◌∷◌,
  ◌++◌, saturating_add64,
}
use zenus.Fs.Cgroup.{
  Attached, Cgroup, CgroupTable, Member, cgroup_root, cgroup_unlimited, cpu_max, cpu_used, exists,
  io_max, io_used, memory_current, memory_max, no_such_group, or_else, pids_current, pids_limit,
  pids_max, with_group,
}

unfoldable pub has_task : List Member → ℕ → Bool
has_task [] task = false
has_task (m ∷ ms) task = m.task == task || has_task ms task

-- `members.remove(position)`
unfoldable pub remove_task : List Member → ℕ → List Member
remove_task [] task = []
remove_task (m ∷ ms) task =
    let rest = remove_task ms task in if m.task == task then ms else m ∷ rest

-- The charge of the member at the position.
unfoldable pub charge_of : List Member → ℕ → ℕ
charge_of [] task = 0
charge_of (m ∷ ms) task = let rest = charge_of ms task in if m.task == task then m.charged else rest

-- The member at the position is changed.
unfoldable pub with_charge : (ℕ → ℕ) → List Member → ℕ → List Member
with_charge f [] task = []
with_charge f (m ∷ ms) task =
    let rest = with_charge f ms task in
    if m.task == task then record m { charged = f m.charged } ∷ ms else m ∷ rest

unfoldable pub group_with_task : List Cgroup → ℕ → Option ℕ
unfolding has_task
group_with_task [] task = none
group_with_task (g ∷ gs) task =
    let rest = group_with_task gs task in if has_task g.members task then some g.id else rest

unfoldable pub group_of_task : CgroupTable → ℕ → Option ℕ
unfolding group_with_task
group_of_task t task =
    if has_task t.root_members task then some cgroup_root else group_with_task t.groups task

-- The loop of `detach`.
unfoldable pub detach_from : List Cgroup → ℕ → ℕ × List Cgroup
unfolding has_task remove_task charge_of
detach_from [] task = (0, [])
detach_from (g ∷ gs) task =
    let rest = detach_from gs task in
    if has_task g.members task
    then (charge_of g.members task, record g { members = remove_task g.members task } ∷ gs)
    else (rest.0, g ∷ rest.1)

unfoldable pub detach : CgroupTable → ℕ → ℕ × CgroupTable
unfolding detach_from
detach t task =
    if has_task t.root_members task
    then (
      charge_of t.root_members task,
      record t { root_members = remove_task t.root_members task },
    )
    else (let (carried, groups) = detach_from t.groups task in
        (carried, record t { groups = groups }))

-- `members_mut(id)`, and a change of what it gives.
unfoldable pub with_members : (List Member → List Member) → CgroupTable → ℕ → CgroupTable
unfolding with_group
with_members f t id =
    if id == cgroup_root
    then record t { root_members = f t.root_members }
    else record t { groups = with_group (λ g. record g { members = f g.members }) t.groups id }

abbrev pub is_in : Option ℕ → ℕ → Bool
is_in none id = false
is_in (some i) id = i == id

-- The end of `attach`, once the task is taken out of its group.
unfoldable pub attach_detached : CgroupTable → ℕ → ℕ → ℕ → Attached × CgroupTable
unfolding pids_current pids_max with_members
attach_detached t id task carried =
    if leb (or_else (pids_max t id) cgroup_unlimited) (pids_current t id)
    then (some pids_limit, t)
    else (none, with_members (λ ms. ms ++ (record { task = task; charged = carried } ∷ [])) t id)

unfoldable pub attach : CgroupTable → ℕ → ℕ → Attached × CgroupTable
unfolding exists group_of_task detach attach_detached
attach t id task =
    if not (exists t id)
    then (some no_such_group, t)
    else if is_in (group_of_task t task) id
    then (none, t)
    else (let (carried, t') = detach t task in attach_detached t' id task carried)

-- Whether a charge of `amount` on top of `used` stays under a limit.
abbrev pub within : ℕ → ℕ → ℕ → Bool
within limit used amount = limit == cgroup_unlimited || leb (saturating_add64 used amount) limit

unfoldable pub charge_in : CgroupTable → ℕ → ℕ → Option ℕ → Bool × CgroupTable
unfolding memory_max memory_current with_members with_charge
charge_in t task bytes none = (true, t)
charge_in t task bytes (some gid) =
    if within (or_else (memory_max t gid) cgroup_unlimited) (memory_current t gid) bytes
    then (true, with_members (λ ms. with_charge (λ c. saturating_add64 c bytes) ms task) t gid)
    else (false, t)

unfoldable pub charge : CgroupTable → ℕ → ℕ → Bool × CgroupTable
unfolding charge_in group_of_task
charge t task bytes = charge_in t task bytes (group_of_task t task)

unfoldable pub uncharge_in : CgroupTable → ℕ → ℕ → Option ℕ → CgroupTable
unfolding with_members with_charge
uncharge_in t task bytes none = t
uncharge_in t task bytes (some gid) =
    with_members (λ ms. with_charge (λ c. c - bytes) ms task) t gid

unfoldable pub uncharge : CgroupTable → ℕ → ℕ → CgroupTable
unfolding uncharge_in group_of_task
uncharge t task bytes = uncharge_in t task bytes (group_of_task t task)

unfoldable pub charge_cpu_in : CgroupTable → ℕ → Option ℕ → Bool × CgroupTable
unfolding cpu_max cpu_used with_group
charge_cpu_in t ticks none = (true, t)
charge_cpu_in t ticks (some gid) =
    if within (or_else (cpu_max t gid) cgroup_unlimited) (cpu_used t gid) ticks
    then (
      true,
      record t {
        groups =
            with_group (λ g. record g { cpu_used = saturating_add64 g.cpu_used ticks }) t.groups
              gid;
      },
    )
    else (false, t)

unfoldable pub charge_cpu : CgroupTable → ℕ → ℕ → Bool × CgroupTable
unfolding charge_cpu_in group_of_task
charge_cpu t task ticks = charge_cpu_in t ticks (group_of_task t task)

unfoldable pub charge_io_in : CgroupTable → ℕ → Option ℕ → Bool × CgroupTable
unfolding io_max io_used with_group
charge_io_in t bytes none = (true, t)
charge_io_in t bytes (some gid) =
    if within (or_else (io_max t gid) cgroup_unlimited) (io_used t gid) bytes
    then (
      true,
      record t {
        groups =
            with_group (λ g. record g { io_used = saturating_add64 g.io_used bytes }) t.groups gid;
      },
    )
    else (false, t)

unfoldable pub charge_io : CgroupTable → ℕ → ℕ → Bool × CgroupTable
unfolding charge_io_in group_of_task
charge_io t task bytes = charge_io_in t bytes (group_of_task t task)
