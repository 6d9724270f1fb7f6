-- ===== src/Fs/Cgroup/Attach.antt =====
-- Moving a task between groups, `attach` and `detach` of crates/zenus-fs/src/cgroup.rs.
use zenus.Base.{
  ℕ, ◌+◌, ◌≡◌, ◌==◌, true, false, ◌&&◌, not, Option, none, some, arith, refl, ◌∙◌, ap, Bool-cases,
  inl, inr,
}
use zenus.Fs.Cgroup.{CgroupTable, exists, is_some, pids_limit}
use zenus.Fs.Cgroup.Tasks.{attach, attach_detached, charge, charge_in, detach, group_of_task, is_in}
use zenus.Fs.Cgroup.Count.{
  IsValid, count_of-remove_task, group_with_task-places, has_task-count_of, one_if,
  places-detach_from, total,
}

pub total-detach :
    (t : CgroupTable) (task x : ℕ)
    → total (detach t task).1 x + one_if (not (total t task == 0) && task == x) ≡ total t x
unfolding total detach
total-detach t task x = ground (
  arith,
  has_task-count_of t.root_members task,
  count_of-remove_task t.root_members task x,
  places-detach_from t.groups task x,
)

pub group_of_task-total :
    (t : CgroupTable) (task : ℕ) → is_some (group_of_task t task) ≡ not (total t task == 0)
unfolding group_of_task total
group_of_task-total t task =
    ground (arith, has_task-count_of t.root_members task, group_with_task-places t.groups task)

none_of : {A : Type 0} (o : Option A) → is_some o ≡ false → o ≡ none
none_of none h = refl
none_of (some a) h = ground (arith, h)

-- On a valid table a task that was taken out is in no group.
pub group_of_task-detach :
    (t : CgroupTable) (task : ℕ) → IsValid t → group_of_task (detach t task).1 task ≡ none
group_of_task-detach t task v =
    let t' = (detach t task).1 in
    none_of (group_of_task t' task)
      (ground (arith, group_of_task-total t' task, total-detach t task task, v.once task))

pub attach_detached_refused :
    (t : CgroupTable) (id task carried : ℕ)
    → (attach_detached t id task carried).0 ≡ some pids_limit
    → (attach_detached t id task carried).1 ≡ t
unfolding attach_detached
attach_detached_refused t id task carried e = ground (arith, e)

-- An `attach` that the limit refuses is a `detach`.
pub attach-detach :
    (t : CgroupTable) (id task : ℕ)
    → (attach t id task).0 ≡ some pids_limit
    → (attach t id task).1 ≡ (detach t task).1
unfolding attach
attach-detach t id task e = elim (Bool-cases (exists t id)) [
  | inr h ↦ ground (arith, h, e)
  | inl h ↦ elim (Bool-cases (is_in (group_of_task t task) id)) [
    | inl i ↦ ground (arith, h, i, e)
    | inr i ↦
        let (c, t') = detach t task in ground (arith, h, i, e, attach_detached_refused t' id task c)
  ]
]

-- On a valid table a move that `pids.max` refuses leaves the task in no group at all, whatever group it
-- was in, and from then on every memory charge for the task is granted and counted nowhere.
pub attach_refused :
    (t : CgroupTable) (id task bytes : ℕ)
    → IsValid t
    → (attach t id task).0 ≡ some pids_limit
    → let t' = (attach t id task).1 in
      (group_of_task t' task ≡ none) × (charge t' task bytes ≡ (true, t'))
unfolding charge charge_in
attach_refused t id task bytes v e =
    let t' = (attach t id task).1 in
    let n : group_of_task t' task ≡ none =
      ap (λ s. group_of_task s task) (attach-detach t id task e) ∙ group_of_task-detach t task v in
    (n, (rw n refl))
