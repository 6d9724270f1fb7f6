-- ===== src/Fs/Cgroup/Move.antt =====
-- A move between groups that succeeds, `attach` of crates/zenus-fs/src/cgroup.rs.
use zenus.Base.{
  ℕ, ◌+◌, ◌≡◌, ◌≢◌, true, Option, none, some, List, [], ◌∷◌, ◌++◌, arith, refl, ◌∙◌, ap, Bool-cases,
  ◌⊎◌, inl, inr,
}
use zenus.Fs.Cgroup.{
  Cgroup, CgroupTable, Member, charged_sum, exists, find_group, is_some, with_group,
}
use zenus.Fs.Cgroup.Tasks.{
  attach, attach_detached, detach, detach_from, group_of_task, group_with_task, has_task, is_in,
  remove_task, with_members,
}
use zenus.Fs.Cgroup.Count.{
  IsValid, charges, charges-detach_from, charges-with_group, charged_sum-remove_task,
  charged_sum_last, count_of-remove_task, find_group-detach_from, has_task-count_of, places, total,
}
use zenus.Fs.Cgroup.Attach.{total-detach}

-- Everything that is charged, in the root too.
unfoldable pub table_charges : CgroupTable → ℕ
unfolding charges charged_sum
table_charges t = charged_sum t.root_members + charges t.groups

module _ (task x : ℕ) (other : task ≢ x) where
  has_task-remove_task : (ms : List Member) → has_task (remove_task ms task) x ≡ has_task ms x
  has_task-remove_task ms = ground (
    arith,
    has_task-count_of ms x,
    has_task-count_of (remove_task ms task) x,
    count_of-remove_task ms task x,
    other,
  )

  group_with_task-detach_from :
      (gs : List Cgroup) → group_with_task (detach_from gs task).1 x ≡ group_with_task gs x
  unfolding group_with_task detach_from
  group_with_task-detach_from [] = refl
  group_with_task-detach_from (g ∷ gs) =
      ground (arith, has_task-remove_task g.members, group_with_task-detach_from gs)

  group_of_task-detach_other :
      (t : CgroupTable) → group_of_task (detach t task).1 x ≡ group_of_task t x
  unfolding group_of_task detach
  group_of_task-detach_other t =
      ground (arith, has_task-remove_task t.root_members, group_with_task-detach_from t.groups)

  has_task_last :
      (ms : List Member) (c : ℕ)
      → has_task (ms ++ (record { task = task; charged = c } ∷ [])) x ≡ has_task ms x
  unfolding has_task
  has_task_last [] c = ground (arith, other)
  has_task_last (m ∷ ms) c = ground (arith, has_task_last ms c)

  group_with_task-push :
      (gs : List Cgroup) (id c : ℕ)
      → group_with_task
          (with_group
            (λ g. record g { members = g.members ++ (record { task = task; charged = c } ∷ []) })
            gs
            id)
          x
        ≡ group_with_task gs x
  unfolding group_with_task with_group
  group_with_task-push [] id c = refl
  group_with_task-push (g ∷ gs) id c =
      ground (arith, has_task_last g.members c, group_with_task-push gs id c)

-- The new member, behind the others.
abbrev pub pushed : ℕ → ℕ → List Member → List Member
pushed task c ms = ms ++ (record { task = task; charged = c } ∷ [])

has_task_last_self : (ms : List Member) (task c : ℕ) → has_task (pushed task c ms) task ≡ true
unfolding has_task
has_task_last_self [] task c = ground arith
has_task_last_self (m ∷ ms) task c = ground (arith, has_task_last_self ms task c)

group_with_task-pushed :
    (gs : List Cgroup) (id task c : ℕ)
    → is_some (find_group gs id) ≡ true
    → places gs task ≡ 0
    → group_with_task (with_group (λ g. record g { members = pushed task c g.members }) gs id) task
      ≡ some id
unfolding group_with_task with_group find_group places
group_with_task-pushed [] id task c f n = ground (arith, f)
group_with_task-pushed (g ∷ gs) id task c f n = ground (
  arith,
  f,
  n,
  has_task_last_self g.members task c,
  has_task-count_of g.members task,
  group_with_task-pushed gs id task c,
)

-- A task that is in no group is put into one that exists.
push-group_of_task :
    (t : CgroupTable) (id task c : ℕ)
    → exists t id ≡ true
    → total t task ≡ 0
    → group_of_task (with_members (pushed task c) t id) task ≡ some id
unfolding with_members group_of_task exists total
push-group_of_task t id task c e n = ground (
  arith,
  e,
  n,
  has_task_last_self t.root_members task c,
  has_task-count_of t.root_members task,
  group_with_task-pushed t.groups id task c,
)

push_other :
    (t : CgroupTable) (id task c x : ℕ)
    → task ≢ x
    → group_of_task (with_members (pushed task c) t id) x ≡ group_of_task t x
unfolding with_members group_of_task
push_other t id task c x o =
    ground
      (arith, has_task_last task x o t.root_members c, group_with_task-push task x o t.groups id c)

push-table_charges :
    (t : CgroupTable) (id task c : ℕ)
    → exists t id ≡ true
    → table_charges (with_members (pushed task c) t id) ≡ table_charges t + c
unfolding with_members table_charges exists
push-table_charges t id task c e = ground (
  arith,
  e,
  charged_sum_last t.root_members (record { task = task; charged = c }),
  charges-with_group (λ g. record g { members = pushed task c g.members }) t.groups id c
      (λ g. charged_sum_last g.members (record { task = task; charged = c })),
)

detach-table_charges :
    (t : CgroupTable) (task : ℕ)
    → table_charges (detach t task).1 + (detach t task).0 ≡ table_charges t
unfolding detach table_charges
detach-table_charges t task =
    ground (arith, charged_sum-remove_task t.root_members task, charges-detach_from t.groups task)

exists-detach : (t : CgroupTable) (task id : ℕ) → exists (detach t task).1 id ≡ exists t id
unfolding exists detach
exists-detach t task id = ground (arith, find_group-detach_from t.groups task id)

is_in-some : (o : Option ℕ) (id : ℕ) → is_in o id ≡ true → o ≡ some id
is_in-some none id h = ground (arith, h)
is_in-some (some i) id h = ground (arith, h)

-- What `attach` does when it succeeds: nothing, or a `detach` and a push.
pub attach_cases :
    (t : CgroupTable) (id task : ℕ)
    → (attach t id task).0 ≡ none
    → ((group_of_task t task ≡ some id) × ((attach t id task).1 ≡ t))
      ⊎ ((exists t id ≡ true)
          × ((attach t id task).1
              ≡ with_members (pushed task (detach t task).0) (detach t task).1 id))
unfolding attach attach_detached
attach_cases t id task e = elim (Bool-cases (exists t id)) [
  | inr h ↦ ground (arith, h, e)
  | inl h ↦ elim (Bool-cases (is_in (group_of_task t task) id)) [
    | inl i ↦ inl (is_in-some (group_of_task t task) id i, ground (arith, h, i, e))
    | inr i ↦ inr (h, let (c, t') = detach t task in ground (arith, h, i, e))
  ]
]

-- On a valid table a move that succeeds puts the task into the group, leaves every other task where it
-- was, and keeps what is charged in all.
pub attach_moves :
    (t : CgroupTable) (id task x : ℕ)
    → IsValid t
    → task ≢ x
    → (attach t id task).0 ≡ none
    → let t' = (attach t id task).1 in
      (group_of_task t' task ≡ some id)
      × (group_of_task t' x ≡ group_of_task t x)
      × (table_charges t' ≡ table_charges t)
attach_moves t id task x v o e = elim (attach_cases t id task e) [
  | inl (g, s) ↦ (rw s g, ap (λ u. group_of_task u x) s, ap table_charges s)
  | inr (h, s) ↦
      let (c, u) = detach t task in
      let n : total u task ≡ 0 = ground (arith, total-detach t task task, v.once task) in
      let d : exists u id ≡ true = exists-detach t task id ∙ h in
      (
        ap (λ w. group_of_task w task) s ∙ push-group_of_task u id task c d n,
        ap (λ w. group_of_task w x) s
            ∙ push_other u id task c x o
            ∙ group_of_task-detach_other task x o t,
        ap table_charges s ∙ push-table_charges u id task c d ∙ detach-table_charges t task,
      )
]
