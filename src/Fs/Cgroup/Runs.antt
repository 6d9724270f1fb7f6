-- ===== src/Fs/Cgroup/Runs.antt =====
-- Every sequence of calls on the table of crates/zenus-fs/src/cgroup.rs keeps it valid.
use zenus.Base.{
  add64, ◌^◌, ◌∙◌, ℕ, ◌+◌, ◌≡◌, ◌≤◌, ◌<◌, ◌==◌, leb, ltb, ◌||◌, none, some, List, [], ◌∷◌, ◌++◌,
  length, arith, refl, ap, Bool-cases, ◌⊎◌, inl, inr,
}
use zenus.Fs.Cgroup.{
  Attached, Cgroup, CgroupTable, create, max_cgroups, empty_table, new_group, has_name,
  set_pids_max, set_memory_max, set_cpu_max, set_io_max, max_name_len, same_bytes, slash,
  no_such_group, pids_limit,
}
use zenus.Fs.Cgroup.Tasks.{
  attach, attach_detached, charge, detach, group_of_task, with_members, uncharge, charge_cpu,
  charge_io,
}
use zenus.Fs.Cgroup.Count.{
  IsValid, count_of_last, id_count, one_if, places, places-with_group, id_count-with_group,
  length-with_group, total,
}
use zenus.Fs.Cgroup.Attach.{attach-detach, total-detach}
use zenus.Fs.Cgroup.Move.{attach_cases, pushed}
use zenus.Fs.Cgroup.Calls.{
  Call, attach_to, charge_bytes, charge_memory, charge_ticks, create_group, detach_task, limit_cpu,
  limit_io, limit_memory, limit_pids, remove_group, uncharge_memory, charge_cpu_in-Smaller,
  charge_in-Smaller, charge_io_in-Smaller, detach-Smaller, remove-Smaller, run, set_limit-Smaller,
  Smaller, Smaller-IsValid, step, uncharge_in-Smaller,
}

-- A task that is nowhere is put somewhere.
push-total :
    (t : CgroupTable) (id task c x : ℕ)
    → total (with_members (pushed task c) t id) x ≤ total t x + one_if (task == x)
unfolding total with_members
push-total t id task c x = ground (
  arith,
  count_of_last t.root_members (record { task = task; charged = c }) x,
  places-with_group (λ g. record g { members = pushed task c g.members }) t.groups id x
      (one_if (task == x)) (λ g. count_of_last g.members (record { task = task; charged = c }) x),
)

push-shape :
    (t : CgroupTable) (id task c : ℕ)
    → let t' = with_members (pushed task c) t id in
      ((i : ℕ) → id_count t'.groups i ≡ id_count t.groups i)
      × (t'.next_id ≡ t.next_id)
      × (length t'.groups ≡ length t.groups)
unfolding with_members
push-shape t id task c =
    let f = λ (g : Cgroup). record g { members = pushed task c g.members } in
    (
      λ i. ground (arith, id_count-with_group f t.groups id i (λ g. refl)),
      ground arith,
      ground (arith, length-with_group f t.groups id),
    )

push-IsValid :
    (t : CgroupTable) (id task c : ℕ)
    → total t task ≡ 0
    → IsValid t
    → IsValid (with_members (pushed task c) t id)
push-IsValid t id task c n v =
    let (counts, next, len) = push-shape t id task c in
    record {
      once = λ x. elim (Bool-cases (task == x)) [
        | inl e ↦
            let same : task ≡ x = ground (arith, e) in
            ground (arith, e, n, push-total t id task c x, ap (total t) same)
        | inr e ↦ ground (arith, e, v.once x, push-total t id task c x)
      ];
      ids = λ i. omega (arith, counts i, v.ids i);
      fresh = λ i l. ground (arith, counts i, next, l, v.fresh i);
      not_root = ground (arith, counts 0, v.not_root);
      positive = omega (arith, next, v.positive);
      small = omega (arith, len, v.small);
    }

-- An `attach` to no group changes nothing.
attach_missing :
    (t : CgroupTable) (id task : ℕ)
    → (attach t id task).0 ≡ some no_such_group
    → (attach t id task).1 ≡ t
unfolding attach attach_detached
attach_missing t id task e = ground (arith, e)

result_cases : (r : Attached) → (r ≡ none) ⊎ ((r ≡ some pids_limit) ⊎ (r ≡ some no_such_group))
result_cases none = inl refl
result_cases (some no_such_group) = inr (inr refl)
result_cases (some pids_limit) = inr (inl refl)

attach-IsValid : (t : CgroupTable) (id task : ℕ) → IsValid t → IsValid (attach t id task).1
attach-IsValid t id task v = elim (result_cases (attach t id task).0) [
  | inr (inr e) ↦ rw (attach_missing t id task e) v
  | inr (inl e) ↦ rw (attach-detach t id task e) d
  | inl e ↦ elim (attach_cases t id task e) [
    | inl (_, s) ↦ rw s v
    | inr (_, s) ↦ rw s (
        push-IsValid (detach t task).1 id task (detach t task).0
          (ground (arith, total-detach t task task, v.once task)) d)
  ]
]
  where
    d : IsValid (detach t task).1
    d = Smaller-IsValid t (detach t task).1 (detach-Smaller t task) v

places_last :
    (gs : List Cgroup) (id x : ℕ) (name : List ℕ)
    → places (gs ++ (new_group id name ∷ [])) x ≡ places gs x
unfolding places
places_last [] id x name = refl
places_last (g ∷ gs) id x name = omega (arith, places_last gs id x name)

id_count_last :
    (gs : List Cgroup) (id i : ℕ) (name : List ℕ)
    → id_count (gs ++ (new_group id name ∷ [])) i ≡ id_count gs i + one_if (id == i)
unfolding id_count
id_count_last [] id i name = omega arith
id_count_last (g ∷ gs) id i name = omega (arith, id_count_last gs id i name)

length_last : (gs : List Cgroup) (g : Cgroup) → length (gs ++ (g ∷ [])) ≡ length gs + 1
length_last [] g = refl
length_last (h ∷ gs) g = ground (arith, length_last gs g)

added-IsValid :
    (t : CgroupTable) (name : List ℕ)
    → length t.groups < 32
    → t.next_id + 1 < 2 ^ 64
    → IsValid t
    → IsValid (record t {
      groups = t.groups ++ (new_group t.next_id name ∷ []);
      next_id = add64 t.next_id 1;
    })
unfolding total
added-IsValid t name l w v = record {
  once = λ x. ground (arith, v.once x, places_last t.groups t.next_id x name);
  ids = λ i. ground (arith, v.ids i, id_count_last t.groups t.next_id i name, v.fresh i);
  fresh = λ i m. ground (arith, m, w, v.fresh i, id_count_last t.groups t.next_id i name);
  not_root = ground (arith, v.not_root, v.positive, id_count_last t.groups t.next_id 0 name);
  positive = omega (arith, w, v.positive);
  small = ground (arith, l, length_last t.groups (new_group t.next_id name));
}

-- A valid table with an id more at most.
abbrev Next : CgroupTable → CgroupTable → Type 0
Next t t' = (IsValid t') × (t'.next_id ≤ t.next_id + 1)

Smaller-Next : (t t' : CgroupTable) → Smaller t t' → IsValid t → Next t t'
Smaller-Next t t' s v = (Smaller-IsValid t t' s v, omega (arith, s.same_next))

attach-next_id : (t : CgroupTable) (id task : ℕ) → (attach t id task).1.next_id ≡ t.next_id
attach-next_id t id task = elim (result_cases (attach t id task).0) [
  | inr (inr e) ↦ ap (λ u. u.next_id) (attach_missing t id task e)
  | inr (inl e) ↦ ap (λ u. u.next_id) (attach-detach t id task e) ∙ d
  | inl e ↦ elim (attach_cases t id task e) [
    | inl (_, s) ↦ ap (λ u. u.next_id) s
    | inr (_, s) ↦
        ap (λ u. u.next_id) s ∙ (push-shape (detach t task).1 id task (detach t task).0).1 ∙ d
  ]
]
  where
    d : (detach t task).1.next_id ≡ t.next_id
    d = (detach-Smaller t task).same_next

create-IsValid :
    (t : CgroupTable) (name : List ℕ)
    → t.next_id + 1 < 2 ^ 64
    → IsValid t
    → Next t (create t name).1
unfolding create
create-IsValid t name w v =
    elim (Bool-cases
      (length name == 0 || (ltb max_name_len (length name) || same_bytes name slash))) [
        | inl e ↦ rw e (v, omega arith)
        | inr e ↦ elim (Bool-cases (has_name t.groups name || leb max_cgroups (length t.groups))) [
          | inl h ↦ rw e (rw h (v, omega arith))
          | inr h ↦ rw e (rw h ((added-IsValid t name (ground (arith, h)) w v), ground (arith, w)))
        ]
      ]

step-IsValid : (t : CgroupTable) (c : Call) → t.next_id + 1 < 2 ^ 64 → IsValid t → Next t (step t c)
unfolding set_pids_max set_memory_max set_cpu_max set_io_max charge uncharge charge_cpu charge_io
step-IsValid t (create_group name) w v = create-IsValid t name w v
step-IsValid t (remove_group id) w v = Smaller-Next t _ (remove-Smaller t id) v
step-IsValid t (limit_pids id limit) w v =
    Smaller-Next t _
      (set_limit-Smaller (λ g. record g { pids_max = limit }) (λ g. refl) (λ g x. refl) t id) v
step-IsValid t (limit_memory id limit) w v =
    Smaller-Next t _
      (set_limit-Smaller (λ g. record g { memory_max = limit }) (λ g. refl) (λ g x. refl) t id) v
step-IsValid t (limit_cpu id limit) w v =
    Smaller-Next t _
      (set_limit-Smaller (λ g. record g { cpu_max = limit }) (λ g. refl) (λ g x. refl) t id) v
step-IsValid t (limit_io id limit) w v =
    Smaller-Next t _
      (set_limit-Smaller (λ g. record g { io_max = limit }) (λ g. refl) (λ g x. refl) t id) v
step-IsValid t (attach_to id task) w v =
    (attach-IsValid t id task v, omega (arith, attach-next_id t id task))
step-IsValid t (detach_task task) w v = Smaller-Next t _ (detach-Smaller t task) v
step-IsValid t (charge_memory task bytes) w v =
    Smaller-Next t _ (charge_in-Smaller t task bytes (group_of_task t task)) v
step-IsValid t (uncharge_memory task bytes) w v =
    Smaller-Next t _ (uncharge_in-Smaller t task bytes (group_of_task t task)) v
step-IsValid t (charge_ticks task ticks) w v =
    Smaller-Next t _ (charge_cpu_in-Smaller t ticks (group_of_task t task)) v
step-IsValid t (charge_bytes task bytes) w v =
    Smaller-Next t _ (charge_io_in-Smaller t bytes (group_of_task t task)) v

pub empty-IsValid : IsValid empty_table
unfolding empty_table total places id_count
empty-IsValid = record {
  once = λ x. omega arith;
  ids = λ i. omega arith;
  fresh = λ i l. refl;
  not_root = refl;
  positive = omega arith;
  small = omega arith;
}

-- The empty table is valid. Whatever sequence of calls is made on a valid table, while the number of calls
-- does not bring the next id to 2 ^ 64, a task stays in one group at most, an id stays that of one group
-- at most and no group gets the root's or one to come, and there are 32 groups at most.
pub run_any-IsValid :
    (t : CgroupTable) (cs : List Call)
    → IsValid t
    → t.next_id + length cs < 2 ^ 64
    → (IsValid empty_table) × (IsValid (run t cs))
unfolding run
run_any-IsValid t [] v w = (empty-IsValid, v)
run_any-IsValid t (c ∷ cs) v w =
    let (u, n) = step-IsValid t c (omega (arith, w)) v in
    run_any-IsValid (step t c) cs u (omega (arith, w, n))
