-- ===== src/Fs/Cgroup/Calls.antt =====
-- The calls on the controller table of crates/zenus-fs/src/cgroup.rs, and what every sequence of them
-- keeps.
use zenus.Base.{
  ℕ, ◌-◌, ◌≡◌, ◌≤◌, ◌==◌, if◌then◌else◌, Bool, true, false, Option, none, some, List, [], ◌∷◌,
  length, arith, refl, Bool-cases, Option-cases, inl, inr, saturating_add64,
}
use zenus.Fs.Cgroup.{
  Cgroup, CgroupTable, cgroup_root, find_group, is_some, with_group, create, remove, drop_group,
  has_members, set_limit, set_pids_max, set_memory_max, set_cpu_max, set_io_max,
}
use zenus.Fs.Cgroup.Tasks.{
  attach, charge, charge_in, detach, with_charge, with_members, uncharge, uncharge_in, charge_cpu,
  charge_cpu_in, charge_io, charge_io_in,
}
use zenus.Fs.Cgroup.Count.{
  IsValid, count_of, count_of-with_charge, id_count, places, places-with_group, id_count-with_group,
  length-with_group, id_count-detach_from, length-detach_from, total,
}
use zenus.Fs.Cgroup.Attach.{total-detach}

pub data Call : Type 0 where
  create_group : List ℕ → Call
  remove_group : ℕ → Call
  limit_pids : ℕ → ℕ → Call
  limit_memory : ℕ → ℕ → Call
  limit_cpu : ℕ → ℕ → Call
  limit_io : ℕ → ℕ → Call
  attach_to : ℕ → ℕ → Call
  detach_task : ℕ → Call
  charge_memory : ℕ → ℕ → Call
  uncharge_memory : ℕ → ℕ → Call
  charge_ticks : ℕ → ℕ → Call
  charge_bytes : ℕ → ℕ → Call

abbrev pub step : CgroupTable → Call → CgroupTable
step t (create_group name) = (create t name).1
step t (remove_group id) = (remove t id).1
step t (limit_pids id limit) = (set_pids_max t id limit).1
step t (limit_memory id limit) = (set_memory_max t id limit).1
step t (limit_cpu id limit) = (set_cpu_max t id limit).1
step t (limit_io id limit) = (set_io_max t id limit).1
step t (attach_to id task) = (attach t id task).1
step t (detach_task task) = (detach t task).1
step t (charge_memory task bytes) = (charge t task bytes).1
step t (uncharge_memory task bytes) = uncharge t task bytes
step t (charge_ticks task ticks) = (charge_cpu t task ticks).1
step t (charge_bytes task bytes) = (charge_io t task bytes).1

unfoldable pub run : CgroupTable → List Call → CgroupTable
run t [] = t
run t (c ∷ cs) = run (step t c) cs

-- A table with no more places, ids and groups than a valid one.
pub record Smaller (t t' : CgroupTable) : Type 0 where
  pub totals : (x : ℕ) → total t' x ≤ total t x
  pub counts : (id : ℕ) → id_count t'.groups id ≤ id_count t.groups id
  pub same_next : t'.next_id ≡ t.next_id
  pub shorter : length t'.groups ≤ length t.groups

pub Smaller-IsValid : (t t' : CgroupTable) → Smaller t t' → IsValid t → IsValid t'
Smaller-IsValid t t' s v = record {
  once = λ x. omega (arith, s.totals x, v.once x);
  ids = λ i. omega (arith, s.counts i, v.ids i);
  fresh = λ i l. ground (arith, s.counts i, v.fresh i, s.same_next);
  not_root = ground (arith, s.counts 0, v.not_root);
  positive = omega (arith, s.same_next, v.positive);
  small = omega (arith, s.shorter, v.small);
}

pub same-Smaller : (t : CgroupTable) → Smaller t t
same-Smaller t = record {
  totals = λ x. omega arith;
  counts = λ i. omega arith;
  same_next = refl;
  shorter = omega arith;
}

-- A change of one group that keeps its id and its tasks.
module _ (f : Cgroup → Cgroup) (same_id : (g : Cgroup) → (f g).id ≡ g.id)
    (same_tasks : (g : Cgroup) (x : ℕ) → count_of (f g).members x ≡ count_of g.members x) where
  with_group-Smaller :
      (t : CgroupTable) (id : ℕ) → Smaller t (record t { groups = with_group f t.groups id })
  unfolding total
  with_group-Smaller t id = record {
    totals = λ x.
        ground (arith, places-with_group f t.groups id x 0 (λ g. omega (arith, same_tasks g x)));
    counts = λ i. omega (arith, id_count-with_group f t.groups id i same_id);
    same_next = refl;
    shorter = omega (arith, length-with_group f t.groups id);
  }

  pub set_limit-Smaller : (t : CgroupTable) (id : ℕ) → Smaller t (set_limit f t id).1
  unfolding set_limit
  set_limit-Smaller t id = elim (Bool-cases (id == cgroup_root)) [
    | inl r ↦ rw r (same-Smaller t)
    | inr r ↦ rw r (elim (Bool-cases (is_some (find_group t.groups id))) [
      | inl s ↦ rw s (with_group-Smaller t id)
      | inr s ↦ rw s (same-Smaller t)
    ])
  ]

-- A change of what is charged to one task.
with_charge-Smaller :
    (t : CgroupTable) (id task : ℕ) (f : ℕ → ℕ)
    → Smaller t (with_members (λ ms. with_charge f ms task) t id)
unfolding with_members total
with_charge-Smaller t id task f = elim (Bool-cases (id == cgroup_root)) [
  | inl r ↦ rw r (record {
    totals = λ x. omega (arith, count_of-with_charge f t.root_members task x);
    counts = λ i. omega arith;
    same_next = refl;
    shorter = omega arith;
  })
  | inr r ↦ rw r (
      with_group-Smaller (λ g. record g { members = with_charge f g.members task }) (λ g. refl)
        (λ g x. count_of-with_charge f g.members task x) t id)
]

guarded-Smaller :
    (t t' : CgroupTable) (b : Bool)
    → Smaller t t'
    → let r : Bool × CgroupTable = if b then (true, t') else (false, t) in Smaller t r.1
guarded-Smaller t t' true s = s
guarded-Smaller t t' false s = same-Smaller t

pub charge_in-Smaller :
    (t : CgroupTable) (task bytes : ℕ) (o : Option ℕ) → Smaller t (charge_in t task bytes o).1
unfolding charge_in
charge_in-Smaller t task bytes none = same-Smaller t
charge_in-Smaller t task bytes (some gid) =
    guarded-Smaller t _ _ (with_charge-Smaller t gid task (λ c. saturating_add64 c bytes))

pub uncharge_in-Smaller :
    (t : CgroupTable) (task bytes : ℕ) (o : Option ℕ) → Smaller t (uncharge_in t task bytes o)
unfolding uncharge_in
uncharge_in-Smaller t task bytes none = same-Smaller t
uncharge_in-Smaller t task bytes (some gid) = with_charge-Smaller t gid task (λ c. c - bytes)

pub charge_cpu_in-Smaller :
    (t : CgroupTable) (ticks : ℕ) (o : Option ℕ) → Smaller t (charge_cpu_in t ticks o).1
unfolding charge_cpu_in
charge_cpu_in-Smaller t ticks none = same-Smaller t
charge_cpu_in-Smaller t ticks (some gid) = guarded-Smaller t _ _ (
    with_group-Smaller (λ g. record g { cpu_used = saturating_add64 g.cpu_used ticks }) (λ g. refl)
      (λ g x. refl) t gid)

pub charge_io_in-Smaller :
    (t : CgroupTable) (bytes : ℕ) (o : Option ℕ) → Smaller t (charge_io_in t bytes o).1
unfolding charge_io_in
charge_io_in-Smaller t bytes none = same-Smaller t
charge_io_in-Smaller t bytes (some gid) = guarded-Smaller t _ _ (
    with_group-Smaller (λ g. record g { io_used = saturating_add64 g.io_used bytes }) (λ g. refl)
      (λ g x. refl) t gid)

detach_shape :
    (t : CgroupTable) (task : ℕ)
    → ((i : ℕ) → id_count (detach t task).1.groups i ≡ id_count t.groups i)
      × ((detach t task).1.next_id ≡ t.next_id)
      × (length (detach t task).1.groups ≡ length t.groups)
unfolding detach
detach_shape t task = (
  λ i. ground (arith, id_count-detach_from t.groups task i),
  ground arith,
  ground (arith, length-detach_from t.groups task),
)

pub detach-Smaller : (t : CgroupTable) (task : ℕ) → Smaller t (detach t task).1
detach-Smaller t task = record {
  totals = λ x. omega (arith, total-detach t task x);
  counts = λ i. omega (arith, (detach_shape t task).0 i);
  same_next = (detach_shape t task).1;
  shorter = omega (arith, (detach_shape t task).2);
}

-- A group is dropped.
module _ (gid : ℕ) where
  places-drop_group : (gs : List Cgroup) (x : ℕ) → places (drop_group gs gid) x ≤ places gs x
  unfolding places drop_group
  places-drop_group [] x = omega arith
  places-drop_group (k ∷ gs) x = ground (arith, places-drop_group gs x)

  id_count-drop_group : (gs : List Cgroup) (i : ℕ) → id_count (drop_group gs gid) i ≤ id_count gs i
  unfolding id_count drop_group
  id_count-drop_group [] i = omega arith
  id_count-drop_group (k ∷ gs) i = ground (arith, id_count-drop_group gs i)

  length-drop_group : (gs : List Cgroup) → length (drop_group gs gid) ≤ length gs
  unfolding drop_group
  length-drop_group [] = omega arith
  length-drop_group (k ∷ gs) = ground (arith, length-drop_group gs)

pub remove-Smaller : (t : CgroupTable) (id : ℕ) → Smaller t (remove t id).1
unfolding remove total
remove-Smaller t id = elim (Bool-cases (id == cgroup_root)) [
  | inl r ↦ rw r (same-Smaller t)
  | inr r ↦ elim (Option-cases (find_group t.groups id)) [
    | inl e ↦ rw r (rw e (same-Smaller t))
    | inr (g, e) ↦ elim (Bool-cases (has_members g)) [
      | inl m ↦ rw r (rw e (rw m (same-Smaller t)))
      | inr m ↦ rw r (
          rw e (
            rw m (record {
              totals = λ x. omega (arith, places-drop_group id t.groups x);
              counts = id_count-drop_group id t.groups;
              same_next = refl;
              shorter = length-drop_group id t.groups;
            })))
    ]
  ]
]
