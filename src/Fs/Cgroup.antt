-- ===== src/Fs/Cgroup.antt =====
-- The controller table of the control groups, crates/zenus-fs/src/cgroup.rs. A name is the list of its
-- bytes. The files under /sys/fs/cgroup, which print and parse the limits, are left out.
pub mod Tasks
pub mod Count
pub mod Attach
pub mod Move
pub mod Charge
pub mod Calls
pub mod Runs
pub mod Lock
mod Tests
use zenus.Base.{
  ℕ, zero, suc, ◌+◌, ◌-◌, ◌%◌, ◌^◌, ◌==◌, ltb, leb, if◌then◌else◌, Bool, true, false, not, ◌&&◌,
  ◌||◌, Option, none, some, List, [], ◌∷◌, ◌++◌, length, add64,
}

abbrev pub cgroup_root : ℕ
cgroup_root = 0

abbrev pub cgroup_unlimited : ℕ
cgroup_unlimited = 2 ^ 64 - 1

abbrev pub max_cgroups : ℕ
max_cgroups = 32

abbrev pub max_name_len : ℕ
max_name_len = 64

pub record Member : Type 0 where
  pub task : ℕ
  pub charged : ℕ

pub record Cgroup : Type 0 where
  pub id : ℕ
  pub name : List ℕ
  pub memory_max : ℕ
  pub pids_max : ℕ
  pub cpu_max : ℕ
  pub io_max : ℕ
  pub cpu_used : ℕ
  pub io_used : ℕ
  pub members : List Member

pub record CgroupTable : Type 0 where
  pub groups : List Cgroup
  pub root_members : List Member
  pub next_id : ℕ

pub data AttachError : Type 0 where
  no_such_group : AttachError
  pids_limit : AttachError

-- `Result<(), AttachError>`
abbrev pub Attached : Type 0
Attached = Option AttachError

pub empty_table : CgroupTable
empty_table = record { groups = []; root_members = []; next_id = 1 }

abbrev pub same_bytes : List ℕ → List ℕ → Bool
same_bytes [] [] = true
same_bytes [] (y ∷ ys) = false
same_bytes (x ∷ xs) [] = false
same_bytes (x ∷ xs) (y ∷ ys) = x == y && same_bytes xs ys

-- The name of the root.
abbrev pub slash : List ℕ
slash = 47 ∷ []

-- `index_of`, as the group at the index.
pub find_group : List Cgroup → ℕ → Option Cgroup
find_group [] id = none
find_group (g ∷ gs) id = let rest = find_group gs id in if g.id == id then some g else rest

-- The group at the index is changed.
pub with_group : (Cgroup → Cgroup) → List Cgroup → ℕ → List Cgroup
with_group f [] id = []
with_group f (g ∷ gs) id =
    let rest = with_group f gs id in if g.id == id then f g ∷ gs else g ∷ rest

abbrev pub is_some {ℓ} : {A : Type ℓ} → Option A → Bool
is_some none = false
is_some (some a) = true

pub exists : CgroupTable → ℕ → Bool
unfolding find_group
exists t id = id == cgroup_root || is_some (find_group t.groups id)

pub has_name : List Cgroup → List ℕ → Bool
has_name [] name = false
has_name (g ∷ gs) name = same_bytes g.name name || has_name gs name

abbrev pub new_group : ℕ → List ℕ → Cgroup
new_group id name = record {
  id = id;
  name = name;
  memory_max = cgroup_unlimited;
  pids_max = cgroup_unlimited;
  cpu_max = cgroup_unlimited;
  io_max = cgroup_unlimited;
  cpu_used = 0;
  io_used = 0;
  members = [];
}

-- `next_id` is a u64; the sum wraps, and with overflow checks it would panic instead.
pub create : CgroupTable → List ℕ → Option ℕ × CgroupTable
unfolding has_name
create t name =
    if length name == 0 || (ltb max_name_len (length name) || same_bytes name slash)
    then (none, t)
    else if has_name t.groups name || leb max_cgroups (length t.groups)
    then (none, t)
    else (
      some t.next_id,
      record t {
        groups = t.groups ++ (new_group t.next_id name ∷ []);
        next_id = add64 t.next_id 1;
      },
    )

-- `groups.remove(index)`
pub drop_group : List Cgroup → ℕ → List Cgroup
drop_group [] id = []
drop_group (g ∷ gs) id = let rest = drop_group gs id in if g.id == id then gs else g ∷ rest

abbrev pub has_members : Cgroup → Bool
has_members g = not (length g.members == 0)

pub remove : CgroupTable → ℕ → Bool × CgroupTable
unfolding find_group drop_group
remove t id = if id == cgroup_root then (false, t) else elim (find_group t.groups id) [
  | none ↦ (false, t)
  | some g ↦
      if has_members g then (false, t) else (true, record t { groups = drop_group t.groups id })
]

-- A field of a group, or what the root has.
abbrev pub of_group {ℓ} : {A : Type ℓ} → A → (Cgroup → A) → CgroupTable → ℕ → Option A
of_group root field t id =
    if id == cgroup_root
    then some root
    else elim (find_group t.groups id) [ none ↦ none | some g ↦ some (field g) ]

abbrev pub or_else {ℓ} : {A : Type ℓ} → Option A → A → A
or_else none d = d
or_else (some a) d = a

pub members : CgroupTable → ℕ → Option (List Member)
unfolding find_group
members t id = of_group t.root_members (λ g. g.members) t id

pub charged_sum : List Member → ℕ
charged_sum [] = 0
charged_sum (m ∷ ms) = m.charged + charged_sum ms

pub pids_current : CgroupTable → ℕ → ℕ
unfolding members
pids_current t id = length (or_else (members t id) [])

-- The sum is a u64, which wraps.
pub memory_current : CgroupTable → ℕ → ℕ
unfolding members charged_sum
memory_current t id = charged_sum (or_else (members t id) []) % 2 ^ 64

pub pids_max : CgroupTable → ℕ → Option ℕ
unfolding find_group
pids_max t id = of_group cgroup_unlimited (λ g. g.pids_max) t id

pub memory_max : CgroupTable → ℕ → Option ℕ
unfolding find_group
memory_max t id = of_group cgroup_unlimited (λ g. g.memory_max) t id

pub cpu_max : CgroupTable → ℕ → Option ℕ
unfolding find_group
cpu_max t id = of_group cgroup_unlimited (λ g. g.cpu_max) t id

pub io_max : CgroupTable → ℕ → Option ℕ
unfolding find_group
io_max t id = of_group cgroup_unlimited (λ g. g.io_max) t id

pub cpu_used : CgroupTable → ℕ → ℕ
unfolding find_group
cpu_used t id = or_else (of_group 0 (λ g. g.cpu_used) t id) 0

pub io_used : CgroupTable → ℕ → ℕ
unfolding find_group
io_used t id = or_else (of_group 0 (λ g. g.io_used) t id) 0

-- What the four setters share.
pub set_limit : (Cgroup → Cgroup) → CgroupTable → ℕ → Bool × CgroupTable
unfolding find_group with_group
set_limit f t id =
    if id == cgroup_root
    then (false, t)
    else if is_some (find_group t.groups id)
    then (true, record t { groups = with_group f t.groups id })
    else (false, t)

pub set_pids_max : CgroupTable → ℕ → ℕ → Bool × CgroupTable
unfolding set_limit
set_pids_max t id limit = set_limit (λ g. record g { pids_max = limit }) t id

pub set_memory_max : CgroupTable → ℕ → ℕ → Bool × CgroupTable
unfolding set_limit
set_memory_max t id limit = set_limit (λ g. record g { memory_max = limit }) t id

pub set_cpu_max : CgroupTable → ℕ → ℕ → Bool × CgroupTable
unfolding set_limit
set_cpu_max t id limit = set_limit (λ g. record g { cpu_max = limit }) t id

pub set_io_max : CgroupTable → ℕ → ℕ → Bool × CgroupTable
unfolding set_limit
set_io_max t id limit = set_limit (λ g. record g { io_max = limit }) t id
