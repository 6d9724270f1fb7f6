-- ===== src/Sync/Lockdep.antt =====
-- The lock order checker, crates/zenus-sync/src/lockdep.rs. The two flags and the locked state are one
-- record; the CPU is an argument, as is the name of a class, a list of bytes. The report on the
-- serial line is left out.
pub mod Order
pub mod Bounds
pub mod Run
pub mod Inversion
pub mod Status
mod Tests
use zenus.Base.{
  ℕ, zero, suc, ◌+◌, ◌-◌, ◌==◌, ltb, leb, if◌then◌else◌, Bool, true, false, not, ◌&&◌, ◌||◌, Option,
  none, some, List, [], ◌∷◌, get_or, set, take, replicate, add64, length,
}

abbrev pub max_locks : ℕ
max_locks = 64

abbrev pub max_depth : ℕ
max_depth = 8

abbrev pub max_edges : ℕ
max_edges = 256

abbrev pub max_cpus : ℕ
max_cpus = 8

abbrev pub Name : Type 0
Name = List ℕ

pub record LockEdge : Type 0 where
  pub from : ℕ
  pub to : ℕ

-- `LOCKDEP_INIT`, `LOCKDEP_ENABLED` and `LOCKDEP`.
pub record LockdepState : Type 0 where
  pub init : Bool
  pub enabled : Bool
  pub classes : List Name
  pub class_count : ℕ
  pub edges : List LockEdge
  pub edge_count : ℕ
  pub per_cpu_stack : List (List ℕ)
  pub per_cpu_depth : List ℕ
  pub violations : ℕ

abbrev pub no_edge : LockEdge
no_edge = record { from = 0; to = 0 }

pub new_lockdep : LockdepState
new_lockdep = record {
  init = false;
  enabled = true;
  classes = replicate max_locks [];
  class_count = 0;
  edges = replicate max_edges no_edge;
  edge_count = 0;
  per_cpu_stack = replicate max_cpus (replicate max_depth 0);
  per_cpu_depth = replicate max_cpus 0;
  violations = 0;
}

pub lockdep_init : LockdepState → LockdepState
lockdep_init s = record s { init = true }

pub lockdep_enable : LockdepState → Bool → LockdepState
lockdep_enable s enabled = record s { enabled = enabled }

abbrev pub same_name : Name → Name → Bool
same_name [] [] = true
same_name [] (y ∷ ys) = false
same_name (x ∷ xs) [] = false
same_name (x ∷ xs) (y ∷ ys) = x == y && same_name xs ys

-- The first loop of `lockdep_register`.
pub find_class : List Name → Name → Option ℕ
find_class [] name = none
find_class (c ∷ cs) name =
    let rest = find_class cs name in
    if same_name c name then some 0 else elim rest [ none ↦ none | some i ↦ some (suc i) ]

pub lockdep_register : LockdepState → Name → ℕ × LockdepState
unfolding find_class
lockdep_register s name =
    if not s.init || not s.enabled
    then (0, s)
    else elim (find_class (take s.class_count s.classes) name) [
      | some i ↦ (i + 1, s)
      | none ↦ if leb max_locks s.class_count then (0, s) else (
        s.class_count + 1,
        record s { classes = set s.classes s.class_count name; class_count = s.class_count + 1 },
      )
    ]

abbrev pub is_edge : ℕ → ℕ → LockEdge → Bool
is_edge from to e = e.from == from && e.to == to

-- `edges[..count].iter().any(..)`
pub recorded : List LockEdge → ℕ → ℕ → Bool
recorded [] from to = false
recorded (e ∷ es) from to = is_edge from to e || recorded es from to

abbrev pub live : LockdepState → List LockEdge
live s = take s.edge_count s.edges

-- A held lock and the one asked for: the edge is recorded, if there is room.
pub add_edge : LockdepState → ℕ → ℕ → LockdepState
unfolding recorded
add_edge s held lock_id =
    if not (recorded (live s) held lock_id) && ltb s.edge_count max_edges
    then record s {
      edges = set s.edges s.edge_count (record { from = held; to = lock_id });
      edge_count = s.edge_count + 1;
    }
    else s

-- The loop over the locks that the CPU holds; `some` is an early return.
pub check_held : LockdepState → ℕ → List ℕ → Option Bool × LockdepState
check_held s lock_id [] = (none, s)
check_held s lock_id (held ∷ hs) =
    let s' = add_edge s held lock_id in
    let rest = check_held s' lock_id hs in
    if held == lock_id
    then (some true, s)
    else if recorded (live s') lock_id held
    then (some false, record s' { violations = add64 s'.violations 1 })
    else rest

abbrev pub stack_of : LockdepState → ℕ → List ℕ
stack_of s cpu = get_or s.per_cpu_stack cpu []

abbrev pub depth_of : LockdepState → ℕ → ℕ
depth_of s cpu = get_or s.per_cpu_depth cpu 0

-- The locks that the CPU holds, the oldest first.
abbrev pub held_by : LockdepState → ℕ → List ℕ
held_by s cpu = take (depth_of s cpu) (stack_of s cpu)

abbrev pub push : LockdepState → ℕ → ℕ → LockdepState
push s cpu lock_id = record s {
  per_cpu_stack = set s.per_cpu_stack cpu (set (stack_of s cpu) (depth_of s cpu) lock_id);
  per_cpu_depth = set s.per_cpu_depth cpu (depth_of s cpu + 1);
}

-- Nothing is checked: lockdep is off, or the id is no class.
abbrev pub passes : LockdepState → ℕ → Bool
passes s lock_id = not s.init || not s.enabled || lock_id == 0 || ltb max_locks lock_id

abbrev pub granted : LockdepState → ℕ → ℕ → LockdepState
granted s cpu lock_id = if ltb (depth_of s cpu) max_depth then push s cpu lock_id else s

-- What follows the loop.
abbrev pub finish : LockdepState → ℕ → ℕ → Option Bool → Bool × LockdepState
finish s cpu lock_id (some ok) = (ok, s)
finish s cpu lock_id none = (true, granted s cpu lock_id)

pub lockdep_acquire : LockdepState → ℕ → ℕ → Bool × LockdepState
unfolding check_held add_edge
lockdep_acquire s cpu lock_id =
    if passes s lock_id
    then (true, s)
    else (let (r, s') = check_held s lock_id (held_by s cpu) in finish s' cpu lock_id r)

pub lockdep_release : LockdepState → ℕ → ℕ → LockdepState
lockdep_release s cpu lock_id =
    let depth = depth_of s cpu in
    if passes s lock_id || depth == 0
    then s
    else if get_or (stack_of s cpu) (depth - 1) 0 == lock_id
    then record s { per_cpu_depth = set s.per_cpu_depth cpu (depth - 1) }
    else s

pub record LockdepSnapshot : Type 0 where
  pub violations : ℕ
  pub class_count : ℕ
  pub edge_count : ℕ
  pub classes : List Name
  pub edges : List LockEdge

-- `snapshot.classes[i + 1] = state.classes[i].name` with `n` rounds left; an index past the array
-- is a panic.
pub copy_names : ℕ → ℕ → List Name → List Name → Option (List Name)
copy_names zero i from to = some to
copy_names (suc n) i from to = elim (ltb (i + 1) (length to)) [
  | false ↦ none
  | true ↦ copy_names n (i + 1) from (set to (i + 1) (get_or from i []))
]

pub copy_edges : ℕ → ℕ → List LockEdge → List LockEdge → List LockEdge
copy_edges zero i from to = to
copy_edges (suc n) i from to = copy_edges n (i + 1) from (set to i (get_or from i no_edge))

pub lockdep_status : LockdepState → Option LockdepSnapshot
unfolding copy_names copy_edges
lockdep_status s = elim (copy_names s.class_count 0 s.classes (replicate max_locks [])) [
  | none ↦ none
  | some names ↦ some (record {
    violations = s.violations;
    class_count = s.class_count;
    edge_count = s.edge_count;
    classes = names;
    edges = copy_edges s.edge_count 0 s.edges (replicate max_edges no_edge);
  })
]

pub lockdep_clear : LockdepState → LockdepState
lockdep_clear s = record s { violations = 0; edge_count = 0; per_cpu_depth = replicate max_cpus 0 }
