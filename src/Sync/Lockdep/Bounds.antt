-- ===== src/Sync/Lockdep/Bounds.antt =====
-- The arrays of crates/zenus-sync/src/lockdep.rs are never indexed out of range by the operations that
-- change its state.
use zenus.Base.{
  ℕ, zero, suc, ◌+◌, ◌-◌, ◌≡◌, ◌≤◌, ◌<◌, ◌==◌, ◌&&◌, ◌||◌, not, Bool, Option, none, some, List, [],
  ◌∷◌, length, set, get_or, take, if◌then◌else◌, ltb, leb, arith, ◌∙◌, inl, inr, Bool-cases,
  length-set, length-replicate, replicate,
}
use zenus.Sync.Lockdep.{
  LockdepState, Name, add_edge, check_held, depth_of, lockdep_acquire, lockdep_clear,
  lockdep_register, lockdep_release, max_cpus, max_depth, max_edges, max_locks, Name, new_lockdep,
  live, recorded, no_edge, find_class, held_by, finish, LockEdge, passes, push, stack_of,
}

-- What the operations keep of the arrays and of the counts beside them.
pub record Shape (edges : List LockEdge) (edge_count : ℕ) (classes : List Name) (class_count : ℕ)
    (stacks : List (List ℕ)) (depths : List ℕ) : Type 0 where
  pub edge_slots : length edges ≡ max_edges
  pub edges_fit : edge_count ≤ max_edges
  pub class_slots : length classes ≡ max_locks
  pub classes_fit : class_count ≤ max_locks
  pub stack_slots : length stacks ≡ max_cpus
  pub depth_slots : length depths ≡ max_cpus
  pub depth_fits : (cpu : ℕ) → get_or depths cpu 0 ≤ max_depth

abbrev pub IsValid : LockdepState → Type 0
IsValid s = Shape s.edges s.edge_count s.classes s.class_count s.per_cpu_stack s.per_cpu_depth

get_or-set_le :
    (xs : List ℕ) (i j v m : ℕ) → v ≤ m → get_or xs j 0 ≤ m → get_or (set xs i v) j 0 ≤ m
get_or-set_le [] i j v m h k = k
get_or-set_le (x ∷ xs) zero zero v m h k = h
get_or-set_le (x ∷ xs) zero (suc j) v m h k = k
get_or-set_le (x ∷ xs) (suc i) zero v m h k = k
get_or-set_le (x ∷ xs) (suc i) (suc j) v m h k = get_or-set_le xs i j v m h k

add_edge-IsValid : (s : LockdepState) (h lock_id : ℕ) → IsValid s → IsValid (add_edge s h lock_id)
unfolding add_edge
add_edge-IsValid s h lock_id v =
    elim (Bool-cases (not (recorded (live s) h lock_id) && ltb s.edge_count max_edges)) [
      | inr e ↦ rw e v
      | inl e ↦
          let x : LockEdge = record { from = h; to = lock_id } in
          rw e (record {
            edge_slots = length-set s.edges s.edge_count x ∙ v.edge_slots;
            edges_fit = ground arith;
            class_slots = v.class_slots;
            classes_fit = v.classes_fit;
            stack_slots = v.stack_slots;
            depth_slots = v.depth_slots;
            depth_fits = v.depth_fits;
          })
    ]

check_held-IsValid :
    (s : LockdepState) (lock_id : ℕ) (hs : List ℕ)
    → IsValid s
    → IsValid ((check_held s lock_id hs).1)
unfolding check_held
check_held-IsValid s lock_id [] v = v
check_held-IsValid s lock_id (h ∷ hs) v =
    let s' = add_edge s h lock_id in
    let v' = add_edge-IsValid s h lock_id v in
    elim (Bool-cases (h == lock_id)) [
      | inl e ↦ rw e v
      | inr e ↦ elim (Bool-cases (recorded (live s') lock_id h)) [
        | inl r ↦ rw (e, r) v'
        | inr r ↦ rw (e, r) (check_held-IsValid s' lock_id hs v')
      ]
    ]

push-IsValid :
    (s : LockdepState) (cpu lock_id : ℕ)
    → depth_of s cpu < max_depth
    → IsValid s
    → IsValid (push s cpu lock_id)
push-IsValid s cpu lock_id room v = record {
  edge_slots = v.edge_slots;
  edges_fit = v.edges_fit;
  class_slots = v.class_slots;
  classes_fit = v.classes_fit;
  stack_slots =
      length-set s.per_cpu_stack cpu (set (stack_of s cpu) (depth_of s cpu) lock_id)
      ∙ v.stack_slots;
  depth_slots = length-set s.per_cpu_depth cpu (depth_of s cpu + 1) ∙ v.depth_slots;
  depth_fits = λ c.
      get_or-set_le s.per_cpu_depth cpu c (depth_of s cpu + 1) max_depth (omega arith)
        (v.depth_fits c);
}

finish-IsValid :
    (s : LockdepState) (cpu lock_id : ℕ) (r : Option Bool)
    → IsValid s
    → IsValid ((finish s cpu lock_id r).1)
finish-IsValid s cpu lock_id (some ok) v = v
finish-IsValid s cpu lock_id none v = elim (Bool-cases (ltb (depth_of s cpu) max_depth)) [
  | inl d ↦ rw d (push-IsValid s cpu lock_id (ground arith) v)
  | inr d ↦ rw d v
]

pub lockdep_acquire-IsValid :
    (s : LockdepState) (cpu lock_id : ℕ) → IsValid s → IsValid ((lockdep_acquire s cpu lock_id).1)
unfolding lockdep_acquire
lockdep_acquire-IsValid s cpu lock_id v = elim (Bool-cases (passes s lock_id)) [
  | inl p ↦ rw p v
  | inr p ↦
      let c = check_held s lock_id (held_by s cpu) in
      rw p (finish-IsValid (c.1) cpu lock_id (c.0) (check_held-IsValid s lock_id (held_by s cpu) v))
]

pub lockdep_release-IsValid :
    (s : LockdepState) (cpu lock_id : ℕ) → IsValid s → IsValid (lockdep_release s cpu lock_id)
unfolding lockdep_release
lockdep_release-IsValid s cpu lock_id v =
    let depth = depth_of s cpu in
    elim (Bool-cases (passes s lock_id || depth == 0)) [
      | inl p ↦ rw p v
      | inr p ↦ elim (Bool-cases (get_or (stack_of s cpu) (depth - 1) 0 == lock_id)) [
        | inr n ↦ rw (p, n) v
        | inl n ↦
            rw (p, n)
              (record {
                edge_slots = v.edge_slots;
                edges_fit = v.edges_fit;
                class_slots = v.class_slots;
                classes_fit = v.classes_fit;
                stack_slots = v.stack_slots;
                depth_slots = length-set s.per_cpu_depth cpu (depth - 1) ∙ v.depth_slots;
                depth_fits = λ c.
                    get_or-set_le s.per_cpu_depth cpu c (depth - 1) max_depth
                      (omega (arith, v.depth_fits cpu)) (v.depth_fits c);
              })
      ]
    ]

registered : LockdepState → Name → Option ℕ → ℕ × LockdepState
registered s name r = elim r [
  | some i ↦ (i + 1, s)
  | none ↦ if leb max_locks s.class_count then (0, s) else (
    s.class_count + 1,
    record s { classes = set s.classes s.class_count name; class_count = s.class_count + 1 },
  )
]

registered-IsValid :
    (s : LockdepState) (name : Name) (r : Option ℕ) → IsValid s → IsValid ((registered s name r).1)
unfolding registered
registered-IsValid s name (some i) v = v
registered-IsValid s name none v = elim (Bool-cases (leb max_locks s.class_count)) [
  | inl f ↦ rw f v
  | inr f ↦ rw f (record {
    edge_slots = v.edge_slots;
    edges_fit = v.edges_fit;
    class_slots = length-set s.classes s.class_count name ∙ v.class_slots;
    classes_fit = ground arith;
    stack_slots = v.stack_slots;
    depth_slots = v.depth_slots;
    depth_fits = v.depth_fits;
  })
]

pub lockdep_register-IsValid :
    (s : LockdepState) (name : Name) → IsValid s → IsValid ((lockdep_register s name).1)
unfolding lockdep_register registered
lockdep_register-IsValid s name v = elim (Bool-cases (not s.init || not s.enabled)) [
  | inl p ↦ rw p v
  | inr p ↦ rw p (registered-IsValid s name (find_class (take s.class_count s.classes) name) v)
]

cleared-le : (n j : ℕ) → get_or (replicate n 0) j 0 ≤ max_depth
cleared-le zero j = omega arith
cleared-le (suc n) zero = omega arith
cleared-le (suc n) (suc j) = cleared-le n j

pub lockdep_clear-IsValid : (s : LockdepState) → IsValid s → IsValid (lockdep_clear s)
unfolding lockdep_clear
lockdep_clear-IsValid s v = record {
  edge_slots = v.edge_slots;
  edges_fit = omega arith;
  class_slots = v.class_slots;
  classes_fit = v.classes_fit;
  stack_slots = v.stack_slots;
  depth_slots = length-replicate {A = ℕ} max_cpus 0;
  depth_fits = cleared-le max_cpus;
}

pub new_lockdep-IsValid : IsValid new_lockdep
unfolding new_lockdep
new_lockdep-IsValid = record {
  edge_slots = length-replicate max_edges no_edge;
  edges_fit = omega arith;
  class_slots = length-replicate {A = Name} max_locks [];
  classes_fit = omega arith;
  stack_slots = length-replicate max_cpus (replicate {A = ℕ} max_depth 0);
  depth_slots = length-replicate {A = ℕ} max_cpus 0;
  depth_fits = cleared-le max_cpus;
}
