-- ===== src/Sync/Lockdep/Run.antt =====
-- Sequences of the calls of crates/zenus-sync/src/lockdep.rs, by several CPUs: the lock of the state
-- makes each one step.
use zenus.Base.{
  ℕ, ◌≡◌, ◌&&◌, not, Bool, true, false, Option, none, some, List, [], ◌∷◌, ◌++◌, ltb, arith, refl,
  ◌∙◌, ap, inl, inr, Bool-cases,
}
use zenus.Sync.Lockdep.{
  LockdepState, LockEdge, Name, add_edge, check_held, depth_of, lockdep_acquire, lockdep_clear,
  lockdep_enable, lockdep_init, lockdep_register, lockdep_release, max_depth, max_edges, live,
  recorded, is_edge, held_by, finish, granted, passes,
}
use zenus.Sync.Lockdep.Order.{HasEdges, add_edge-HasEdges, live-add_edge}
use zenus.Sync.Lockdep.Bounds.{
  IsValid, lockdep_register-IsValid, lockdep_acquire-IsValid, lockdep_release-IsValid,
  lockdep_clear-IsValid,
}

-- A call, with the CPU that makes it.
pub data Call : Type 0 where
  init_call : Call
  enable_call : Bool → Call
  register_call : Name → Call
  acquire_call : ℕ → ℕ → Call
  release_call : ℕ → ℕ → Call
  clear_call : Call

unfoldable pub step : LockdepState → Call → LockdepState
step s init_call = lockdep_init s
step s (enable_call enabled) = lockdep_enable s enabled
step s (register_call name) = (lockdep_register s name).1
step s (acquire_call cpu lock_id) = (lockdep_acquire s cpu lock_id).1
step s (release_call cpu lock_id) = lockdep_release s cpu lock_id
step s clear_call = lockdep_clear s

unfoldable pub run : LockdepState → List Call → LockdepState
run s [] = s
run s (c ∷ cs) = run (step s c) cs

step-IsValid : (s : LockdepState) (c : Call) → IsValid s → IsValid (step s c)
unfolding step lockdep_init lockdep_enable
step-IsValid s init_call v = v
step-IsValid s (enable_call enabled) v = v
step-IsValid s (register_call name) v = lockdep_register-IsValid s name v
step-IsValid s (acquire_call cpu lock_id) v = lockdep_acquire-IsValid s cpu lock_id v
step-IsValid s (release_call cpu lock_id) v = lockdep_release-IsValid s cpu lock_id v
step-IsValid s clear_call v = lockdep_clear-IsValid s v

-- Whatever calls are made from a valid state on, in whatever order and on whatever CPUs, the counts
-- stay in the bounds of the arrays, and the arrays keep their lengths.
pub run-IsValid : (s : LockdepState) (cs : List Call) → IsValid s → IsValid (run s cs)
unfolding run
run-IsValid s [] v = v
run-IsValid s (c ∷ cs) v = run-IsValid (step s c) cs (step-IsValid s c v)

recorded-append :
    (es fs : List LockEdge) (a b : ℕ) → recorded es a b ≡ true → recorded (es ++ fs) a b ≡ true
unfolding recorded
recorded-append [] fs a b h = absurd (ground (arith, h))
recorded-append (e ∷ es) fs a b h = elim (Bool-cases (is_edge a b e)) [
  | inl q ↦ rw q refl
  | inr q ↦ rw q (recorded-append es fs a b (ground (arith, h)))
]

pub add_edge-grows :
    (s : LockdepState) (h lock_id a b : ℕ)
    → HasEdges s
    → recorded (live s) a b ≡ true
    → recorded (live (add_edge s h lock_id)) a b ≡ true
unfolding add_edge
add_edge-grows s h lock_id a b v r =
    elim (Bool-cases (not (recorded (live s) h lock_id) && ltb s.edge_count max_edges)) [
      | inr e ↦ rw e r
      | inl e ↦
          ap (λ es. recorded es a b) (live-add_edge s h lock_id v e)
          ∙ recorded-append (live s) (record { from = h; to = lock_id } ∷ []) a b r
    ]

pub check_held-grows :
    (s : LockdepState) (lock_id : ℕ) (hs : List ℕ) (a b : ℕ)
    → HasEdges s
    → recorded (live s) a b ≡ true
    → recorded (live (check_held s lock_id hs).1) a b ≡ true
unfolding check_held
check_held-grows s lock_id [] a b v r = r
check_held-grows s lock_id (h ∷ hs) a b v r =
    let s' = add_edge s h lock_id in
    let r' = add_edge-grows s h lock_id a b v r in
    ground (arith, r, r', check_held-grows s' lock_id hs a b (add_edge-HasEdges s h lock_id v) r')

pub has_edges : (s : LockdepState) → IsValid s → HasEdges s
has_edges s v = record { slots = v.edge_slots; fits = v.edges_fit }

live-granted : (s : LockdepState) (cpu lock_id : ℕ) → live (granted s cpu lock_id) ≡ live s
live-granted s cpu lock_id = elim (Bool-cases (ltb (depth_of s cpu) max_depth)) [
  | inl e ↦ rw e refl
  | inr e ↦ rw e refl
]

pub live-finish :
    (s : LockdepState) (cpu lock_id : ℕ) (r : Option Bool)
    → live (finish s cpu lock_id r).1 ≡ live s
live-finish s cpu lock_id (some ok) = refl
live-finish s cpu lock_id none = live-granted s cpu lock_id

lockdep_acquire-grows :
    (s : LockdepState) (cpu lock_id a b : ℕ)
    → HasEdges s
    → recorded (live s) a b ≡ true
    → recorded (live (lockdep_acquire s cpu lock_id).1) a b ≡ true
unfolding lockdep_acquire
lockdep_acquire-grows s cpu lock_id a b v r = elim (Bool-cases (passes s lock_id)) [
  | inl p ↦ rw p r
  | inr p ↦
      let c = check_held s lock_id (held_by s cpu) in
      rw p (
        ap (λ es. recorded es a b) (live-finish c.1 cpu lock_id c.0)
        ∙ check_held-grows s lock_id (held_by s cpu) a b v r)
]

-- The calls that keep the recorded edges.
unfoldable pub keeps_edges : Call → Bool
keeps_edges clear_call = false
keeps_edges init_call = true
keeps_edges (enable_call enabled) = true
keeps_edges (register_call name) = true
keeps_edges (acquire_call cpu lock_id) = true
keeps_edges (release_call cpu lock_id) = true

unfoldable pub keep_edges : List Call → Bool
keep_edges [] = true
keep_edges (c ∷ cs) = keeps_edges c && keep_edges cs

lockdep_release-live :
    (s : LockdepState) (cpu lock_id : ℕ) → live (lockdep_release s cpu lock_id) ≡ live s
unfolding lockdep_release
lockdep_release-live s cpu lock_id = ground arith

lockdep_register-live : (s : LockdepState) (name : Name) → live (lockdep_register s name).1 ≡ live s
unfolding lockdep_register
lockdep_register-live s name = ground arith

step-grows :
    (s : LockdepState) (c : Call) (a b : ℕ)
    → HasEdges s
    → keeps_edges c ≡ true
    → recorded (live s) a b ≡ true
    → recorded (live (step s c)) a b ≡ true
unfolding step lockdep_init lockdep_enable keeps_edges
step-grows s init_call a b v k r = r
step-grows s (enable_call enabled) a b v k r = r
step-grows s (register_call name) a b v k r =
    ap (λ es. recorded es a b) (lockdep_register-live s name) ∙ r
step-grows s (acquire_call cpu lock_id) a b v k r = lockdep_acquire-grows s cpu lock_id a b v r
step-grows s (release_call cpu lock_id) a b v k r =
    ap (λ es. recorded es a b) (lockdep_release-live s cpu lock_id) ∙ r
step-grows s clear_call a b v k r = ground (arith, k)

pub run-grows :
    (s : LockdepState) (cs : List Call) (a b : ℕ)
    → IsValid s
    → keep_edges cs ≡ true
    → recorded (live s) a b ≡ true
    → recorded (live (run s cs)) a b ≡ true
unfolding run keep_edges
run-grows s [] a b v k r = r
run-grows s (c ∷ cs) a b v k r =
    run-grows (step s c) cs a b (step-IsValid s c v) (ground (arith, k))
      (step-grows s c a b (has_edges s v) (ground (arith, k)) r)
