-- ===== src/Sync/Lockdep/Order.antt =====
-- What `lockdep_acquire` of crates/zenus-sync/src/lockdep.rs reports.
use zenus.Base.{
  ℕ, suc, ◌+◌, ◌≡◌, ◌≤◌, ◌<◌, ◌==◌, ◌&&◌, ◌||◌, not, Bool, true, false, Option, none, some, List,
  [], ◌∷◌, ◌++◌, length, set, take, if◌then◌else◌, ltb, add64, arith, refl, ◌∙◌, ap, inl, inr,
  Bool-cases, take-set_self, length-set,
}
use zenus.Sync.Lockdep.{
  LockEdge, LockdepState, add_edge, check_held, held_by, is_edge, live, lockdep_acquire, max_edges,
  passes, recorded,
}

-- The answer by the edges that are recorded alone: the first held lock that is the one asked for, or
-- that was taken after it once, decides.
pub verdict : List LockEdge → ℕ → List ℕ → Option Bool
verdict es lock_id [] = none
verdict es lock_id (held ∷ hs) =
    let rest = verdict es lock_id hs in
    if held == lock_id then some true else if recorded es lock_id held then some false else rest

-- The array of edges has its length.
pub record HasEdges (s : LockdepState) : Type 0 where
  pub slots : length s.edges ≡ max_edges
  pub fits : s.edge_count ≤ max_edges

recorded-last :
    (es : List LockEdge) (e : LockEdge) (from to : ℕ)
    → is_edge from to e ≡ false
    → recorded (es ++ (e ∷ [])) from to ≡ recorded es from to
unfolding recorded
recorded-last [] e from to n = rw n
recorded-last (x ∷ es) e from to n = ap (λ r. is_edge from to x || r) (recorded-last es e from to n)

pub add_edge-HasEdges :
    (s : LockdepState) (h lock_id : ℕ) → HasEdges s → HasEdges (add_edge s h lock_id)
unfolding add_edge
add_edge-HasEdges s h lock_id v =
    ground (arith, length-set s.edges s.edge_count (record { from = h; to = lock_id }))

-- An edge that is new goes to the end, where there is room.
pub live-add_edge :
    (s : LockdepState) (h lock_id : ℕ)
    → HasEdges s
    → (not (recorded (live s) h lock_id) && ltb s.edge_count max_edges) ≡ true
    → live (add_edge s h lock_id) ≡ live s ++ (record { from = h; to = lock_id } ∷ [])
unfolding add_edge
live-add_edge s h lock_id v e =
    let x : LockEdge = record { from = h; to = lock_id } in
    let k : s.edge_count + 1 ≡ suc s.edge_count = omega arith in
    let small : s.edge_count < length s.edges = ground (arith, v.slots) in
    rw e
      (ap (λ m. take m (set s.edges s.edge_count x)) k ∙ take-set_self s.edge_count s.edges x small)

-- Recording that `lock_id` is taken under another lock adds no edge that starts at `lock_id`.
recorded-add_edge :
    (s : LockdepState) (h lock_id g : ℕ)
    → HasEdges s
    → (h == lock_id) ≡ false
    → recorded (live (add_edge s h lock_id)) lock_id g ≡ recorded (live s) lock_id g
unfolding add_edge
recorded-add_edge s h lock_id g v n =
    elim (Bool-cases (not (recorded (live s) h lock_id) && ltb s.edge_count max_edges)) [
      | inr e ↦ rw e refl
      | inl e ↦
          ap (λ l. recorded l lock_id g) (live-add_edge s h lock_id v e)
          ∙ recorded-last (live s) (record { from = h; to = lock_id }) lock_id g (ground arith)
    ]

abbrev verdict_from : LockdepState → ℕ → List ℕ → Option Bool
verdict_from s lock_id hs = verdict (live s) lock_id hs

verdict_same :
    (es es' : List LockEdge) (lock_id : ℕ) (hs : List ℕ)
    → ((g : ℕ) → recorded es' lock_id g ≡ recorded es lock_id g)
    → verdict es' lock_id hs ≡ verdict es lock_id hs
unfolding verdict
verdict_same es es' lock_id [] f = refl
verdict_same es es' lock_id (h ∷ hs) f = rw (f h, verdict_same es es' lock_id hs f) refl

check_held-verdict :
    (s : LockdepState) (lock_id : ℕ) (hs : List ℕ)
    → HasEdges s
    → (check_held s lock_id hs).0 ≡ verdict (live s) lock_id hs
unfolding check_held verdict
check_held-verdict s lock_id [] v = refl
check_held-verdict s lock_id (h ∷ hs) v = elim (Bool-cases (h == lock_id)) [
  | inl e ↦ ground arith
  | inr e ↦
      let s' = add_edge s h lock_id in
      let f : (g : ℕ) → recorded (live s') lock_id g ≡ recorded (live s) lock_id g =
        λ g. recorded-add_edge s h lock_id g v e in
      let ih : (check_held s' lock_id hs).0 ≡ verdict (live s) lock_id hs =
        check_held-verdict s' lock_id hs (add_edge-HasEdges s h lock_id v)
        ∙ verdict_same (live s) (live s') lock_id hs f in
      ground (arith, f h, ih)
]

add_edge_keeps :
    (s : LockdepState) (h lock_id : ℕ) → (add_edge s h lock_id).violations ≡ s.violations
unfolding add_edge
add_edge_keeps s h lock_id = ground arith

-- A report is counted.
check_held_counts :
    (s : LockdepState) (lock_id : ℕ) (hs : List ℕ)
    → let (r, s') = check_held s lock_id hs in
      s'.violations
      ≡ elim r [ none ↦ s.violations | some ok ↦ if ok then s.violations else add64 s.violations 1 ]
unfolding check_held
check_held_counts s lock_id [] = refl
check_held_counts s lock_id (h ∷ hs) =
    ground (arith, add_edge_keeps s h lock_id, check_held_counts (add_edge s h lock_id) lock_id hs)

-- The locks of the list up to the first that is `lock_id`.
unfoldable pub before : ℕ → List ℕ → List ℕ
before lock_id [] = []
before lock_id (h ∷ hs) = let rest = before lock_id hs in if h == lock_id then [] else h ∷ rest

-- One of the locks was taken after `lock_id` once.
unfoldable pub inverts : List LockEdge → ℕ → List ℕ → Bool
inverts es lock_id [] = false
inverts es lock_id (h ∷ hs) = recorded es lock_id h || inverts es lock_id hs

verdict-inverts :
    (es : List LockEdge) (lock_id : ℕ) (hs : List ℕ)
    → elim (verdict es lock_id hs) [ none ↦ true | some ok ↦ ok ]
      ≡ not (inverts es lock_id (before lock_id hs))
unfolding verdict inverts before
verdict-inverts es lock_id [] = refl
verdict-inverts es lock_id (h ∷ hs) = ground (arith, verdict-inverts es lock_id hs)

-- Where the check is on, `lockdep_acquire` refuses the lock exactly when the edges recorded on entry
-- have it taken before one of the locks that the CPU holds, those from its own first occurrence on left
-- out; it counts one violation for a refusal, and none otherwise.
pub lockdep_acquire-inverts :
    (s : LockdepState) (cpu lock_id : ℕ)
    → HasEdges s
    → passes s lock_id ≡ false
    → let (ok, s') = lockdep_acquire s cpu lock_id in
      (ok ≡ not (inverts (live s) lock_id (before lock_id (held_by s cpu))))
      × (s'.violations ≡ (if ok then s.violations else add64 s.violations 1))
unfolding lockdep_acquire
lockdep_acquire-inverts s cpu lock_id v on =
    let hs = held_by s cpu in
    ground (
      arith,
      check_held-verdict s lock_id hs v,
      verdict-inverts (live s) lock_id hs,
      check_held_counts s lock_id hs,
      on,
    )
