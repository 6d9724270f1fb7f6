-- ===== src/Sync/Lockdep/Inversion.antt =====
-- What `lockdep_acquire` of crates/zenus-sync/src/lockdep.rs is for: two locks that are taken in both
-- orders are reported, whatever happens in between.
use zenus.Base.{
  ℕ, ◌+◌, ◌≡◌, ◌≢◌, ◌≤◌, ◌<◌, ◌==◌, ◌&&◌, ◌||◌, not, Bool, true, false, none, some, List, [], ◌∷◌,
  ◌++◌, length, ltb, arith, refl, ◌∙◌, ap, inl, inr, Bool-cases,
}
use zenus.Sync.Lockdep.{
  LockdepState, LockEdge, add_edge, check_held, lockdep_acquire, max_edges, live, recorded, held_by,
  passes,
}
use zenus.Sync.Lockdep.Order.{
  HasEdges, add_edge-HasEdges, before, inverts, live-add_edge, lockdep_acquire-inverts,
}
use zenus.Sync.Lockdep.Bounds.{IsValid, lockdep_acquire-IsValid}
use zenus.Sync.Lockdep.Run.{
  Call, has_edges, live-finish, check_held-grows, keep_edges, run, run-IsValid, run-grows,
}

recorded-new :
    (es : List LockEdge) (a b : ℕ) → recorded (es ++ (record { from = a; to = b } ∷ [])) a b ≡ true
unfolding recorded
recorded-new [] a b = ground arith
recorded-new (e ∷ es) a b = ground (arith, recorded-new es a b)

add_edge-records :
    (s : LockdepState) (h lock_id : ℕ)
    → HasEdges s
    → s.edge_count < max_edges
    → recorded (live (add_edge s h lock_id)) h lock_id ≡ true
unfolding add_edge
add_edge-records s h lock_id v room =
    elim (Bool-cases (not (recorded (live s) h lock_id) && ltb s.edge_count max_edges)) [
      | inr e ↦ rw e (ground (arith, e))
      | inl e ↦
          ap (λ es. recorded es h lock_id) (live-add_edge s h lock_id v e)
          ∙ recorded-new (live s) h lock_id
    ]

-- The lock is one of the list.
unfoldable pub holds : ℕ → List ℕ → Bool
holds g [] = false
holds g (h ∷ hs) = h == g || holds g hs

add_edge-count :
    (s : LockdepState) (h lock_id : ℕ) → (add_edge s h lock_id).edge_count ≤ s.edge_count + 1
unfolding add_edge
add_edge-count s h lock_id = ground arith

check_held-records :
    (s : LockdepState) (lock_id : ℕ) (hs : List ℕ) (g : ℕ)
    → HasEdges s
    → s.edge_count + length hs ≤ max_edges
    → (check_held s lock_id hs).0 ≡ none
    → holds g hs ≡ true
    → recorded (live (check_held s lock_id hs).1) g lock_id ≡ true
unfolding check_held holds
check_held-records s lock_id [] g v room n i = ground (arith, i)
check_held-records s lock_id (h ∷ hs) g v room n i =
    let s' = add_edge s h lock_id in
    let v' = add_edge-HasEdges s h lock_id v in
    let count = add_edge-count s h lock_id in
    let rest : (check_held s' lock_id hs).0 ≡ none = ground (arith, n) in
    let less : s'.edge_count + length hs ≤ max_edges = omega (arith, room, count) in
    let there : recorded (live (check_held s' lock_id hs).1) g lock_id ≡ true =
      elim (Bool-cases (h == g)) [
        | inl e ↦
            let q : h ≡ g = ground arith in
            check_held-grows s' lock_id hs g lock_id v' (
              ap (λ x. recorded (live (add_edge s x lock_id)) g lock_id) q
              ∙ add_edge-records s g lock_id v (omega (arith, room)))
        | inr e ↦ check_held-records s' lock_id hs g v' less rest (ground (arith, i, e))
      ] in
    ground (arith, n, there)

check_held-fresh :
    (s : LockdepState) (lock_id : ℕ) (hs : List ℕ)
    → holds lock_id hs ≡ false
    → (check_held s lock_id hs).0 ≢ some true
unfolding check_held holds
check_held-fresh s lock_id [] f e = ground (arith, e)
check_held-fresh s lock_id (h ∷ hs) f e =
    let ih = check_held-fresh (add_edge s h lock_id) lock_id hs in ground (arith, f, e, ih)

inverts-holds :
    (es : List LockEdge) (lock_id b : ℕ) (hs : List ℕ)
    → recorded es lock_id b ≡ true
    → holds b hs ≡ true
    → inverts es lock_id hs ≡ true
unfolding inverts holds
inverts-holds es lock_id b [] r i = ground (arith, i)
inverts-holds es lock_id b (h ∷ hs) r i = elim (Bool-cases (h == b)) [
  | inl e ↦ let q : h ≡ b = ground arith in rw q (rw r refl)
  | inr e ↦ ground (arith, inverts-holds es lock_id b hs r (ground (arith, i, e)))
]

-- A lock that is granted is recorded after every lock that the CPU held.
lockdep_acquire-records :
    (s : LockdepState) (cpu lock_id g : ℕ)
    → HasEdges s
    → passes s lock_id ≡ false
    → holds lock_id (held_by s cpu) ≡ false
    → s.edge_count + length (held_by s cpu) ≤ max_edges
    → (lockdep_acquire s cpu lock_id).0 ≡ true
    → holds g (held_by s cpu) ≡ true
    → recorded (live (lockdep_acquire s cpu lock_id).1) g lock_id ≡ true
unfolding lockdep_acquire
lockdep_acquire-records s cpu lock_id g v on fresh room ok held =
    let hs = held_by s cpu in
    let c = check_held s lock_id hs in
    let n : c.0 ≡ none = ground (arith, ok, on, check_held-fresh s lock_id hs fresh) in
    rw on (
      ap (λ es. recorded es g lock_id) (live-finish c.1 cpu lock_id c.0)
      ∙ check_held-records s lock_id hs g v room n held)

-- Let a CPU that holds `g` be granted `lock_id`, which it does not hold, while the array of edges has
-- room, and let any calls follow but `lockdep_clear`. A CPU that then holds `lock_id`, and not `g`
-- below it, is refused `g` where the check is on.
pub inversion_refused :
    (s : LockdepState) (cpu lock_id g : ℕ) (cs : List Call) (cpu' : ℕ)
    → IsValid s
    → passes s lock_id ≡ false
    → holds lock_id (held_by s cpu) ≡ false
    → s.edge_count + length (held_by s cpu) ≤ max_edges
    → (lockdep_acquire s cpu lock_id).0 ≡ true
    → holds g (held_by s cpu) ≡ true
    → keep_edges cs ≡ true
    → let t = run (lockdep_acquire s cpu lock_id).1 cs in
      passes t g ≡ false
      → holds lock_id (before g (held_by t cpu')) ≡ true
      → (lockdep_acquire t cpu' g).0 ≡ false
inversion_refused s cpu lock_id g cs cpu' v on fresh room ok held keeps on' later =
    let s' = (lockdep_acquire s cpu lock_id).1 in
    let v' = lockdep_acquire-IsValid s cpu lock_id v in
    let t = run s' cs in
    let r =
      run-grows s' cs g lock_id v' keeps
        (lockdep_acquire-records s cpu lock_id g (has_edges s v) on fresh room ok held) in
    let i = inverts-holds (live t) g lock_id (before g (held_by t cpu')) r later in
    (lockdep_acquire-inverts t cpu' g (has_edges t (run-IsValid s' cs v')) on').0 ∙ ap not i
