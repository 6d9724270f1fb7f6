-- ===== src/Sync/Lockdep/Status.antt =====
-- What `lockdep_status` of crates/zenus-sync/src/lockdep.rs copies, and when its index is out of range.
use mathlib.Core.List.{append_assoc}
use zenus.Base.{
  ℕ, zero, suc, ◌+◌, ◌-◌, ◌≡◌, ◌≤◌, ◌<◌, true, none, some, List, [], ◌∷◌, ◌++◌, length, set, get_or,
  take, drop, replicate, if◌then◌else◌, ltb, leb, arith, refl, sym, ◌∙◌, ap, inl, inr, Bool-cases,
  length-append, length-set, length-replicate,
}
use zenus.Sync.Lockdep.{
  LockEdge, LockdepSnapshot, LockdepState, Name, copy_edges, copy_names, lockdep_status, max_edges,
  max_locks, no_edge,
}
use zenus.Sync.Lockdep.Bounds.{IsValid}

module _ {ℓ} {A : Type ℓ} where
  set-append :
      (xs ys : List A) (i : ℕ) (y z : A)
      → length xs ≡ i
      → set (xs ++ (y ∷ ys)) i z ≡ (xs ++ (z ∷ [])) ++ ys
  set-append [] ys zero y z h = refl
  set-append [] ys (suc i) y z h = absurd (omega (arith, h))
  set-append (x ∷ xs) ys zero y z h = absurd (omega (arith, h))
  set-append (x ∷ xs) ys (suc i) y z h = ap (λ l. x ∷ l) (set-append xs ys i y z (omega (arith, h)))

  get_or-append :
      (xs ys : List A) (i : ℕ) (y d : A) → length xs ≡ i → get_or (xs ++ (y ∷ ys)) i d ≡ y
  get_or-append [] ys zero y d h = refl
  get_or-append [] ys (suc i) y d h = absurd (omega (arith, h))
  get_or-append (x ∷ xs) ys zero y d h = absurd (omega (arith, h))
  get_or-append (x ∷ xs) ys (suc i) y d h = get_or-append xs ys i y d (omega (arith, h))

copy_names-fills :
    (n i : ℕ) (a f pre mid : List Name)
    → length a ≡ i
    → length pre ≡ i + 1
    → n ≤ length f
    → n ≤ length mid
    → copy_names n i (a ++ f) (pre ++ mid) ≡ some (pre ++ (take n f ++ drop n mid))
unfolding copy_names
copy_names-fills zero i a f pre mid ha hp hf hm = refl
copy_names-fills (suc n) i a [] pre mid ha hp hf hm = absurd (omega (arith, hf))
copy_names-fills (suc n) i a (x ∷ f) pre [] ha hp hf hm = absurd (omega (arith, hm))
copy_names-fills (suc n) i a (x ∷ f) pre (m ∷ mid) ha hp hf hm =
    let room : ltb (i + 1) (length (pre ++ (m ∷ mid))) ≡ true =
      ground (arith, length-append pre (m ∷ mid), hp) in
    let ih =
      copy_names-fills n (i + 1) (a ++ (x ∷ [])) f (pre ++ (x ∷ [])) mid
        (omega (arith, length-append a (x ∷ []), ha))
        (omega (arith, length-append pre (x ∷ []), hp)) (omega (arith, hf)) (omega (arith, hm)) in
    rw
      (
        copy_names,
        room,
        get_or-append a f i x [] ha,
        set-append pre mid (i + 1) m x hp,
        sym (append_assoc a (x ∷ []) f),
      )
      (ih ∙ ap some (append_assoc pre (x ∷ []) (take n f ++ drop n mid)))

copy_names_panics :
    (n i : ℕ) (from to : List Name) → 0 < n → length to ≤ i + n → copy_names n i from to ≡ none
unfolding copy_names
copy_names_panics zero i from to pos h = absurd (omega (arith, pos))
copy_names_panics (suc n) i from to pos h = elim (Bool-cases (ltb (i + 1) (length to))) [
  | inr e ↦ rw (copy_names, e) refl
  | inl e ↦
      let x = get_or from i [] in
      rw (copy_names, e)
        (copy_names_panics n (i + 1) from (set to (i + 1) x) (ground arith)
          (ground (arith, length-set to (i + 1) x)))
]

copy_edges-fills :
    (n i : ℕ) (a f pre mid : List LockEdge)
    → length a ≡ i
    → length pre ≡ i
    → n ≤ length f
    → n ≤ length mid
    → copy_edges n i (a ++ f) (pre ++ mid) ≡ pre ++ (take n f ++ drop n mid)
unfolding copy_edges
copy_edges-fills zero i a f pre mid ha hp hf hm = refl
copy_edges-fills (suc n) i a [] pre mid ha hp hf hm = absurd (omega (arith, hf))
copy_edges-fills (suc n) i a (x ∷ f) pre [] ha hp hf hm = absurd (omega (arith, hm))
copy_edges-fills (suc n) i a (x ∷ f) pre (m ∷ mid) ha hp hf hm =
    let ih =
      copy_edges-fills n (i + 1) (a ++ (x ∷ [])) f (pre ++ (x ∷ [])) mid
        (omega (arith, length-append a (x ∷ []), ha))
        (omega (arith, length-append pre (x ∷ []), hp)) (omega (arith, hf)) (omega (arith, hm)) in
    rw
      (
        get_or-append a f i x no_edge ha,
        set-append pre mid i m x hp,
        sym (append_assoc a (x ∷ []) f),
      )
      (ih ∙ append_assoc pre (x ∷ []) (take n f ++ drop n mid))

-- The names stand at the ids of their classes, slot 0 is empty; what is not in use is blank.
unfoldable pub snapshot_of : LockdepState → LockdepSnapshot
snapshot_of s = record {
  violations = s.violations;
  class_count = s.class_count;
  edge_count = s.edge_count;
  classes =
      [] ∷ (take s.class_count s.classes ++ drop s.class_count (replicate (max_locks - 1) []));
  edges = take s.edge_count s.edges ++ drop s.edge_count (replicate max_edges no_edge);
}

-- On a valid state `lockdep_status` copies the names and the edges that are in use, unless all 64
-- classes are taken: its index of the last name is then past the end of the array, a panic.
pub lockdep_status-Copied :
    (s : LockdepState)
    → IsValid s
    → lockdep_status s ≡ (if leb max_locks s.class_count then none else some (snapshot_of s))
unfolding lockdep_status snapshot_of
lockdep_status-Copied s v =
    let blank : List Name = replicate max_locks [] in
    elim (Bool-cases (leb max_locks s.class_count)) [
      | inl e ↦
          rw
            (
              lockdep_status,
              e,
              copy_names_panics s.class_count 0 s.classes blank (ground arith)
                  (ground (arith, length-replicate {A = Name} max_locks [])),
            )
            refl
      | inr e ↦
          let rest : List Name = replicate (max_locks - 1) [] in
          rw
            (
              lockdep_status,
              e,
              copy_names-fills s.class_count 0 [] s.classes ([] ∷ []) rest refl refl
                  (omega (arith, v.classes_fit, v.class_slots))
                  (ground (arith, length-replicate {A = Name} (max_locks - 1) [])),
              copy_edges-fills s.edge_count 0 [] s.edges [] (replicate max_edges no_edge) refl refl
                  (omega (arith, v.edges_fit, v.edge_slots))
                  (ground (arith, v.edges_fit, length-replicate max_edges no_edge)),
            )
            refl
    ]
