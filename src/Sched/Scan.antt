-- ===== src/Sched/Scan.antt =====
-- What a loop that returns at the first index that passes finds, crates/zenus-sched/src/scheduler.rs.
use zenus.Base.{
  ℕ, zero, suc, ◌+◌, ◌≡◌, ◌≤◌, ◌<◌, Bool, true, false, none, some, arith, refl, Bool-cases, inl,
  inr, ◌⊎◌,
}
use zenus.Sched.{scan}

module _ (test : ℕ → Bool) where
  -- Nothing is found where nothing passes.
  pub scan-none :
      (idx rounds k : ℕ) → scan test idx rounds ≡ none → idx ≤ k → k < idx + rounds → test k ≡ false
  unfolding scan
  scan-none idx zero k e l u = ground (arith, l, u)
  scan-none idx (suc rounds) k e l u = elim (Bool-cases (test idx)) [
    | inl t ↦ ground (arith, t, e)
    | inr t ↦
        let rest : scan test (suc idx) rounds ≡ none = ground (arith, t, e) in
        elim (at_or_after idx k l) [
          | inl same ↦ rw⁻¹ same t
          | inr after ↦ scan-none (suc idx) rounds k rest after (omega (arith, u))
        ]
  ]
    where
      at_or_after : (i j : ℕ) → i ≤ j → (i ≡ j) ⊎ (suc i ≤ j)
      at_or_after i j h = ground (arith, h)

  -- What is found is in range, passes, and nothing before it does.
  pub scan-some :
      (idx rounds i : ℕ)
      → scan test idx rounds ≡ some i
      → (idx ≤ i) × (i < idx + rounds) × (test i ≡ true)
  unfolding scan
  scan-some idx zero i e = ground (arith, e)
  scan-some idx (suc rounds) i e = elim (Bool-cases (test idx)) [
    | inl t ↦
        let same : idx ≡ i = ground (arith, t, e) in
        (omega (arith, same), omega (arith, same), rw⁻¹ same t)
    | inr t ↦
        let (l, u, p) = scan-some (suc idx) rounds i (ground (arith, t, e)) in
        (omega (arith, l), omega (arith, u), p)
  ]

  -- A loop that meets an index which passes returns one no later.
  pub scan_finds :
      (idx rounds k : ℕ)
      → idx ≤ k
      → k < idx + rounds
      → test k ≡ true
      → (i : ℕ) × (scan test idx rounds ≡ some i) × (i ≤ k)
  unfolding scan
  scan_finds idx zero k l u t = ground (arith, l, u)
  scan_finds idx (suc rounds) k l u t = elim (Bool-cases (test idx)) [
    | inl p ↦ (idx, (rw p refl), l)
    | inr p ↦
        let (i, e, b) =
          scan_finds (suc idx) rounds k (ground (arith, p, t, l, same_test idx k))
            (omega (arith, u)) t in
        (i, (rw p e), b)
  ]
    where
      same_test : (i j : ℕ) → i ≡ j → test i ≡ test j
      same_test i j e = rw e refl
