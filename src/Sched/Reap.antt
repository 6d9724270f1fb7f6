-- ===== src/Sched/Reap.antt =====
-- Dropping every record of a parent's children, `reap_all_for_parent` of crates/zenus-sched/src/scheduler.rs.
use zenus.Base.{
  ℕ, zero, suc, ◌+◌, ◌-◌, ◌≡◌, ◌≤◌, ◌<◌, ◌==◌, ltb, Bool, true, false, not, ◌&&◌, Option, none,
  some, List, arith, refl, Bool-cases, inl, inr, get_or, set, ap, ◌∙◌,
}
use zenus.Sched.{
  ZombieList, ZombieRecord, reap_all_for_parent, reap_from, record_at, record_is, swap, take_record,
}
use zenus.Sched.Zombies.{
  IsValid, one_if, take_record-IsValid, tally, tally_of, tally_of-set_ge, tally-take_record,
}

-- The records that pass one test and not another.
abbrev pub without : (ZombieRecord → Bool) → (ZombieRecord → Bool) → ZombieRecord → Bool
without other test rec = other rec && not (test rec)

module _ (other test : ZombieRecord → Bool) where
  slot_without :
      (o : Option ZombieRecord) (a b c : ℕ)
      → one_if (record_is test o) + a ≡ 0
      → (a ≡ 0 → b ≡ c)
      → one_if (record_is other o) + b ≡ one_if (record_is (without other test) o) + c
  slot_without none a b c h e = omega (arith, e (omega (arith, h)))
  slot_without (some rec) a b c h e = ground (arith, h, e)

  tally_of-without :
      (records : List (Option ZombieRecord)) (n : ℕ)
      → tally_of test records n ≡ 0
      → tally_of other records n ≡ tally_of (without other test) records n
  unfolding tally_of
  tally_of-without records zero h = refl
  tally_of-without records (suc n) h =
      slot_without (get_or records n none) (tally_of test records n) (tally_of other records n)
        (tally_of (without other test) records n) h (λ e. tally_of-without records n e)

  record_at-without :
      (z : ZombieList) (i : ℕ)
      → record_at test z i ≡ true
      → record_at (without other test) z i ≡ false
  unfolding record_at
  record_at-without z i h = one_slot (get_or z.records i none) h
    where
      one_slot :
          (o : Option ZombieRecord)
          → record_is test o ≡ true
          → record_is (without other test) o ≡ false
      one_slot none h = refl
      one_slot (some rec) h = ground (arith, h)

  -- The records before the one that is taken out stay.
  tally_of-take_record :
      (z : ZombieList) (i : ℕ)
      → tally_of test (take_record z i).records i ≡ tally_of test z.records i
  unfolding take_record swap
  tally_of-take_record z i =
      let r = set z.records i none in
      let n = z.count - 1 in
      let first = tally_of-set_ge test z.records i i none (omega arith) in
      let second = tally_of-set_ge test r i i (get_or r n none) (omega arith) in
      elim (Bool-cases (ltb i n)) [
        | inl b ↦ rw b (
            tally_of-set_ge test (set r i (get_or r n none)) i n (get_or r i none)
              (ground (arith, b))
            ∙ second
            ∙ first)
        | inr b ↦ rw b first
      ]

  step_zero :
      (z : ZombieList) (i : ℕ)
      → record_at test z i ≡ false
      → tally_of test z.records i ≡ 0
      → tally_of test z.records (i + 1) ≡ 0
  unfolding tally_of record_at
  step_zero z i t p = ground (arith, t, p)

  take_count :
      (z : ZombieList) (i : ℕ) (rounds : ℕ)
      → i < z.count
      → z.count ≤ i + suc rounds
      → (take_record z i).count ≤ i + rounds
  unfolding take_record
  take_count z i rounds l e = omega (arith, l, e)

  take_count_ge : (z : ZombieList) (i : ℕ) → i < z.count → i ≤ (take_record z i).count
  unfolding take_record
  take_count_ge z i l = omega (arith, l)

  reap_from-tally :
      (rounds : ℕ) (z : ZombieList) (i : ℕ)
      → IsValid z
      → z.count ≤ i + rounds
      → tally_of test z.records i ≡ 0
      → i ≤ z.count
      → let z' = reap_from test rounds z i in
        (tally other z' ≡ tally (without other test) z) × (IsValid z')
  unfolding reap_from tally
  reap_from-tally zero z i v e p l =
      let same : i ≡ z.count = omega (arith, e, l) in
      (tally_of-without z.records z.count (rw⁻¹ same p), v)
  reap_from-tally (suc rounds) z i v e p l = elim (Bool-cases (ltb i z.count)) [
    | inr b ↦
        let same : i ≡ z.count = ground (arith, b, l) in
        rw b (tally_of-without z.records z.count (rw⁻¹ same p), v)
    | inl b ↦ elim (Bool-cases (record_at test z i)) [
      | inr t ↦ rw b (
          rw t (
            reap_from-tally rounds z (i + 1) v (omega (arith, e)) (step_zero z i t p)
              (ground (arith, b))))
      | inl t ↦
          let (a, v') =
            reap_from-tally rounds (take_record z i) i (take_record-IsValid z i v)
              (take_count z i rounds (ground (arith, b)) e) (tally_of-take_record z i ∙ p)
              (take_count_ge z i (ground (arith, b))) in
          rw b (
            rw t (
              omega (
                arith,
                a,
                tally-take_record (without other test) z i v (ground (arith, b)),
                ap one_if (record_at-without z i t),
              ),
              v',
            ))
    ]
  ]

-- After it no record of a child of the parent is left, and of every other record as many as before.
pub reap_all_for_parent-tally :
    (z : ZombieList) (parent_pid : ℕ) (other : ZombieRecord → Bool)
    → IsValid z
    → let z' = reap_all_for_parent z parent_pid in
      (tally other z' ≡ tally (without other (λ rec. rec.parent_pid == parent_pid)) z)
      × (IsValid z')
unfolding reap_all_for_parent tally_of
reap_all_for_parent-tally z parent_pid other v =
    reap_from-tally other (λ rec. rec.parent_pid == parent_pid) z.count z 0 v (omega arith) refl
      (omega arith)
