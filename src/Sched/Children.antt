-- ===== src/Sched/Children.antt =====
-- Adding, finding and dropping the records of dead children, crates/zenus-sched/src/scheduler.rs.
use zenus.Base.{
  ℕ, zero, suc, ◌+◌, ◌≡◌, ◌<◌, ◌==◌, leb, Bool, true, false, Option, none, some, arith, refl,
  Bool-cases, Option-cases, inl, inr, ◌⊎◌, get_or, get_or-set_self, length-set, ap,
}
use zenus.Sched.{
  ZombieList, ZombieRecord, find_any_child, find_by_child, max_zombies, push, record_at, record_is,
  scan, taken,
}
use zenus.Sched.Scan.{scan-none, scan-some}
use zenus.Sched.Zombies.{
  IsValid, one_if, take_record-IsValid, tally, tally_of, tally_of-set_ge, tally-take_record,
}

-- A new record is put behind the others, or there is no room for it.
pub push-tally :
    (test : ZombieRecord → Bool) (z : ZombieList) (rec : ZombieRecord)
    → IsValid z
    → let (kept, z') = push z rec in
      ((z.count < max_zombies)
        × (kept ≡ true)
        × (IsValid z')
        × (tally test z' ≡ tally test z + one_if (test rec)))
      ⊎ ((z.count ≡ max_zombies) × (kept ≡ false) × (z' ≡ z))
unfolding push tally tally_of
push-tally test z rec v = elim (Bool-cases (leb max_zombies z.count)) [
  | inl b ↦ rw b (inr (ground (arith, b, v.room), refl, refl))
  | inr b ↦
      let l : z.count < max_zombies = ground (arith, b) in
      rw b (
        inl (
          l,
          refl,
          record {
            size = omega (arith, v.size, length-set z.records z.count (some rec));
            room = omega (arith, l);
          },
          ground (
            arith,
            get_or-set_self z.records z.count (some rec) none (omega (arith, l, v.size)),
            tally_of-set_ge test z.records z.count z.count (some rec) (omega arith),
          ),
        ))
]

module _ (test : ZombieRecord → Bool) where
  tally_of_empty :
      (z : ZombieList) (n : ℕ)
      → ((i : ℕ) → i < n → record_at test z i ≡ false)
      → tally_of test z.records n ≡ 0
  unfolding tally_of record_at
  tally_of_empty z zero h = refl
  tally_of_empty z (suc n) h =
      ground (arith, h n (omega arith), tally_of_empty z n (λ i l. h i (omega (arith, l))))

  passing_record :
      (o : Option ZombieRecord)
      → record_is test o ≡ true
      → (rec : ZombieRecord) × (o ≡ some rec) × (test rec ≡ true)
  passing_record none h = ground (arith, h)
  passing_record (some rec) h = (rec, refl, h)

  -- What a search for a record that passes finds and leaves.
  taken-tally :
      (z : ZombieList) (other : ZombieRecord → Bool)
      → IsValid z
      → let (o, z') = taken z (scan (record_at test z) 0 z.count) in
        ((rec : ZombieRecord) × (o ≡ some rec)
          × (test rec ≡ true)
          × (tally other z' + one_if (other rec) ≡ tally other z)
          × (IsValid z'))
        ⊎ ((o ≡ none) × (z' ≡ z) × (tally test z ≡ 0))
  unfolding taken tally record_at
  taken-tally z other v = elim (Option-cases (scan (record_at test z) 0 z.count)) [
    | inl e ↦ rw e (
        inr (
          refl,
          refl,
          tally_of_empty z z.count
              (λ i l. scan-none (record_at test z) 0 z.count i e (omega arith) (omega (arith, l))),
        ))
    | inr (i, e) ↦
        let (_, l, t) = scan-some (record_at test z) 0 z.count i e in
        let (rec, s, p) = passing_record (get_or z.records i none) t in
        let at : record_at other z i ≡ other rec = rw s refl in
        rw e (
          inl (
            rec,
            s,
            p,
            omega (arith, tally-take_record other z i v (omega (arith, l)), ap one_if at),
            take_record-IsValid z i v,
          ))
  ]

-- A parent that asks for any child gets a record of one of its own, which is the one record that is taken
-- out of the bag; or it gets none, nothing is taken, and there is no record of a child of its.
pub find_any_child-tally :
    (z : ZombieList) (parent_pid : ℕ) (other : ZombieRecord → Bool)
    → IsValid z
    → let (o, z') = find_any_child z parent_pid in
      ((rec : ZombieRecord) × (o ≡ some rec)
        × ((rec.parent_pid == parent_pid) ≡ true)
        × (tally other z' + one_if (other rec) ≡ tally other z)
        × (IsValid z'))
      ⊎ ((o ≡ none) × (z' ≡ z) × (tally (λ rec. rec.parent_pid == parent_pid) z ≡ 0))
unfolding find_any_child
find_any_child-tally z parent_pid other v =
    taken-tally (λ rec. rec.parent_pid == parent_pid) z other v

pub find_by_child-tally :
    (z : ZombieList) (child_pid : ℕ) (other : ZombieRecord → Bool)
    → IsValid z
    → let (o, z') = find_by_child z child_pid in
      ((rec : ZombieRecord) × (o ≡ some rec)
        × ((rec.child_pid == child_pid) ≡ true)
        × (tally other z' + one_if (other rec) ≡ tally other z)
        × (IsValid z'))
      ⊎ ((o ≡ none) × (z' ≡ z) × (tally (λ rec. rec.child_pid == child_pid) z ≡ 0))
unfolding find_by_child
find_by_child-tally z child_pid other v = taken-tally (λ rec. rec.child_pid == child_pid) z other v
