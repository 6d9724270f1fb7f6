-- ===== src/Sched/Zombies.antt =====
-- The records of dead children, `ZombieList` of crates/zenus-sched/src/scheduler.rs: which are there, whatever
-- their order.
use zenus.Base.{
  ℕ, zero, suc, ◌+◌, ◌-◌, ◌≡◌, ◌≤◌, ◌<◌, ◌==◌, Bool, true, false, Option, none, List, arith, refl,
  Bool-cases, inl, inr, get_or, set, length, get_or-set_self, get_or-set_ne, length-set, subst,
}
use zenus.Sched.{ZombieList, ZombieRecord, max_zombies, record_at, record_is, swap, take_record}

abbrev pub one_if : Bool → ℕ
one_if true = 1
one_if false = 0

-- How many of the first `n` records pass.
unfoldable pub tally_of : (ZombieRecord → Bool) → List (Option ZombieRecord) → ℕ → ℕ
tally_of test records zero = 0
tally_of test records (suc n) =
    one_if (record_is test (get_or records n none)) + tally_of test records n

-- How many records of the list pass: the list as a bag.
unfoldable pub tally : (ZombieRecord → Bool) → ZombieList → ℕ
unfolding tally_of
tally test z = tally_of test z.records z.count

pub record IsValid (z : ZombieList) : Type 0 where
  pub size : length z.records ≡ max_zombies
  pub room : z.count ≤ max_zombies

module _ (test : ZombieRecord → Bool) (records : List (Option ZombieRecord)) where
  pub tally_of-set_ge :
      (n i : ℕ) (v : Option ZombieRecord)
      → n ≤ i
      → tally_of test (set records i v) n ≡ tally_of test records n
  unfolding tally_of
  tally_of-set_ge zero i v h = refl
  tally_of-set_ge (suc n) i v h =
      rw (get_or-set_ne records i n v none (omega (arith, h)))
        (omega (arith, tally_of-set_ge n i v (omega (arith, h))))

  tally_of-set_lt :
      (n i : ℕ) (v : Option ZombieRecord)
      → i < n
      → n ≤ length records
      → tally_of test (set records i v) n + one_if (record_is test (get_or records i none))
        ≡ tally_of test records n + one_if (record_is test v)
  unfolding tally_of
  tally_of-set_lt zero i v h b = absurd (omega (arith, h))
  tally_of-set_lt (suc n) i v h b = elim (Bool-cases (i == n)) [
    | inl e ↦
        let same : n ≡ i = ground (arith, e) in
        rw same (
          rw (get_or-set_self records i v none (omega (arith, b, same)))
            (omega (arith, tally_of-set_ge i i v (omega arith))))
    | inr e ↦
        rw (get_or-set_ne records i n v none (ground (arith, e)))
          (omega (arith, tally_of-set_lt n i v (ground (arith, e, h)) (omega (arith, b))))
  ]

-- Taking a record out takes it, once, and nothing else.
tally-take_record_last :
    (test : ZombieRecord → Bool) (z : ZombieList) (n : ℕ)
    → z.count ≡ suc n
    → tally test (take_record z n) + one_if (record_at test z n) ≡ tally test z
unfolding tally tally_of take_record record_at
tally-take_record_last test z n c =
    rw c (ground (arith, tally_of-set_ge test z.records n n none (omega arith)))

tally-take_record_inner :
    (test : ZombieRecord → Bool) (z : ZombieList) (i n : ℕ)
    → IsValid z
    → z.count ≡ suc n
    → i < n
    → tally test (take_record z i) + one_if (record_at test z i) ≡ tally test z
unfolding tally tally_of take_record record_at swap
tally-take_record_inner test z i n v c l =
    let r = set z.records i none in
    let w = get_or r n none in
    let len = length-set z.records i none in
    rw c (
      ground (
        arith,
        l,
        c,
        v.size,
        v.room,
        len,
        tally_of-set_ge test (set r i w) n n (get_or r i none) (omega arith),
        tally_of-set_lt test r n i w l (omega (arith, len, v.size, v.room, c)),
        tally_of-set_lt test z.records n i none l (omega (arith, v.size, v.room, c)),
        get_or-set_self z.records i none none (omega (arith, l, v.size, v.room, c)),
        get_or-set_ne z.records i n none none (omega (arith, l)),
      ))

pub tally-take_record :
    (test : ZombieRecord → Bool) (z : ZombieList) (i : ℕ)
    → IsValid z
    → i < z.count
    → tally test (take_record z i) + one_if (record_at test z i) ≡ tally test z
tally-take_record test z i v l =
    let n = z.count - 1 in
    let c : z.count ≡ suc n = omega (arith, l) in
    elim (Bool-cases (i == n)) [
      | inl e ↦
          let same : n ≡ i = ground (arith, e) in
          subst (λ k. tally test (take_record z k) + one_if (record_at test z k) ≡ tally test z)
            same (tally-take_record_last test z n c)
      | inr e ↦ tally-take_record_inner test z i n v c (ground (arith, e, c, l))
    ]

pub take_record-IsValid : (z : ZombieList) (i : ℕ) → IsValid z → IsValid (take_record z i)
unfolding take_record swap
take_record-IsValid z i v = record {
  size = ground (
    arith,
    v.size,
    length-set z.records i none,
    length-set (set z.records i none) i (get_or (set z.records i none) (z.count - 1) none),
    length-set (set (set z.records i none) i (get_or (set z.records i none) (z.count - 1) none))
        (z.count - 1) (get_or (set z.records i none) i none),
  );
  room = omega (arith, v.room);
}
