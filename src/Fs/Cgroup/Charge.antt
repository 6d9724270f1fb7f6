-- ===== src/Fs/Cgroup/Charge.antt =====
-- The memory limit of a group, `charge` of crates/zenus-fs/src/cgroup.rs.
use zenus.Base.{
  ℕ, ◌+◌, ◌%◌, ◌^◌, ◌≡◌, ◌≢◌, ◌≤◌, ◌<◌, ◌==◌, if◌then◌else◌, Bool, true, false, Option, none, some,
  List, [], ◌∷◌, arith, refl, sym, ◌∙◌, ap, Bool-cases, ◌⊎◌, inl, inr, saturating_add64,
}
use zenus.Fs.Cgroup.{
  Cgroup, CgroupTable, Member, cgroup_root, cgroup_unlimited, charged_sum, find_group,
  memory_current, memory_max, with_group,
}
use zenus.Fs.Cgroup.Tasks.{
  charge, charge_in, group_of_task, group_with_task, has_task, with_charge, with_members, within,
}
use zenus.Fs.Cgroup.Count.{IsValid, charges, id_count}
use zenus.Fs.Cgroup.Move.{table_charges}

module _ (f : Cgroup → Cgroup) (same_id : (g : Cgroup) → (f g).id ≡ g.id) where
  find_group-with_group :
      (gs : List Cgroup) (id : ℕ) (g : Cgroup)
      → find_group gs id ≡ some g
      → find_group (with_group f gs id) id ≡ some (f g)
  unfolding find_group with_group
  find_group-with_group [] id g e = ground (arith, e)
  find_group-with_group (h ∷ gs) id g e =
      ground (arith, e, same_id h, find_group-with_group gs id g)

charges_at :
    (f : Cgroup → Cgroup) (gs : List Cgroup) (id c : ℕ) (g : Cgroup)
    → find_group gs id ≡ some g
    → charged_sum (f g).members ≡ charged_sum g.members + c
    → charges (with_group f gs id) ≡ charges gs + c
unfolding find_group with_group charges
charges_at f [] id c g e h = ground (arith, e)
charges_at f (k ∷ gs) id c g e h = ground (arith, e, h, charges_at f gs id c g)

charged_sum-with_charge :
    (ms : List Member) (task bytes : ℕ)
    → has_task ms task ≡ true
    → charged_sum ms + bytes < 2 ^ 64
    → charged_sum (with_charge (λ c. saturating_add64 c bytes) ms task) ≡ charged_sum ms + bytes
unfolding has_task charged_sum with_charge
charged_sum-with_charge [] task bytes h b = ground (arith, h)
charged_sum-with_charge (m ∷ ms) task bytes h b =
    ground (arith, h, b, charged_sum-with_charge ms task bytes)

group_with_task-id_count :
    (gs : List Cgroup) (task gid : ℕ) → group_with_task gs task ≡ some gid → 0 < id_count gs gid
unfolding group_with_task id_count
group_with_task-id_count [] task gid e = ground (arith, e)
group_with_task-id_count (g ∷ gs) task gid e =
    ground (arith, e, group_with_task-id_count gs task gid)

-- Where an id is that of one group at most, the group a task is found in has the task.
holder :
    (gs : List Cgroup) (task gid : ℕ) (g : Cgroup)
    → group_with_task gs task ≡ some gid
    → find_group gs gid ≡ some g
    → id_count gs gid ≤ 1
    → has_task g.members task ≡ true
unfolding group_with_task find_group id_count
holder [] task gid g e f u = ground (arith, e)
holder (k ∷ gs) task gid g e f u =
    ground (arith, e, f, u, group_with_task-id_count gs task gid, holder gs task gid g)

-- A limit other than that of the root belongs to a group of the list.
group_limit :
    (o : Option Cgroup) (limit : ℕ)
    → elim o [ none ↦ none | some g ↦ some g.memory_max ] ≡ some limit
    → (g : Cgroup) × (o ≡ some g)
group_limit none limit e = ground (arith, e)
group_limit (some g) limit e = (g, refl)

limited_group :
    (t : CgroupTable) (gid limit : ℕ)
    → memory_max t gid ≡ some limit
    → limit ≢ cgroup_unlimited
    → ((gid == cgroup_root) ≡ false) × ((g : Cgroup) × (find_group t.groups gid ≡ some g))
unfolding memory_max
limited_group t gid limit m n = elim (Bool-cases (gid == cgroup_root)) [
  | inl r ↦ ground (arith, r, m, n)
  | inr r ↦ (r, group_limit (find_group t.groups gid) limit (ground (arith, r, m)))
]

memory_current_group :
    (t : CgroupTable) (gid : ℕ) (g : Cgroup)
    → (gid == cgroup_root) ≡ false
    → find_group t.groups gid ≡ some g
    → memory_current t gid ≡ charged_sum g.members % 2 ^ 64
unfolding memory_current
memory_current_group t gid g r f = rw r (rw f refl)

-- The group of a task has it, and is no other group.
has_task-group_of_task :
    (t : CgroupTable) (task gid : ℕ) (g : Cgroup)
    → IsValid t
    → group_of_task t task ≡ some gid
    → (gid == cgroup_root) ≡ false
    → find_group t.groups gid ≡ some g
    → has_task g.members task ≡ true
unfolding group_of_task
has_task-group_of_task t task gid g v m r f =
    holder t.groups task gid g (ground (arith, m, r)) f (v.ids gid)

-- What a granted charge is.
charged_table : CgroupTable → ℕ → ℕ → ℕ → CgroupTable
unfolding with_members with_charge
charged_table t gid task bytes =
    with_members (λ ms. with_charge (λ c. saturating_add64 c bytes) ms task) t gid

charged_table-memory_current :
    (t : CgroupTable) (gid task bytes : ℕ) (g : Cgroup)
    → (gid == cgroup_root) ≡ false
    → find_group t.groups gid ≡ some g
    → has_task g.members task ≡ true
    → charged_sum g.members + bytes < 2 ^ 64
    → (memory_current (charged_table t gid task bytes) gid ≡ charged_sum g.members + bytes)
      × (table_charges (charged_table t gid task bytes) ≡ table_charges t + bytes)
unfolding charged_table with_members table_charges
charged_table-memory_current t gid task bytes g r f h b =
    let change = λ (k : Cgroup). record k {
      members = with_charge (λ c. saturating_add64 c bytes) k.members task;
    } in
    let s = charged_sum-with_charge g.members task bytes h b in
    let t' = record t { groups = with_group change t.groups gid } in
    let m =
      memory_current_group t' gid (change g) r
        (find_group-with_group change (λ k. refl) t.groups gid g f) in
    (
      rw r (ground (arith, m, s, b)),
      rw r (ground (arith, charges_at change t.groups gid bytes g f s)),
    )

charged_sum-charges :
    (gs : List Cgroup) (gid : ℕ) (g : Cgroup)
    → find_group gs gid ≡ some g
    → charged_sum g.members ≤ charges gs
unfolding find_group charges
charged_sum-charges [] gid g f = ground (arith, f)
charged_sum-charges (k ∷ gs) gid g f = ground (arith, f, charged_sum-charges gs gid g)

-- The test of a limit that is a limit.
within-≤ :
    (limit s bytes : ℕ)
    → limit ≢ cgroup_unlimited
    → limit < 2 ^ 64
    → ((within limit s bytes ≡ true) × (s + bytes ≤ limit))
      ⊎ ((within limit s bytes ≡ false) × (limit < s + bytes))
within-≤ limit s bytes n b = ground (arith, n, b)

charge-charged_table :
    (t : CgroupTable) (task bytes gid limit : ℕ) (b : Bool)
    → group_of_task t task ≡ some gid
    → memory_max t gid ≡ some limit
    → within limit (memory_current t gid) bytes ≡ b
    → charge t task bytes ≡ (if b then (true, charged_table t gid task bytes) else (false, t))
unfolding charge charge_in charged_table
charge-charged_table t task bytes gid limit b o m w = rw o (rw m (rw w refl))

-- On a valid table whose charges fit 64 bits, and for a task of a group with a limit: a charge that would
-- pass the limit is refused and changes nothing, and any other is granted, is what the group's memory
-- grows by, leaves it within the limit, and is what the charges of the whole table grow by.
pub charge_limited :
    (t : CgroupTable) (task bytes gid limit : ℕ)
    → IsValid t
    → table_charges t < 2 ^ 64
    → group_of_task t task ≡ some gid
    → memory_max t gid ≡ some limit
    → limit ≢ cgroup_unlimited
    → limit < 2 ^ 64
    → let s = memory_current t gid in
      let (granted, t') = charge t task bytes in
      ((limit < s + bytes) × (granted ≡ false) × (t' ≡ t))
      ⊎ ((s + bytes ≤ limit)
          × (granted ≡ true)
          × (memory_current t' gid ≡ s + bytes)
          × (table_charges t' ≡ table_charges t + bytes))
unfolding table_charges
charge_limited t task bytes gid limit v small o m n b =
    let (r, (g, f)) = limited_group t gid limit m n in
    let h = has_task-group_of_task t task gid g v o r f in
    let s = memory_current_group t gid g r f in
    let fits = charged_sum-charges t.groups gid g f in
    let s' : memory_current t gid ≡ charged_sum g.members = ground (arith, s, fits, small) in
    elim (within-≤ limit (memory_current t gid) bytes n b) [
      | inr (w, l) ↦
          let e = charge-charged_table t task bytes gid limit false o m w in
          inl (l, ap (λ p. p.0) e, ap (λ p. p.1) e)
      | inl (w, l) ↦
          let e = charge-charged_table t task bytes gid limit true o m w in
          let (cur, tot) =
            charged_table-memory_current t gid task bytes g r f h (ground (arith, s', l, b)) in
          inr (
            l,
            ap (λ p. p.0) e,
            ap (λ p. memory_current p.1 gid) e ∙ cur ∙ ap (λ c. c + bytes) (sym s'),
            ap (λ p. table_charges p.1) e ∙ tot,
          )
    ]
