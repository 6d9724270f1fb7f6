-- ===== src/Fs/Cgroup/Count.antt =====
-- How often a task stands in the lists of crates/zenus-fs/src/cgroup.rs, and what is charged in all.
use zenus.Base.{
  ℕ, ◌+◌, ◌≡◌, ◌≤◌, ◌<◌, ◌==◌, if◌then◌else◌, Bool, true, false, ◌&&◌, not, List, [], ◌∷◌, ◌++◌,
  length, arith, refl,
}
use zenus.Fs.Cgroup.{Cgroup, CgroupTable, Member, charged_sum, find_group, is_some, with_group}
use zenus.Fs.Cgroup.Tasks.{
  charge_of, detach_from, group_with_task, has_task, remove_task, with_charge,
}

abbrev pub one_if : Bool → ℕ
one_if true = 1
one_if false = 0

pub count_of : List Member → ℕ → ℕ
count_of [] task = 0
count_of (m ∷ ms) task = one_if (m.task == task) + count_of ms task

unfoldable pub places : List Cgroup → ℕ → ℕ
unfolding count_of
places [] task = 0
places (g ∷ gs) task = count_of g.members task + places gs task

unfoldable pub id_count : List Cgroup → ℕ → ℕ
id_count [] id = 0
id_count (g ∷ gs) id = one_if (g.id == id) + id_count gs id

unfoldable pub charges : List Cgroup → ℕ
unfolding charged_sum
charges [] = 0
charges (g ∷ gs) = charged_sum g.members + charges gs

pub has_task-count_of :
    (ms : List Member) (task : ℕ) → has_task ms task ≡ not (count_of ms task == 0)
unfolding has_task count_of
has_task-count_of [] task = refl
has_task-count_of (m ∷ ms) task = ground (arith, has_task-count_of ms task)

pub count_of-remove_task :
    (ms : List Member) (task x : ℕ)
    → count_of (remove_task ms task) x + one_if (has_task ms task && task == x) ≡ count_of ms x
unfolding has_task count_of remove_task
count_of-remove_task [] task x = refl
count_of-remove_task (m ∷ ms) task x = ground (arith, count_of-remove_task ms task x)

pub count_of-with_charge :
    (f : ℕ → ℕ) (ms : List Member) (task x : ℕ) → count_of (with_charge f ms task) x ≡ count_of ms x
unfolding count_of with_charge
count_of-with_charge f [] task x = refl
count_of-with_charge f (m ∷ ms) task x = ground (arith, count_of-with_charge f ms task x)

pub count_of_last :
    (ms : List Member) (m : Member) (x : ℕ)
    → count_of (ms ++ (m ∷ [])) x ≡ count_of ms x + one_if (m.task == x)
unfolding count_of
count_of_last [] m x = omega arith
count_of_last (n ∷ ms) m x = omega (arith, count_of_last ms m x)

pub charged_sum_last :
    (ms : List Member) (m : Member) → charged_sum (ms ++ (m ∷ [])) ≡ charged_sum ms + m.charged
unfolding charged_sum
charged_sum_last [] m = omega arith
charged_sum_last (n ∷ ms) m = omega (arith, charged_sum_last ms m)

pub charged_sum-remove_task :
    (ms : List Member) (task : ℕ)
    → charged_sum (remove_task ms task) + charge_of ms task ≡ charged_sum ms
unfolding charged_sum remove_task charge_of
charged_sum-remove_task [] task = refl
charged_sum-remove_task (m ∷ ms) task = ground (arith, charged_sum-remove_task ms task)

-- A change of one group that adds `e` to the places of a task, and `c` to the charges.
module _ (f : Cgroup → Cgroup) where
  pub places-with_group :
      (gs : List Cgroup) (id x e : ℕ)
      → ((g : Cgroup) → count_of (f g).members x ≡ count_of g.members x + e)
      → places (with_group f gs id) x ≡ places gs x + (if is_some (find_group gs id) then e else 0)
  unfolding places with_group find_group
  places-with_group [] id x e h = refl
  places-with_group (g ∷ gs) id x e h = ground (arith, h g, places-with_group gs id x e h)

  pub charges-with_group :
      (gs : List Cgroup) (id c : ℕ)
      → ((g : Cgroup) → charged_sum (f g).members ≡ charged_sum g.members + c)
      → charges (with_group f gs id) ≡ charges gs + (if is_some (find_group gs id) then c else 0)
  unfolding charges with_group find_group
  charges-with_group [] id c h = refl
  charges-with_group (g ∷ gs) id c h = ground (arith, h g, charges-with_group gs id c h)

  pub id_count-with_group :
      (gs : List Cgroup) (id i : ℕ)
      → ((g : Cgroup) → (f g).id ≡ g.id)
      → id_count (with_group f gs id) i ≡ id_count gs i
  unfolding id_count with_group
  id_count-with_group [] id i h = refl
  id_count-with_group (g ∷ gs) id i h = ground (arith, h g, id_count-with_group gs id i h)

  pub length-with_group : (gs : List Cgroup) (id : ℕ) → length (with_group f gs id) ≡ length gs
  unfolding with_group
  length-with_group [] id = refl
  length-with_group (g ∷ gs) id = ground (arith, length-with_group gs id)

-- Taking a task out of the groups takes one place of it, where there is one, and no other.
pub places-detach_from :
    (gs : List Cgroup) (task x : ℕ)
    → places (detach_from gs task).1 x + one_if (not (places gs task == 0) && task == x)
      ≡ places gs x
unfolding places detach_from
places-detach_from [] task x = refl
places-detach_from (g ∷ gs) task x = ground (
  arith,
  places-detach_from gs task x,
  has_task-count_of g.members task,
  count_of-remove_task g.members task x,
)

pub charges-detach_from :
    (gs : List Cgroup) (task : ℕ)
    → charges (detach_from gs task).1 + (detach_from gs task).0 ≡ charges gs
unfolding charges detach_from
charges-detach_from [] task = refl
charges-detach_from (g ∷ gs) task =
    ground (arith, charges-detach_from gs task, charged_sum-remove_task g.members task)

pub id_count-detach_from :
    (gs : List Cgroup) (task i : ℕ) → id_count (detach_from gs task).1 i ≡ id_count gs i
unfolding id_count detach_from
id_count-detach_from [] task i = refl
id_count-detach_from (g ∷ gs) task i = ground (arith, id_count-detach_from gs task i)

pub length-detach_from : (gs : List Cgroup) (task : ℕ) → length (detach_from gs task).1 ≡ length gs
unfolding detach_from
length-detach_from [] task = refl
length-detach_from (g ∷ gs) task = ground (arith, length-detach_from gs task)

pub find_group-detach_from :
    (gs : List Cgroup) (task id : ℕ)
    → is_some (find_group (detach_from gs task).1 id) ≡ is_some (find_group gs id)
unfolding find_group detach_from
find_group-detach_from [] task id = refl
find_group-detach_from (g ∷ gs) task id = ground (arith, find_group-detach_from gs task id)

pub group_with_task-places :
    (gs : List Cgroup) (task : ℕ) → is_some (group_with_task gs task) ≡ not (places gs task == 0)
unfolding group_with_task places
group_with_task-places [] task = refl
group_with_task-places (g ∷ gs) task =
    ground (arith, group_with_task-places gs task, has_task-count_of g.members task)

-- The places of a task in the whole table.
unfoldable pub total : CgroupTable → ℕ → ℕ
unfolding places count_of
total t task = count_of t.root_members task + places t.groups task

-- A task is in one group at most, an id is that of one group at most, and not 0 nor one to come.
pub record IsValid (t : CgroupTable) : Type 0 where
  pub once : (task : ℕ) → total t task ≤ 1
  pub ids : (id : ℕ) → id_count t.groups id ≤ 1
  pub fresh : (id : ℕ) → t.next_id ≤ id → id_count t.groups id ≡ 0
  pub not_root : id_count t.groups 0 ≡ 0
  pub positive : 0 < t.next_id
  pub small : length t.groups ≤ 32
