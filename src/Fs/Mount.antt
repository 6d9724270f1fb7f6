-- ===== src/Fs/Mount.antt =====
-- The mount tables, crates/zenus-fs/src/vfs.rs. A path is the list of its bytes, a file system any value. A
-- table is the list of its mounts, its array up to the count; so is the table of the namespaces.
pub mod Covers
pub mod Find
pub mod Point
pub mod Deepest
pub mod Undo
mod Tests
use zenus.Base.{
  ℕ, zero, suc, ◌+◌, ◌-◌, ◌/◌, ◌%◌, ◌==◌, ltb, leb, if◌then◌else◌, Bool, true, false, not, ◌&&◌,
  ◌||◌, Option, none, some, List, [], ◌∷◌, ◌++◌, length, drop,
}
use zenus.Fs.Cgroup.{same_bytes, slash}

abbrev pub max_mounts : ℕ
max_mounts = 32

abbrev pub ns_root : ℕ
ns_root = 0

abbrev pub is_nil : List ℕ → Bool
is_nil [] = true
is_nil (c ∷ cs) = false

-- `trim_end_matches('/')`
pub trim_slashes : List ℕ → List ℕ
trim_slashes [] = []
trim_slashes (c ∷ cs) =
    let rest = trim_slashes cs in if c == 47 && is_nil rest then [] else c ∷ rest

abbrev pub starts_with : List ℕ → List ℕ → Bool
starts_with path [] = true
starts_with [] (c ∷ prefix) = false
starts_with (b ∷ path) (c ∷ prefix) = b == c && starts_with path prefix

-- The end of the path, or a slash.
abbrev pub at_boundary : List ℕ → Bool
at_boundary [] = true
at_boundary (b ∷ path) = b == 47

pub mount_covers : List ℕ → List ℕ → Bool
unfolding trim_slashes
mount_covers path mount =
    let trimmed = trim_slashes mount in
    if same_bytes mount slash || is_nil mount
    then starts_with path slash
    else if is_nil trimmed
    then starts_with path slash
    else starts_with path trimmed && at_boundary (drop (length trimmed) path)

pub mount_prefix_len : List ℕ → List ℕ → ℕ
unfolding mount_covers trim_slashes
mount_prefix_len path mount =
    if mount_covers path mount
    then (if same_bytes mount slash || is_nil mount then 1 else length (trim_slashes mount))
    else 0

pub normalise_mount_path : List ℕ → List ℕ
unfolding trim_slashes
normalise_mount_path path =
    let trimmed = trim_slashes path in
    if is_nil trimmed then slash else if starts_with trimmed slash then trimmed else 47 ∷ trimmed

pub paths_equal : List ℕ → List ℕ → Bool
unfolding trim_slashes
paths_equal a b =
    let a' = trim_slashes a in
    let b' = trim_slashes b in if is_nil a' && is_nil b' then true else same_bytes a' b'

abbrev pub umount_target : List ℕ → List ℕ
umount_target trimmed = if is_nil trimmed then slash else trimmed

pub record Mount (A : Type 0) : Type 0 where
  pub path : List ℕ
  pub fs : A
  pub flags : ℕ

pub record MntNsEntry (A : Type 0) : Type 0 where
  pub ns_id : ℕ
  pub table : List (Mount A)

pub record MountTables (A : Type 0) : Type 0 where
  pub root : List (Mount A)
  pub spaces : List (MntNsEntry A)

module _ {A : Type 0} where
  -- The loop of `find_mount_in_table`, with the best mount so far and its length.
  pub best_from : List ℕ → List (Mount A) → Option (Mount A) → ℕ → Option (Mount A)
  unfolding mount_prefix_len
  best_from path [] best best_len = best
  best_from path (m ∷ ms) best best_len =
      let len = mount_prefix_len path m.path in
      let better = best_from path ms (some m) len in
      let same = best_from path ms best best_len in if ltb best_len len then better else same

  pub find_mount : List (Mount A) → List ℕ → Option (Mount A)
  unfolding best_from
  find_mount table path = best_from path table none 0

  -- The table of a namespace, or the root's where it has none.
  pub table_of : List (MntNsEntry A) → List (Mount A) → ℕ → List (Mount A)
  table_of [] root ns_id = root
  table_of (e ∷ es) root ns_id =
      let rest = table_of es root ns_id in if e.ns_id == ns_id then e.table else rest

  pub find_mount_in_table : MountTables A → ℕ → List ℕ → Option (Mount A)
  unfolding table_of find_mount
  find_mount_in_table t ns_id path =
      if ns_id == ns_root
      then find_mount t.root path
      else find_mount (table_of t.spaces t.root ns_id) path

  pub add_mount : List (Mount A) → Mount A → Bool × List (Mount A)
  add_mount table m =
      if leb max_mounts (length table) then (false, table) else (true, table ++ (m ∷ []))

  -- What the mount does to a namespace that has a table.
  pub add_in_spaces : List (MntNsEntry A) → ℕ → Mount A → Option (Bool × List (MntNsEntry A))
  unfolding add_mount
  add_in_spaces [] ns_id m = none
  add_in_spaces (e ∷ es) ns_id m =
      let (added, table) = add_mount e.table m in
      let rest = add_in_spaces es ns_id m in
      if e.ns_id == ns_id
      then some (added, record e { table = table } ∷ es)
      else elim rest [ none ↦ none | some (done, es') ↦ some (done, e ∷ es') ]

  abbrev pub in_root : MountTables A → Bool × List (Mount A) → Bool × MountTables A
  in_root t (done, table) = (done, record t { root = table })

  pub mount_in_ns_inner : MountTables A → ℕ → List ℕ → A → ℕ → Bool × MountTables A
  unfolding normalise_mount_path add_mount add_in_spaces
  mount_in_ns_inner t ns_id path fs flags =
      let m : Mount A = record { path = normalise_mount_path path; fs = fs; flags = flags } in
      if ns_id == ns_root
      then in_root t (add_mount t.root m)
      else elim (add_in_spaces t.spaces ns_id m) [
        | none ↦ in_root t (add_mount t.root m)
        | some (done, spaces) ↦ (done, record t { spaces = spaces })
      ]

  -- The first mount of the path is removed, and those behind it move up.
  pub remove_mount : List (Mount A) → List ℕ → Bool × List (Mount A)
  unfolding paths_equal
  remove_mount [] target = (false, [])
  remove_mount (m ∷ ms) target =
      let (found, rest) = remove_mount ms target in
      if paths_equal m.path target then (true, ms) else (found, m ∷ rest)

  -- The first mount, the root, is kept.
  pub umount_in_table : List (Mount A) → List ℕ → Bool × List (Mount A)
  unfolding remove_mount
  umount_in_table [] target = (false, [])
  umount_in_table (m ∷ ms) target = let (found, rest) = remove_mount ms target in (found, m ∷ rest)

  pub umount_in_spaces : List (MntNsEntry A) → ℕ → List ℕ → Bool × List (MntNsEntry A)
  unfolding umount_in_table
  umount_in_spaces [] ns_id target = (false, [])
  umount_in_spaces (e ∷ es) ns_id target =
      let (done, table) = umount_in_table e.table target in
      let (later, rest) = umount_in_spaces es ns_id target in
      if e.ns_id == ns_id then (done, record e { table = table } ∷ es) else (later, e ∷ rest)

  pub umount_in_ns : MountTables A → ℕ → List ℕ → Bool × MountTables A
  unfolding trim_slashes umount_in_table umount_in_spaces
  umount_in_ns t ns_id path =
      let target = umount_target (trim_slashes path) in
      if ns_id == ns_root
      then in_root t (umount_in_table t.root target)
      else (let (done, spaces) = umount_in_spaces t.spaces ns_id target in
          (done, record t { spaces = spaces }))
