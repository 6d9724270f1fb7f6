-- ===== src/Fs/Mount/Tests.antt =====
-- The theorems on the mounts of crates/zenus-fs/src/vfs.rs at concrete tables.
use zenus.Base.{ℕ, ◌≡◌, if◌then◌else◌, List, [], ◌∷◌, arith, refl}
use zenus.Fs.Cgroup.{slash}
use zenus.Fs.Mount.{
  table_of, add_in_spaces, add_mount, Mount, MountTables, find_mount_in_table, is_nil, mount_covers,
  mount_in_ns_inner, starts_with, trim_slashes,
}
use zenus.Fs.Mount.Covers.{is_prefix, mount_covers-segments, segments}
use zenus.Fs.Mount.Point.{PointOf, root}
use zenus.Fs.Mount.Deepest.{Taken, mount-Taken}
use zenus.Fs.Mount.Undo.{mount_other}

-- `/tmp/` and `/tmpx`
abbrev tmp_slash : List ℕ
tmp_slash = 47 ∷ 116 ∷ 109 ∷ 112 ∷ 47 ∷ []

abbrev tmpx : List ℕ
tmpx = 47 ∷ 116 ∷ 109 ∷ 112 ∷ 120 ∷ []

mount_covers-segments_example : mount_covers tmpx tmp_slash ≡ (
    if is_nil (trim_slashes tmp_slash)
    then starts_with tmpx slash
    else is_prefix (segments (trim_slashes tmp_slash)) (segments tmpx))
mount_covers-segments_example = mount_covers-segments tmpx tmp_slash

abbrev root_mount : Mount ℕ
root_mount = record { path = slash; fs = 1; flags = 0 }

-- The root and the namespace 5.
abbrev two_tables : MountTables ℕ
two_tables = record {
  root = root_mount ∷ [];
  spaces = record { ns_id = 5; table = root_mount ∷ [] } ∷ [];
}

-- `/tmp/a`
abbrev below_tmp : List ℕ
below_tmp = 47 ∷ 116 ∷ 109 ∷ 112 ∷ 47 ∷ 97 ∷ []

mount-Taken_example :
    (p : List ℕ) × PointOf tmp_slash p
    × Taken below_tmp p
        (record { path = p; fs = 2; flags = 0 })
        (find_mount_in_table two_tables 5 below_tmp)
        (find_mount_in_table (mount_in_ns_inner two_tables 5 tmp_slash 2 0).1 5 below_tmp)
unfolding mount_in_ns_inner add_in_spaces add_mount table_of
mount-Taken_example = mount-Taken two_tables 5 tmp_slash 2 0 below_tmp (root, tt) refl

mount_other_example :
    find_mount_in_table (mount_in_ns_inner two_tables 5 tmp_slash 2 0).1 0 below_tmp
    ≡ find_mount_in_table two_tables 0 below_tmp
mount_other_example =
    mount_other two_tables 5 0 tmp_slash 2 0 below_tmp (omega arith) refl (omega arith)
