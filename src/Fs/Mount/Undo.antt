-- ===== src/Fs/Mount/Undo.antt =====
-- A mount that is undone, and namespaces that do not see each other's mounts, crates/zenus-fs/src/vfs.rs.
use zenus.Base.{
  ℕ, ◌≡◌, ◌≢◌, ◌<◌, ◌==◌, leb, Bool, true, false, ◌||◌, some, List, [], ◌∷◌, ◌++◌, length, arith,
  refl, ap, Bool-cases, inl, inr,
}
use zenus.Fs.Cgroup.{same_bytes, slash}
use zenus.Fs.Mount.{
  MntNsEntry, Mount, MountTables, add_in_spaces, add_mount, find_mount, find_mount_in_table, is_nil,
  max_mounts, mount_in_ns_inner, normalise_mount_path, ns_root, paths_equal, remove_mount,
  starts_with, table_of, trim_slashes, umount_in_ns, umount_in_table, umount_target,
}

same_bytes_self : (xs : List ℕ) → same_bytes xs xs ≡ true
same_bytes_self [] = refl
same_bytes_self (x ∷ xs) = ground (arith, same_bytes_self xs)

paths_equal_self : (path : List ℕ) → paths_equal path path ≡ true
unfolding paths_equal
paths_equal_self path = ground (arith, same_bytes_self (trim_slashes path))

starts_with-trim_slashes :
    (path : List ℕ)
    → starts_with path slash ≡ true
    → is_nil (trim_slashes path) ≡ false
    → starts_with (trim_slashes path) slash ≡ true
unfolding trim_slashes
starts_with-trim_slashes [] h n = ground (arith, n)
starts_with-trim_slashes (c ∷ cs) h n = ground (arith, h, n)

-- An absolute path is unmounted under the name that it was mounted under.
paths_equal-normalise :
    (path : List ℕ)
    → starts_with path slash ≡ true
    → paths_equal (normalise_mount_path path) (umount_target (trim_slashes path)) ≡ true
unfolding normalise_mount_path
paths_equal-normalise path h = elim (Bool-cases (is_nil (trim_slashes path))) [
  | inl n ↦ rw n (paths_equal_self slash)
  | inr n ↦ rw n (rw (starts_with-trim_slashes path h n) (paths_equal_self (trim_slashes path)))
]

module _ {A : Type 0} where
  remove_mount_last :
      (table : List (Mount A)) (m : Mount A) (target : List ℕ)
      → (remove_mount table target).0 ≡ false
      → paths_equal m.path target ≡ true
      → remove_mount (table ++ (m ∷ [])) target ≡ (true, table)
  unfolding remove_mount
  remove_mount_last [] m target h e = rw e refl
  remove_mount_last (k ∷ ms) m target h e = elim (Bool-cases (paths_equal k.path target)) [
    | inl b ↦ ground (arith, b, h)
    | inr b ↦ rw b (rw (remove_mount_last ms m target (ground (arith, b, h)) e) refl)
  ]

  umount-add_mount :
      (table : List (Mount A)) (m : Mount A) (target : List ℕ)
      → 0 < length table
      → (add_mount table m).0 ≡ true
      → (umount_in_table table target).0 ≡ false
      → paths_equal m.path target ≡ true
      → umount_in_table (add_mount table m).1 target ≡ (true, table)
  unfolding add_mount umount_in_table
  umount-add_mount [] m target l d h e = ground (arith, l)
  umount-add_mount (k ∷ ms) m target l d h e =
      elim (Bool-cases (leb max_mounts (length (k ∷ ms)))) [
        | inl b ↦ ground (arith, b, d)
        | inr b ↦ rw b (rw (remove_mount_last ms m target h e) refl)
      ]

  -- In the root namespace, with a root mount: a mount at an absolute path where nothing but the root mount is
  -- mounted, once it succeeds, is undone by the unmount of the same path.
  pub mount-umount_in_ns :
      (t : MountTables A) (path : List ℕ) (fs : A) (flags : ℕ)
      → 0 < length t.root
      → starts_with path slash ≡ true
      → (umount_in_ns t ns_root path).0 ≡ false
      → (mount_in_ns_inner t ns_root path fs flags).0 ≡ true
      → umount_in_ns (mount_in_ns_inner t ns_root path fs flags).1 ns_root path ≡ (true, t)
  unfolding umount_in_ns mount_in_ns_inner
  mount-umount_in_ns t path fs flags l s h d =
      let m : Mount A = record { path = normalise_mount_path path; fs = fs; flags = flags } in
      rw
        (umount-add_mount t.root m (umount_target (trim_slashes path)) l d h
          (paths_equal-normalise path s))
        refl

  abbrev has_table : List (MntNsEntry A) → ℕ → Bool
  has_table [] ns_id = false
  has_table (e ∷ es) ns_id = e.ns_id == ns_id || has_table es ns_id

  add_in_spaces_other :
      (es : List (MntNsEntry A)) (root : List (Mount A)) (ns_id other : ℕ) (m : Mount A)
      → has_table es ns_id ≡ true
      → ns_id ≢ other
      → (done : Bool) × (es' : List (MntNsEntry A)) × (add_in_spaces es ns_id m ≡ some (done, es'))
        × (table_of es' root other ≡ table_of es root other)
  unfolding add_in_spaces table_of
  add_in_spaces_other [] root ns_id other m h o = ground (arith, h)
  add_in_spaces_other (e ∷ es) root ns_id other m h o = elim (Bool-cases (e.ns_id == ns_id)) [
    | inl b ↦ rw b (
      (add_mount e.table m).0,
      record e { table = (add_mount e.table m).1 } ∷ es,
      refl,
      ground (arith, b, o),
    )
    | inr b ↦
        let (done, es', s, u) =
          add_in_spaces_other es root ns_id other m (ground (arith, b, h)) o in
        rw b (rw s (done, e ∷ es', refl, ground (arith, u)))
  ]

  -- A mount in a namespace that has a table of its own, whether it succeeds or not, changes no lookup in
  -- another namespace, the root's included.
  pub mount_other :
      (t : MountTables A) (ns_id other : ℕ) (path : List ℕ) (fs : A) (flags : ℕ) (q : List ℕ)
      → ns_id ≢ ns_root
      → has_table t.spaces ns_id ≡ true
      → ns_id ≢ other
      → find_mount_in_table (mount_in_ns_inner t ns_id path fs flags).1 other q
        ≡ find_mount_in_table t other q
  unfolding mount_in_ns_inner find_mount_in_table
  mount_other t ns_id other path fs flags q n h o =
      let m : Mount A = record { path = normalise_mount_path path; fs = fs; flags = flags } in
      let (done, es, s, u) = add_in_spaces_other t.spaces t.root ns_id other m h o in
      let b : (ns_id == ns_root) ≡ false = ground (arith, n) in
      rw b (
        rw s (elim (Bool-cases (other == ns_root)) [
          | inl r ↦ rw r refl
          | inr r ↦ rw r (ap (λ k. find_mount k q) u)
        ]))
