-- ===== src/Fs/Mount/Find.antt =====
-- The lookup of a mount and what a new mount changes of it, crates/zenus-fs/src/vfs.rs.
use zenus.Base.{
  ℕ, suc, ◌≡◌, ◌<◌, ◌==◌, leb, ltb, if◌then◌else◌, true, Option, none, some, List, [], ◌∷◌, ◌++◌,
  length, get_elem?, arith, refl, sym, ◌∙◌, ap, Bool-cases, inl, inr, ◌⊎◌,
}
use zenus.Fs.Mount.{
  MntNsEntry, Mount, MountTables, add_in_spaces, add_mount, best_from, find_mount,
  find_mount_in_table, max_mounts, mount_covers, mount_in_ns_inner, mount_prefix_len,
  normalise_mount_path, ns_root, table_of,
}

pub mount_prefix_len-covers :
    (path mount : List ℕ) → 0 < mount_prefix_len path mount → mount_covers path mount ≡ true
unfolding mount_prefix_len
mount_prefix_len-covers path mount l = ground (arith, l)

module _ {A : Type 0} where
  -- How much of the path a lookup's answer covers.
  abbrev pub weight : List ℕ → Option (Mount A) → ℕ
  weight path none = 0
  weight path (some m) = mount_prefix_len path m.path

  -- The answer is a mount of the table that covers something of the path, or the one at the start.
  pub best_from-member :
      (path : List ℕ) (ms : List (Mount A)) (best : Option (Mount A))
      → let result = best_from path ms best (weight path best) in
        (result ≡ best)
        ⊎ ((k : ℕ) × (m : Mount A) × (result ≡ some m)
            × (get_elem? ms k ≡ some m)
            × (0 < mount_prefix_len path m.path))
  unfolding best_from
  best_from-member path [] best = inl refl
  best_from-member path (m ∷ ms) best =
      elim (Bool-cases (ltb (weight path best) (mount_prefix_len path m.path))) [
        | inr b ↦ rw b (elim (best_from-member path ms best) [
          | inl e ↦ inl e
          | inr (k, n, e, f, l) ↦ inr (suc k, n, e, f, l)
        ])
        | inl b ↦ rw b (elim (best_from-member path ms (some m)) [
          | inl e ↦ inr (0, m, e, refl, ground (arith, b))
          | inr (k, n, e, f, l) ↦ inr (suc k, n, e, f, l)
        ])
      ]

  -- One more mount at the end of the table is the answer if it covers more of the path.
  best_from_last :
      (path : List ℕ) (ms : List (Mount A)) (m : Mount A) (best : Option (Mount A))
      → let result = best_from path ms best (weight path best) in
        best_from path (ms ++ (m ∷ [])) best (weight path best)
        ≡ (if ltb (weight path result) (mount_prefix_len path m.path) then some m else result)
  unfolding best_from
  best_from_last path [] m best = refl
  best_from_last path (k ∷ ms) m best =
      elim (Bool-cases (ltb (weight path best) (mount_prefix_len path k.path))) [
        | inl b ↦ rw b (best_from_last path ms m (some k))
        | inr b ↦ rw b (best_from_last path ms m best)
      ]

  find_mount-add_mount :
      (table : List (Mount A)) (m : Mount A) (path : List ℕ)
      → (add_mount table m).0 ≡ true
      → let old = find_mount table path in
        find_mount (add_mount table m).1 path
        ≡ (if ltb (weight path old) (mount_prefix_len path m.path) then some m else old)
  unfolding find_mount add_mount
  find_mount-add_mount table m path e = elim (Bool-cases (leb max_mounts (length table))) [
    | inl b ↦ ground (arith, b, e)
    | inr b ↦ rw b (best_from_last path table m none)
  ]

  -- A mount in a namespace of its own changes its table, and no other namespace's.
  add_in_spaces-table_of :
      (es : List (MntNsEntry A)) (root : List (Mount A)) (ns_id : ℕ) (m : Mount A)
      → ((add_in_spaces es ns_id m ≡ none) × ((r : List (Mount A)) → table_of es r ns_id ≡ r))
        ⊎ ((es' : List (MntNsEntry A)) × (add_in_spaces es ns_id m
              ≡ some ((add_mount (table_of es root ns_id) m).0, es'))
            × (table_of es' root ns_id ≡ (add_mount (table_of es root ns_id) m).1))
  unfolding add_in_spaces table_of
  add_in_spaces-table_of [] root ns_id m = inl (refl, (λ r. refl))
  add_in_spaces-table_of (e ∷ es) root ns_id m = elim (Bool-cases (e.ns_id == ns_id)) [
    | inl b ↦ rw b (inr (record e { table = (add_mount e.table m).1 } ∷ es, refl, rw b refl))
    | inr b ↦ elim (add_in_spaces-table_of es root ns_id m) [
      | inl (n, t) ↦ rw b (rw n (inl (refl, t)))
      | inr (es', s, t) ↦ rw b (rw s (inr (e ∷ es', refl, rw b t)))
    ]
  ]

  -- The table that a lookup in the namespace reads.
  abbrev pub table_for : MountTables A → ℕ → List (Mount A)
  table_for t ns_id = if ns_id == ns_root then t.root else table_of t.spaces t.root ns_id

  pub find_mount-table_for :
      (t : MountTables A) (ns_id : ℕ) (q : List ℕ)
      → find_mount_in_table t ns_id q ≡ find_mount (table_for t ns_id) q
  unfolding find_mount_in_table
  find_mount-table_for t ns_id q = elim (Bool-cases (ns_id == ns_root)) [
    | inl b ↦ rw b refl
    | inr b ↦ rw b refl
  ]

  mount-table_for :
      (t : MountTables A) (ns_id : ℕ) (path : List ℕ) (fs : A) (flags : ℕ)
      → let m : Mount A = record { path = normalise_mount_path path; fs = fs; flags = flags } in
        let (done, t') = mount_in_ns_inner t ns_id path fs flags in
        (done ≡ (add_mount (table_for t ns_id) m).0)
        × (table_for t' ns_id ≡ (add_mount (table_for t ns_id) m).1)
  unfolding mount_in_ns_inner
  mount-table_for t ns_id path fs flags = elim (Bool-cases (ns_id == ns_root)) [
    | inl b ↦ rw b (refl, refl)
    | inr b ↦
        let m : Mount A = record { path = normalise_mount_path path; fs = fs; flags = flags } in
        elim (add_in_spaces-table_of t.spaces t.root ns_id m) [
          | inl (n, s) ↦ rw b (rw n (rw (s t.root) (refl, s (add_mount t.root m).1)))
          | inr (es, s, u) ↦ rw b (rw s (refl, u))
        ]
  ]

  -- After a mount that succeeds, in whatever namespace, a lookup of any path in it gives the new mount where
  -- that covers more of the path than what the lookup gave before, and else what it gave before.
  pub mount-find_mount_in_table :
      (t : MountTables A) (ns_id : ℕ) (path : List ℕ) (fs : A) (flags : ℕ) (q : List ℕ)
      → (mount_in_ns_inner t ns_id path fs flags).0 ≡ true
      → let old = find_mount_in_table t ns_id q in
        let m : Mount A = record { path = normalise_mount_path path; fs = fs; flags = flags } in
        find_mount_in_table (mount_in_ns_inner t ns_id path fs flags).1 ns_id q
        ≡ (if ltb (weight q old) (mount_prefix_len q m.path) then some m else old)
  mount-find_mount_in_table t ns_id path fs flags q e =
      let m : Mount A = record { path = normalise_mount_path path; fs = fs; flags = flags } in
      let (d, s) = mount-table_for t ns_id path fs flags in
      rw (find_mount-table_for t ns_id q) (
        find_mount-table_for (mount_in_ns_inner t ns_id path fs flags).1 ns_id q
        ∙ ap (λ u. find_mount u q) s
        ∙ find_mount-add_mount (table_for t ns_id) m q (sym d ∙ e))
