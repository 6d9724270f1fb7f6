-- ===== src/Fs/Mount/Deepest.antt =====
-- What a lookup gives after a mount, crates/zenus-fs/src/vfs.rs, in terms of mount points.
use zenus.Base.{
  ℕ, zero, suc, ◌≡◌, ◌<◌, ltb, true, false, Option, none, some, List, [], ◌∷◌, All, length,
  get_elem?, arith, refl, sym, ap, ◌∙◌, subst, inl, inr, Bool-cases,
}
use zenus.Fs.Mount.{
  Mount, MountTables, find_mount, find_mount_in_table, mount_covers, mount_in_ns_inner,
  mount_prefix_len, normalise_mount_path,
}
use zenus.Fs.Mount.Find.{
  best_from-member, find_mount-table_for, mount-find_mount_in_table, mount_prefix_len-covers,
  table_for, weight,
}
use zenus.Fs.Mount.Point.{
  Normal, PointOf, PointOf-Normal, Under, Under-covers, covers-Under, normalise-PointOf,
  prefix_len_Normal, root, below,
}

prefix_len-Under : (q p : List ℕ) → Normal p → Under q p → mount_prefix_len q p ≡ length p
prefix_len-Under q p n u = prefix_len_Normal q p n ∙ rw (Under-covers q p n u) refl

prefix_len-Outside : (q p : List ℕ) → Normal p → ¬ Under q p → mount_prefix_len q p ≡ 0
prefix_len-Outside q p n u = elim (Bool-cases (mount_covers q p)) [
  | inl c ↦ absurd (u (covers-Under q p n c))
  | inr c ↦ prefix_len_Normal q p n ∙ rw c refl
]

ltb_zero : (n : ℕ) → ltb n 0 ≡ false
ltb_zero n = ground arith

Normal_nonempty : (p : List ℕ) → Normal p → 0 < length p
Normal_nonempty p root = omega arith
Normal_nonempty p (below c cs n) = omega arith

module _ {A : Type 0} where
  -- The mount points of the table are as `normalise_mount_path` makes them.
  abbrev pub NormalTable : List (Mount A) → Type 0
  NormalTable = All (λ m. Normal m.path)

  -- There is none, or its mount point is shorter.
  abbrev pub ShorterThan : ℕ → Option (Mount A) → Type 0
  ShorterThan n none = Unit
  ShorterThan n (some m) = length m.path < n

  Normal-at :
      (ms : List (Mount A)) (k : ℕ) (m : Mount A)
      → NormalTable ms
      → get_elem? ms k ≡ some m
      → Normal m.path
  Normal-at [] k m a e = absurd (ground (arith, e))
  Normal-at (x ∷ ms) zero m a e = subst Normal (ap (point x) e) a.0
    where
      point : Mount A → Option (Mount A) → List ℕ
      point d none = d.path
      point d (some n) = n.path
  Normal-at (x ∷ ms) (suc k) m a e = Normal-at ms k m a.1 e

  -- What the lookup counts of the mount that it gives is the length of its mount point.
  weight-length :
      (table : List (Mount A)) (q : List ℕ) (n : ℕ)
      → NormalTable table
      → (ltb (weight q (find_mount table q)) n ≡ true → ShorterThan n (find_mount table q))
        × (0 < n
            → ShorterThan n (find_mount table q)
            → ltb (weight q (find_mount table q)) n ≡ true)
  unfolding find_mount
  weight-length table q n a = elim (best_from-member q table none) [
    | inl e ↦ rw e ((λ l. tt), (λ z l. ground (arith, z)))
    | inr (k, m, e, f, p) ↦
        let v = Normal-at table k m a f in
        let c = mount_prefix_len-covers q m.path p in
        let w = prefix_len-Under q m.path v (covers-Under q m.path v c) in
        rw e ((λ l. ground (arith, l, w)), (λ z l. ground (arith, l, w)))
  ]

  -- What the lookup of `q` gives after a mount at `p`, with what it gave before.
  pub data Taken (q p : List ℕ) (m : Mount A) (old new : Option (Mount A)) : Type 0 where
    taken : Under q p → ShorterThan (length p) old → new ≡ some m → Taken q p m old new
    outside : ¬ Under q p → new ≡ old → Taken q p m old new
    hidden : ¬ ShorterThan (length p) old → new ≡ old → Taken q p m old new

  -- In a namespace whose mount points are as `normalise_mount_path` makes them: a mount that
  -- succeeds is at the path without the slashes at its end, with one in front if it has none, or at
  -- the root if the path is all slashes. After it, a lookup of any path gives the new mount if the
  -- path is this mount point or lies under it and the lookup gave none before or one with a shorter
  -- mount point, and else what it gave before.
  pub mount-Taken :
      (t : MountTables A) (ns_id : ℕ) (path : List ℕ) (fs : A) (flags : ℕ) (q : List ℕ)
      → NormalTable (table_for t ns_id)
      → (mount_in_ns_inner t ns_id path fs flags).0 ≡ true
      → (p : List ℕ) × PointOf path p
        × Taken q p
            (record { path = p; fs = fs; flags = flags })
            (find_mount_in_table t ns_id q)
            (find_mount_in_table (mount_in_ns_inner t ns_id path fs flags).1 ns_id q)
  mount-Taken t ns_id path fs flags q a e =
      let p = normalise_mount_path path in
      let o = normalise-PointOf path in
      let v = PointOf-Normal path p o in
      let f = mount-find_mount_in_table t ns_id path fs flags q e in
      let old = find_mount_in_table t ns_id q in
      let g = find_mount-table_for t ns_id q in
      let w =
        subst
          (λ x.
            (ltb (weight q x) (length p) ≡ true → ShorterThan (length p) x)
            × (0 < length p → ShorterThan (length p) x → ltb (weight q x) (length p) ≡ true))
          (sym g) (weight-length (table_for t ns_id) q (length p) a) in
      (
        p,
        o,
        elim (Bool-cases (mount_covers q p)) [
          | inr c ↦
              let u : ¬ Under q p = λ x. absurd (ground (arith, c, Under-covers q p v x)) in
              outside u (f ∙ rw (prefix_len-Outside q p v u, ltb_zero (weight q old)) refl)
          | inl c ↦
              let u = covers-Under q p v c in
              let l = prefix_len-Under q p v u in
              elim (Bool-cases (ltb (weight q old) (length p))) [
                | inl b ↦ taken u (w.0 b) (f ∙ rw (l, b) refl)
                | inr b ↦
                    hidden (λ s. absurd (ground (arith, b, w.1 (Normal_nonempty p v) s)))
                      (f ∙ rw (l, b) refl)
              ]
        ],
      )
