-- ===== src/Fs/Mount/Point.antt =====
-- Mount points of crates/zenus-fs/src/vfs.rs: what `normalise_mount_path` makes of a path, and which
-- paths lie at or under a mount point, said byte by byte.
use zenus.Base.{
  ℕ, suc, ◌≡◌, ◌≢◌, ◌⊎◌, ◌==◌, ◌&&◌, ◌++◌, if◌then◌else◌, true, List, [], ◌∷◌, length, drop,
  replicate, arith, refl, sym, ap, ◌∙◌, subst, inl, inr, Bool-cases,
}
use zenus.Fs.Cgroup.{slash}
use zenus.Fs.Mount.{
  at_boundary, is_nil, mount_covers, mount_prefix_len, normalise_mount_path, starts_with,
  trim_slashes,
}

-- The last byte is not a slash.
abbrev pub NoEnd : List ℕ → Type 0
NoEnd [] = Unit
NoEnd (c ∷ []) = c ≢ 47
NoEnd (c ∷ d ∷ cs) = NoEnd (d ∷ cs)

-- The root, or a path that begins with a slash and ends with another byte.
pub data Normal : List ℕ → Type 0 where
  root : Normal (47 ∷ [])
  below : (c : ℕ) (cs : List ℕ) → NoEnd (47 ∷ c ∷ cs) → Normal (47 ∷ c ∷ cs)

-- The mount point of a path: the path without the slashes at its end, with a slash in front if it
-- has none.
pub data PointOf (path : List ℕ) : List ℕ → Type 0 where
  only_slashes : (k : ℕ) → path ≡ replicate k 47 → PointOf path (47 ∷ [])
  absolute :
      (k : ℕ) (c : ℕ) (cs : List ℕ)
      → NoEnd (47 ∷ c ∷ cs)
      → path ≡ (47 ∷ c ∷ cs) ++ replicate k 47
      → PointOf path (47 ∷ c ∷ cs)
  relative :
      (k : ℕ) (c : ℕ) (cs : List ℕ)
      → c ≢ 47
      → NoEnd (c ∷ cs)
      → path ≡ (c ∷ cs) ++ replicate k 47
      → PointOf path (47 ∷ c ∷ cs)

pub PointOf-Normal : (path p : List ℕ) → PointOf path p → Normal p
PointOf-Normal path p (only_slashes k e) = root
PointOf-Normal path p (absolute k c cs n e) = below c cs n
PointOf-Normal path p (relative k c cs m n e) = below c cs n

-- The path is the mount point or goes on behind it with a slash; under the root is what begins with
-- one.
pub data Under (q p : List ℕ) : Type 0 where
  at_root : (r : List ℕ) → p ≡ 47 ∷ [] → q ≡ 47 ∷ r → Under q p
  at_point : q ≡ p → Under q p
  inside : (r : List ℕ) → q ≡ p ++ (47 ∷ r) → Under q p

-- What `trim_slashes` leaves.
trimmed :
    (path : List ℕ)
    → (k : ℕ) × (path ≡ trim_slashes path ++ replicate k 47) × NoEnd (trim_slashes path)
unfolding trim_slashes
trimmed [] = (0, refl, tt)
trimmed (c ∷ cs) = trimmed_cons c cs (trim_slashes cs) (trimmed cs)
  where
    trimmed_cons :
        (c : ℕ) (cs rest : List ℕ)
        → ((k : ℕ) × (cs ≡ rest ++ replicate k 47) × NoEnd rest)
        → let out = (if c == 47 && is_nil rest then [] else c ∷ rest) in
          (k : ℕ) × (c ∷ cs ≡ out ++ replicate k 47) × NoEnd out
    trimmed_cons c cs [] (k, e, n) = elim (Bool-cases (c == 47)) [
      | inl h ↦
          let same : c ≡ 47 = ground (arith, h) in
          rw h (suc k, ap (λ b. b ∷ cs) same ∙ ap (λ l. 47 ∷ l) e, tt)
      | inr h ↦ rw h (k, ap (λ l. c ∷ l) e, (λ same. absurd (ground (arith, h, same))))
    ]
    trimmed_cons c cs (d ∷ ds) (k, e, n) = elim (Bool-cases (c == 47)) [
      | inl h ↦ rw h (k, ap (λ l. c ∷ l) e, n)
      | inr h ↦ rw h (k, ap (λ l. c ∷ l) e, n)
    ]

pub normalise-PointOf : (path : List ℕ) → PointOf path (normalise_mount_path path)
unfolding normalise_mount_path
normalise-PointOf path = of_trimmed path (trim_slashes path) (trimmed path)
  where
    of_trimmed :
        (path t : List ℕ)
        → ((k : ℕ) × (path ≡ t ++ replicate k 47) × NoEnd t)
        → PointOf path (if is_nil t then slash else if starts_with t slash then t else 47 ∷ t)
    of_trimmed path [] (k, e, n) = only_slashes k e
    of_trimmed path (c ∷ []) (k, e, n) = elim (Bool-cases (c == 47)) [
      | inl h ↦ absurd (n (ground (arith, h)))
      | inr h ↦ rw h (relative k c [] n n e)
    ]
    of_trimmed path (c ∷ d ∷ cs) (k, e, n) = elim (Bool-cases (c == 47)) [
      | inl h ↦
          let same : c ≡ 47 = ground (arith, h) in
          rw h (
            subst (PointOf path) (ap (λ b. b ∷ d ∷ cs) (sym same))
              (absolute k d cs n (e ∙ ap (λ b. (b ∷ d ∷ cs) ++ replicate k 47) same)))
      | inr h ↦ rw h (relative k c (d ∷ cs) (λ same. absurd (ground (arith, h, same))) n e)
    ]

trim_slashes-NoEnd : (p : List ℕ) → NoEnd p → trim_slashes p ≡ p
unfolding trim_slashes
trim_slashes-NoEnd [] n = refl
trim_slashes-NoEnd (c ∷ []) n = elim (Bool-cases (c == 47)) [
  | inl h ↦ absurd (n (ground (arith, h)))
  | inr h ↦ rw h refl
]
trim_slashes-NoEnd (c ∷ d ∷ cs) n =
    rw (trim_slashes-NoEnd (d ∷ cs) n)
      (elim (Bool-cases (c == 47)) [ inl h ↦ rw h refl | inr h ↦ rw h refl ])

-- What the byte comparison of `mount_covers` finds behind the mount point.
starts_with-rest :
    (q p : List ℕ)
    → (starts_with q p && at_boundary (drop (length p) q)) ≡ true
    → (q ≡ p) ⊎ ((r : List ℕ) × (q ≡ p ++ (47 ∷ r)))
starts_with-rest [] [] h = inl refl
starts_with-rest (b ∷ q) [] h = inr (q, ap (λ c. c ∷ q) (ground (arith, h)))
starts_with-rest [] (c ∷ p) h = absurd (ground (arith, h))
starts_with-rest (b ∷ q) (c ∷ p) h =
    let same : b ≡ c = ground (arith, h) in
    elim (starts_with-rest q p (ground (arith, h))) [
      | inl e ↦ inl (ap (λ d. d ∷ q) same ∙ ap (λ l. c ∷ l) e)
      | inr (r, e) ↦ inr (r, ap (λ d. d ∷ q) same ∙ ap (λ l. c ∷ l) e)
    ]

rest-starts_with :
    (p r : List ℕ)
    → at_boundary r ≡ true
    → (starts_with (p ++ r) p && at_boundary (drop (length p) (p ++ r))) ≡ true
rest-starts_with [] r h = ground (arith, h)
rest-starts_with (c ∷ p) r h = ground (arith, rest-starts_with p r h)

at_end : (p : List ℕ) → (starts_with p p && at_boundary (drop (length p) p)) ≡ true
at_end [] = refl
at_end (c ∷ p) = ground (arith, at_end p)

covers_root : (q : List ℕ) → mount_covers q (47 ∷ []) ≡ starts_with q slash
unfolding mount_covers
covers_root q = refl

covers_below :
    (q : List ℕ) (c : ℕ) (cs : List ℕ)
    → NoEnd (47 ∷ c ∷ cs)
    → let p = 47 ∷ c ∷ cs in mount_covers q p ≡ (starts_with q p && at_boundary (drop (length p) q))
unfolding mount_covers
covers_below q c cs n = rw (trim_slashes-NoEnd (47 ∷ c ∷ cs) n) refl

pub covers-Under : (q p : List ℕ) → Normal p → mount_covers q p ≡ true → Under q p
covers-Under [] p root h = absurd (ground (arith, h, covers_root []))
covers-Under (b ∷ q) p root h =
    at_root q refl (ap (λ c. c ∷ q) (ground (arith, h, covers_root (b ∷ q))))
covers-Under q p (below c cs n) h =
    elim (starts_with-rest q (47 ∷ c ∷ cs) (sym (covers_below q c cs n) ∙ h)) [
      | inl e ↦ at_point e
      | inr (r, e) ↦ inside r e
    ]

pub Under-covers : (q p : List ℕ) → Normal p → Under q p → mount_covers q p ≡ true
Under-covers q p root (at_root r i e) = covers_root q ∙ ap (λ l. starts_with l slash) e
Under-covers q p root (at_point e) = covers_root q ∙ ap (λ l. starts_with l slash) e
Under-covers q p root (inside r e) = covers_root q ∙ ap (λ l. starts_with l slash) e
Under-covers q p (below c cs n) (at_root r i e) = absurd (ground (arith, ap length i))
Under-covers q p (below c cs n) (at_point e) =
    covers_below q c cs n
    ∙ ap (λ l. starts_with l p && at_boundary (drop (length p) l)) e
    ∙ at_end p
Under-covers q p (below c cs n) (inside r e) =
    covers_below q c cs n
    ∙ ap (λ l. starts_with l p && at_boundary (drop (length p) l)) e
    ∙ rest-starts_with p (47 ∷ r) refl

-- What a mount point that covers the path counts.
pub prefix_len_Normal :
    (q p : List ℕ) → Normal p → mount_prefix_len q p ≡ (if mount_covers q p then length p else 0)
unfolding mount_prefix_len
prefix_len_Normal q p root = refl
prefix_len_Normal q p (below c cs n) = rw (trim_slashes-NoEnd (47 ∷ c ∷ cs) n) refl
