-- ===== src/Mem/Frames/Plan/Pieces.antt =====
-- The memory that `carve` leaves: what was there, without the reservation.
use zenus.Base.{
  ap, ◌∙◌, All-append, All-map, ◌++◌, ℕ, suc, ◌+◌, ◌-◌, ◌≤◌, ◌<◌, ◌≡◌, ◌⊎◌, List, [], ◌∷◌, arith,
  inl, inr, All, subst, sym,
}
use native.Mathlib.Decide.{dec_lt}
use zenus.Mem.Frames.{MemRegion}
use zenus.Mem.Frames.Scan.{InRange, Disjoint, Apart, phys_limit}
use zenus.Mem.Frames.Plan.Carve.{
  apart, covered, front, back, middle, cut, carve, carve_apart, carve_covered, carve_front,
  carve_back, carve_split, carve_full, carve_nil, low_part, high_part, Cut-cases,
}

abbrev pub In : MemRegion → ℕ → Type 0
In r x = (r.base ≤ x) × (x < r.base + r.length)

-- The address lies in a region of the list.
abbrev pub Covers : List MemRegion → ℕ → Type 0
Covers [] x = ⊥
Covers (r ∷ rs) x = In r x ⊎ Covers rs x

-- The second region lies in the first.
abbrev Sub : MemRegion → MemRegion → Type 0
Sub r s = (r.base ≤ s.base) × (s.base + s.length ≤ r.base + r.length)

Covers-append : (xs ys : List MemRegion) (x : ℕ) → Covers (xs ++ ys) x → Covers xs x ⊎ Covers ys x
Covers-append [] ys x h = inr h
Covers-append (r ∷ xs) ys x (inl h) = inl (inl h)
Covers-append (r ∷ xs) ys x (inr h) = elim (Covers-append xs ys x h) [
  | inl k ↦ inl (inr k)
  | inr k ↦ inr k
]

single : (r : MemRegion) (x : ℕ) → Covers (r ∷ []) x → In r x
single r x (inl h) = h
single r x (inr h) = absurd h

double : (r s : MemRegion) (x : ℕ) → Covers (r ∷ s ∷ []) x → In r x ⊎ In s x
double r s x (inl h) = inl h
double r s x (inr h) = inr (single s x h)

either {ℓ κ μ} : {A : Type ℓ} {B : Type κ} {C : Type μ} → A ⊎ B → (A → C) → (B → C) → C
either (inl a) f g = f a
either (inr b) f g = g b

both : {A B C : Type 0} → A ⊎ B → A ⊎ (B ⊎ C)
both (inl a) = inl a
both (inr b) = inr (inl b)

shrink : (r s t : MemRegion) → Sub r s → Disjoint r t → Disjoint s t
shrink r s t q d = omega arith

shrink_right : (r t u : MemRegion) → Sub t u → Disjoint r t → Disjoint r u
shrink_right r t u q d = omega arith

Apart-append :
    (xs ys : List MemRegion)
    → Apart xs
    → Apart ys
    → All (λ s. All (Disjoint s) ys) xs
    → Apart (xs ++ ys)
Apart-append [] ys a b c = b
Apart-append (x ∷ xs) ys a b c =
    (All-append (Disjoint x) xs ys a.0 c.0, Apart-append xs ys a.1 b c.1)

module _ (base end : ℕ) (o : base ≤ end) (b : end ≤ phys_limit) where
  abbrev Outside : ℕ → Type 0
  Outside x = (x < base) ⊎ (end ≤ x)

  module _ (r : MemRegion) (i : InRange r) where
    high_Sub : (cut base end r ≡ front) ⊎ (cut base end r ≡ middle) → Sub r (high_part end r)
    high_Sub c = ground arith

    low_Sub : (cut base end r ≡ back) ⊎ (cut base end r ≡ middle) → Sub r (low_part base r)
    low_Sub c = ground arith

    In-apart : (x : ℕ) → cut base end r ≡ apart → In r x → Outside x
    In-apart x c h = ground arith

    In-front : (x : ℕ) → cut base end r ≡ front → In (high_part end r) x → In r x × Outside x
    In-front x c h = ground arith

    In-back : (x : ℕ) → cut base end r ≡ back → In (low_part base r) x → In r x × Outside x
    In-back x c h = ground arith

    In-middle :
        (x : ℕ)
        → cut base end r ≡ middle
        → (In (low_part base r) x) ⊎ (In (high_part end r) x)
        → In r x × Outside x
    In-middle x c h = ground arith

    out_covered : (x : ℕ) → cut base end r ≡ covered → In r x → Outside x → ⊥
    out_covered x c h u = ground arith

    out_front : (x : ℕ) → cut base end r ≡ front → In r x → Outside x → In (high_part end r) x
    out_front x c h u = ground arith

    out_back : (x : ℕ) → cut base end r ≡ back → In r x → Outside x → In (low_part base r) x
    out_back x c h u = ground arith

    out_middle :
        (x : ℕ)
        → cut base end r ≡ middle
        → In r x
        → Outside x
        → (In (low_part base r) x) ⊎ (In (high_part end r) x)
    out_middle x c h u = ground arith

  -- What is left of the first region, in front of what is left of the others.
  record Pieces (room : ℕ) (r : MemRegion) (rs : List MemRegion) : Type 0 where
    ps : List MemRegion
    rest : ℕ
    eq : carve room base end (r ∷ rs) ≡ ps ++ carve rest base end rs
    inside : (x : ℕ) → Covers ps x → In r x × Outside x
    subs : All (Sub r) ps
    separate : Apart ps

  pieces : (room : ℕ) (r : MemRegion) (rs : List MemRegion) → InRange r → Pieces room r rs
  pieces room r rs i = elim (Cut-cases (cut base end r)) [
    | inl c ↦ record {
      ps = r ∷ [];
      rest = room;
      eq = carve_apart room base end r rs c;
      inside = λ x h. let k = single r x h in (k, In-apart r i x c k);
      subs = (omega arith, tt);
      separate = (tt, tt);
    }
    | inr (inl c) ↦ record {
      ps = [];
      rest = suc room;
      eq = carve_covered room base end r rs c;
      inside = λ x h. absurd h;
      subs = tt;
      separate = tt;
    }
    | inr (inr (inl c)) ↦ record {
      ps = high_part end r ∷ [];
      rest = room;
      eq = carve_front room base end r rs c;
      inside = λ x h. In-front r i x c (single (high_part end r) x h);
      subs = (high_Sub r i (inl c), tt);
      separate = (tt, tt);
    }
    | inr (inr (inr (inl c))) ↦ record {
      ps = low_part base r ∷ [];
      rest = room;
      eq = carve_back room base end r rs c;
      inside = λ x h. In-back r i x c (single (low_part base r) x h);
      subs = (low_Sub r i (inl c), tt);
      separate = (tt, tt);
    }
    | inr (inr (inr (inr c))) ↦ elim (dec_lt 0 room) [
      | yes k ↦ record {
        ps = low_part base r ∷ high_part end r ∷ [];
        rest = room - 1;
        eq = carve_split room base end r rs c k;
        inside = λ x h. In-middle r i x c (double (low_part base r) (high_part end r) x h);
        subs = (low_Sub r i (inr c), (high_Sub r i (inr c), tt));
        separate = ((ground arith, tt), (tt, tt));
      }
      | no k ↦ record {
        ps = low_part base r ∷ [];
        rest = room;
        eq = carve_full room base end r rs c (omega arith);
        inside = λ x h. In-middle r i x c (inl (single (low_part base r) x h));
        subs = (low_Sub r i (inr c), tt);
        separate = (tt, tt);
      }
    ]
  ]

  -- Nothing is left in the reservation, and nothing is added.
  pub carve_less :
      (rs : List MemRegion) (room x : ℕ)
      → All InRange rs
      → Covers (carve room base end rs) x
      → Covers rs x × Outside x
  carve_less [] room x a h = absurd (subst (λ l. Covers l x) (carve_nil room base end) h)
  carve_less (r ∷ rs) room x a h =
      let p = pieces room r rs a.0 in
      elim (Covers-append p.ps (carve p.rest base end rs) x (subst (λ l. Covers l x) p.eq h)) [
        | inl k ↦ let (k', u) = p.inside x k in (inl k', u)
        | inr k ↦ let (k', u) = carve_less rs p.rest x a.1 k in (inr k', u)
      ]

  -- A predicate that the parts of a region share with it holds of the pieces.
  pub All-carve {κ} :
      (P : MemRegion → Type κ) (rs : List MemRegion) (room : ℕ)
      → ((r s : MemRegion) → Sub r s → P r → P s)
      → All InRange rs
      → All P rs
      → All P (carve room base end rs)
  All-carve P [] room f a h = subst (All P) (sym (carve_nil room base end)) tt
  All-carve P (r ∷ rs) room f a h =
      let p = pieces room r rs a.0 in
      subst (All P) (sym p.eq) (
        All-append P p.ps (carve p.rest base end rs)
          (All-map (Sub r) P p.ps (λ s q. f r s q h.0) p.subs) (All-carve P rs p.rest f a.1 h.1))

  pub Apart-carve :
      (rs : List MemRegion) (room : ℕ) → All InRange rs → Apart rs → Apart (carve room base end rs)
  Apart-carve [] room a h = subst Apart (sym (carve_nil room base end)) tt
  Apart-carve (r ∷ rs) room a h =
      let p = pieces room r rs a.0 in
      subst Apart (sym p.eq) (
        Apart-append p.ps (carve p.rest base end rs) p.separate (Apart-carve rs p.rest a.1 h.1) (
          All-map (Sub r) (λ s. All (Disjoint s) (carve p.rest base end rs)) p.ps
            (λ s q.
              All-map (Disjoint r) (Disjoint s) (carve p.rest base end rs) (λ t d. shrink r s t q d)
                (All-carve (Disjoint r) rs p.rest (λ t u q' d. shrink_right r t u q' d) a.1 h.0))
            p.subs))

  -- A list that the reservation does not meet is left as it is.
  carve_clear :
      (rs : List MemRegion) (room : ℕ)
      → All (λ r. cut base end r ≡ apart) rs
      → carve room base end rs ≡ rs
  carve_clear [] room h = carve_nil room base end
  carve_clear (r ∷ rs) room h =
      carve_apart room base end r rs h.0 ∙ ap (λ l. r ∷ l) (carve_clear rs room h.1)

  middle_alone :
      (r s : MemRegion)
      → InRange r
      → InRange s
      → cut base end r ≡ middle
      → Disjoint r s
      → cut base end s ≡ apart
  middle_alone r s i j c d = ground arith

  middle_clear :
      (r : MemRegion) (rs : List MemRegion)
      → InRange r
      → cut base end r ≡ middle
      → All InRange rs
      → All (Disjoint r) rs
      → All (λ s. cut base end s ≡ apart) rs
  middle_clear r [] i c a d = tt
  middle_clear r (s ∷ rs) i c a d = (middle_alone r s i a.0 c d.0, middle_clear r rs i c a.1 d.1)

  -- With a free slot nothing outside the reservation is lost.
  pub carve_rest :
      (rs : List MemRegion) (room x : ℕ)
      → All InRange rs
      → Apart rs
      → 0 < room
      → Covers rs x
      → Outside x
      → Covers (carve room base end rs) x
  carve_rest [] room x a d k h u = absurd h
  carve_rest (r ∷ rs) room x a d k h u = elim (Cut-cases (cut base end r)) [
    | inl c ↦
        rw (carve_apart room base end r rs c)
          (either h (λ p. inl p) (λ q. inr (carve_rest rs room x a.1 d.1 k q u)))
    | inr (inl c) ↦ rw (carve_covered room base end r rs c) (
        either h (λ p. absurd (out_covered r a.0 x c p u))
          (λ q. carve_rest rs (suc room) x a.1 d.1 (omega arith) q u))
    | inr (inr (inl c)) ↦ rw (carve_front room base end r rs c) (
        either h (λ p. inl (out_front r a.0 x c p u))
          (λ q. inr (carve_rest rs room x a.1 d.1 k q u)))
    | inr (inr (inr (inl c))) ↦ rw (carve_back room base end r rs c) (
        either h (λ p. inl (out_back r a.0 x c p u))
          (λ q. inr (carve_rest rs room x a.1 d.1 k q u)))
    | inr (inr (inr (inr c))) ↦
        rw
          (
            carve_split room base end r rs c k,
            carve_clear rs (room - 1) (middle_clear r rs a.0 c a.1 d.0),
          )
          (either h (λ p. both (out_middle r a.0 x c p u)) (λ q. inr (inr q)))
  ]
