-- ===== src/Mem/Frames/Scan.antt =====
-- What the two scans of `alloc_frame` find.
use zenus.Base.{
  ℕ, zero, suc, ◌+◌, ◌-◌, ◌^◌, ◌%◌, ◌≤◌, ◌<◌, ◌≡◌, ◌≢◌, ◌⊎◌, some, List, [], ◌∷◌, length, get_or,
  set, All, arith, max, ltb, leb, ◌&&◌, Bool-cases, inl, inr, subst, add64,
}
use zenus.Mem.Frames.{MemRegion, high_scan, low_scan, page_size, page_up, region_end}

-- Physical addresses have 52 bits.
abbrev pub phys_limit : ℕ
phys_limit = 2 ^ 52

abbrev pub InRange : MemRegion → Type 0
InRange r = r.base + r.length ≤ phys_limit

-- The page at `s` lies in the region.
abbrev pub Holds : MemRegion → ℕ → Type 0
Holds r s = (r.base ≤ s) × (s + page_size ≤ r.base + r.length)

-- The page at `s` lies in a region of the list.
abbrev pub Inside : List MemRegion → ℕ → Type 0
Inside [] s = ⊥
Inside (r ∷ rs) s = Holds r s ⊎ Inside rs s

abbrev pub Disjoint : MemRegion → MemRegion → Type 0
Disjoint r s = (r.base + r.length ≤ s.base) ⊎ (s.base + s.length ≤ r.base)

abbrev pub Apart : List MemRegion → Type 0
Apart [] = Unit
Apart (r ∷ rs) = All (Disjoint r) rs × Apart rs

-- A cursor: page-aligned and in range.
abbrev pub IsCursor : ℕ → Type 0
IsCursor c = (c % 4096 ≡ 0) × (c ≤ phys_limit)

-- The low pass is past the address, in every region that has it.
abbrev pub PassedLow : ℕ → ℕ → List MemRegion → List ℕ → Type 0
PassedLow floor x [] cs = Unit
PassedLow floor x (r ∷ rs) [] = Unit
PassedLow floor x (r ∷ rs) (c ∷ cs) =
    ((x < r.base) ⊎ (r.base + r.length ≤ x) ⊎ (floor ≤ x) ⊎ (x < c)) × PassedLow floor x rs cs

pub record HighFrame (rs : List MemRegion) (next_free s : ℕ) : Type 0 where
  pub aligned : s % 4096 ≡ 0
  pub at_next : next_free ≤ s
  pub in_range : s + page_size ≤ phys_limit
  pub inside : Inside rs s

pub high_scan-HighFrame :
    (rs : List MemRegion) (next_free : ℕ) {s : ℕ}
    → All InRange rs
    → next_free ≤ phys_limit
    → high_scan rs next_free ≡ some s
    → HighFrame rs next_free s
unfolding high_scan
high_scan-HighFrame [] next_free a n e = cc
high_scan-HighFrame (r ∷ rs) next_free {s} a n e =
    elim (Bool-cases (leb (add64 (page_up (max r.base next_free)) page_size) (region_end r))) [
      | inl t ↦
          let q : page_up (max r.base next_free) ≡ s = ground arith in
          let k : add64 (page_up (max r.base next_free)) page_size ≤ region_end r = ground arith in
          record {
            aligned = omega arith;
            at_next = omega arith;
            in_range = omega arith;
            inside = inl (omega arith);
          }
      | inr t ↦
          let q : high_scan rs next_free ≡ some s = ground arith in
          let ih = high_scan-HighFrame rs next_free {s = s} a.1 n q in
          record {
            aligned = ih.aligned;
            at_next = ih.at_next;
            in_range = ih.in_range;
            inside = inr ih.inside;
          }
    ]

-- What the low scan says of the entry `k` that serves, and of the addresses passed before.
pub record LowFrame (rs : List MemRegion) (cs : List ℕ) (floor k c : ℕ) : Type 0 where
  pub aligned : c % 4096 ≡ 0
  pub in_range : c + page_size ≤ phys_limit
  pub below : c < floor
  pub index : k < length cs
  pub forward : get_or cs k 0 ≤ c
  pub inside : Inside rs c

pub low_scan-LowFrame :
    (rs : List MemRegion) (cs : List ℕ) (floor i j c : ℕ)
    → All InRange rs
    → All IsCursor cs
    → low_scan rs cs floor i ≡ some (j, c)
    → (i ≤ j) × LowFrame rs cs floor (j - i) c
unfolding low_scan
low_scan-LowFrame [] cs floor i j c a b e = cc
low_scan-LowFrame (r ∷ rs) [] floor i j c a b e = cc
low_scan-LowFrame (r ∷ rs) (d ∷ cs) floor i j c a b e =
    elim (Bool-cases (
      leb (add64 (max d (page_up r.base)) page_size) (region_end r)
      && ltb (max d (page_up r.base)) floor)) [
        | inl t ↦
            let qi : i ≡ j = ground arith in
            let qc : max d (page_up r.base) ≡ c = ground arith in
            let k : add64 (max d (page_up r.base)) page_size ≤ region_end r = ground arith in
            let l : max d (page_up r.base) < floor = ground arith in
            let z : 0 ≡ j - i = omega arith in
            (
              omega arith,
              subst (λ n. LowFrame (r ∷ rs) (d ∷ cs) floor n c) z
                  (record {
                    aligned = omega arith;
                    in_range = omega arith;
                    below = omega arith;
                    index = omega arith;
                    forward = omega arith;
                    inside = inl (omega arith);
                  }),
            )
        | inr t ↦
            let q : low_scan rs cs floor (i + 1) ≡ some (j, c) = ground arith in
            let (le, ih) = low_scan-LowFrame rs cs floor (i + 1) j c a.1 b.1 q in
            let z : suc (j - (i + 1)) ≡ j - i = omega arith in
            (
              omega arith,
              subst (λ n. LowFrame (r ∷ rs) (d ∷ cs) floor n c) z
                  (record {
                    aligned = ih.aligned;
                    in_range = ih.in_range;
                    below = ih.below;
                    index = omega (arith, ih.index);
                    forward = ih.forward;
                    inside = inr ih.inside;
                  }),
            )
      ]

-- The frame that the low scan finds was not passed before.
pub low_scan-fresh :
    (rs : List MemRegion) (cs : List ℕ) (floor i j c x : ℕ)
    → All InRange rs
    → All IsCursor cs
    → low_scan rs cs floor i ≡ some (j, c)
    → PassedLow floor x rs cs
    → x ≢ c
unfolding low_scan
low_scan-fresh [] cs floor i j c x a b e p = cc
low_scan-fresh (r ∷ rs) [] floor i j c x a b e p = cc
low_scan-fresh (r ∷ rs) (d ∷ cs) floor i j c x a b e p =
    ground (arith, low_scan-fresh rs cs floor (i + 1) j c x a.1 b.1)

-- A cursor that moves forward keeps what was passed.
pub PassedLow-set :
    (floor x k v : ℕ) (rs : List MemRegion) (cs : List ℕ)
    → get_or cs k 0 ≤ v
    → PassedLow floor x rs cs
    → PassedLow floor x rs (set cs k v)
PassedLow-set floor x k v [] cs h p = p
PassedLow-set floor x k v (r ∷ rs) [] h p = p
PassedLow-set floor x zero v (r ∷ rs) (c ∷ cs) h p = (ground arith, p.1)
PassedLow-set floor x (suc k) v (r ∷ rs) (c ∷ cs) h p = (p.0, PassedLow-set floor x k v rs cs h p.1)

pub PassedLow_above :
    (floor x : ℕ) (rs : List MemRegion) (cs : List ℕ) → floor ≤ x → PassedLow floor x rs cs
PassedLow_above floor x [] cs h = tt
PassedLow_above floor x (r ∷ rs) [] h = tt
PassedLow_above floor x (r ∷ rs) (c ∷ cs) h = (inr (inr (inl h)), PassedLow_above floor x rs cs h)

-- An address inside a region that is apart from all of a list is passed there.
PassedLow_outside :
    (r : MemRegion) (floor x : ℕ) (rs : List MemRegion) (cs : List ℕ)
    → Holds r x
    → All (Disjoint r) rs
    → PassedLow floor x rs cs
PassedLow_outside r floor x [] cs h d = tt
PassedLow_outside r floor x (s ∷ rs) [] h d = tt
PassedLow_outside r floor x (s ∷ rs) (c ∷ cs) h d =
    (ground arith, PassedLow_outside r floor x rs cs h d.1)

Disjoint-Inside :
    (r : MemRegion) (x : ℕ) (rs : List MemRegion)
    → All (Disjoint r) rs
    → Inside rs x
    → (x < r.base) ⊎ (r.base + r.length ≤ x)
Disjoint-Inside r x [] d h = absurd h
Disjoint-Inside r x (s ∷ rs) d (inl h) = ground arith
Disjoint-Inside r x (s ∷ rs) d (inr h) = Disjoint-Inside r x rs d.1 h

-- The frame that the low scan hands out is passed from then on.
pub low_scan-PassedLow :
    (rs : List MemRegion) (cs : List ℕ) (floor i j c : ℕ)
    → All InRange rs
    → All IsCursor cs
    → Apart rs
    → low_scan rs cs floor i ≡ some (j, c)
    → PassedLow floor c rs (set cs (j - i) (c + page_size))
unfolding low_scan
low_scan-PassedLow [] cs floor i j c a b d e = cc
low_scan-PassedLow (r ∷ rs) [] floor i j c a b d e = cc
low_scan-PassedLow (r ∷ rs) (k ∷ cs) floor i j c a b d e =
    elim (Bool-cases (
      leb (add64 (max k (page_up r.base)) page_size) (region_end r)
      && ltb (max k (page_up r.base)) floor)) [
        | inl t ↦
            let qi : i ≡ j = ground arith in
            let qc : max k (page_up r.base) ≡ c = ground arith in
            let f : add64 (max k (page_up r.base)) page_size ≤ region_end r = ground arith in
            let z : 0 ≡ j - i = omega arith in
            subst (λ n. PassedLow floor c (r ∷ rs) (set (k ∷ cs) n (c + page_size))) z
              (inr (inr (inr (omega arith))), PassedLow_outside r floor c rs cs (omega arith) d.0)
        | inr t ↦
            let q : low_scan rs cs floor (i + 1) ≡ some (j, c) = ground arith in
            let (le, f) = low_scan-LowFrame rs cs floor (i + 1) j c a.1 b.1 q in
            let z : suc (j - (i + 1)) ≡ j - i = omega arith in
            let o = Disjoint-Inside r c rs d.0 f.inside in
            subst (λ n. PassedLow floor c (r ∷ rs) (set (k ∷ cs) n (c + page_size))) z
              (ground arith, low_scan-PassedLow rs cs floor (i + 1) j c a.1 b.1 d.1 q)
      ]

-- The low scan as `alloc_frame` starts it, at region 0.
pub low_scan_start :
    (rs : List MemRegion) (cs : List ℕ) (floor j c : ℕ)
    → All InRange rs
    → All IsCursor cs
    → Apart rs
    → low_scan rs cs floor 0 ≡ some (j, c)
    → LowFrame rs cs floor j c × PassedLow floor c rs (set cs j (c + page_size))
low_scan_start rs cs floor j c a b d e =
    let z : j - 0 ≡ j = omega arith in
    (
      subst (λ n. LowFrame rs cs floor n c) z (low_scan-LowFrame rs cs floor 0 j c a b e).1,
      subst (λ n. PassedLow floor c rs (set cs n (c + page_size))) z
          (low_scan-PassedLow rs cs floor 0 j c a b d e),
    )
