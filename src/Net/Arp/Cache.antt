-- ===== src/Net/Arp/Cache.antt =====
-- The entries of the ARP cache of crates/zenus-net/src/arp.rs, and what an overwrite does to lookups.
use zenus.Base.{
  ◌≡◌, ◌&&◌, ◌||◌, Bool, true, false, Option, none, some, List, [], ◌∷◌, if◌then◌else◌, arith, refl,
  sym, ◌∙◌, subst, inl, inr, Bool-cases, All,
}
use zenus.Net.Arp.{ArpEntry, Ip, Mac, find_mac, put_first, same_ip}

pub same_ip-eq : (x y : Ip) → same_ip x y ≡ true → x ≡ y
unfolding same_ip
same_ip-eq x y h =
    let a : x.a ≡ y.a = ground (arith, h) in
    let b : x.b ≡ y.b = ground (arith, h) in
    let c : x.c ≡ y.c = ground (arith, h) in
    let d : x.d ≡ y.d = ground (arith, h) in λ i. record { a = a i; b = b i; c = c i; d = d i }

pub same_ip_refl : (x : Ip) → same_ip x x ≡ true
unfolding same_ip
same_ip_refl x = ground arith

-- Nothing is found of an address in the entries after its own, and none of them is in use after
-- one that is free.
unfoldable pub Sound : List ArpEntry → Type 0
Sound [] = Unit
Sound (x ∷ xs) =
    (x.valid ≡ true → find_mac xs x.ip ≡ none)
    × ((x.valid ≡ false → All (λ y. y.valid ≡ false) xs) × Sound xs)

-- `put_first` as a test and a total function.
unfoldable pub some_fits : (ArpEntry → Bool) → List ArpEntry → Bool
some_fits p [] = false
some_fits p (x ∷ xs) = p x || some_fits p xs

unfoldable pub overwrite : (ArpEntry → Bool) → List ArpEntry → ArpEntry → List ArpEntry
overwrite p [] e = []
overwrite p (x ∷ xs) e = let rest = overwrite p xs e in if p x then e ∷ xs else x ∷ rest

pub put_first-overwrite :
    (p : ArpEntry → Bool) (xs : List ArpEntry) (e : ArpEntry)
    → put_first p xs e ≡ (if some_fits p xs then some (overwrite p xs e) else none)
unfolding put_first some_fits overwrite
put_first-overwrite p [] e = refl
put_first-overwrite p (x ∷ xs) e = elim (Bool-cases (p x)) [
  | inl a ↦ rw a refl
  | inr a ↦ elim (Bool-cases (some_fits p xs)) [
    | inl b ↦ rw (a, put_first-overwrite p xs e, b) refl
    | inr b ↦ rw (a, put_first-overwrite p xs e, b) refl
  ]
]

-- What becomes of a lookup of `g` when the entry `e` is put over one that has the property.
pub data Change (p : ArpEntry → Bool) (e : ArpEntry) (g : Ip) (before after : Option Mac)
    : Type 0 where
  kept : after ≡ before → Change p e g before after
  evicted :
      (x : ArpEntry)
      → p x ≡ true
      → x.valid ≡ true
      → x.ip ≡ g
      → after ≡ none
      → Change p e g before after
  learned : g ≡ e.ip → before ≡ none → after ≡ some e.mac → Change p e g before after

pub find_mac-hit :
    (x : ArpEntry) (xs : List ArpEntry) (g : Ip)
    → (x.valid && same_ip x.ip g) ≡ true
    → find_mac (x ∷ xs) g ≡ some x.mac
unfolding find_mac
find_mac-hit x xs g h = rw h refl

pub find_mac-miss :
    (x : ArpEntry) (xs : List ArpEntry) (g : Ip)
    → (x.valid && same_ip x.ip g) ≡ false
    → find_mac (x ∷ xs) g ≡ find_mac xs g
unfolding find_mac
find_mac-miss x xs g h = rw h refl

pub find_mac-none :
    (x : ArpEntry) (xs : List ArpEntry) (g : Ip)
    → find_mac (x ∷ xs) g ≡ none
    → ((x.valid && same_ip x.ip g) ≡ false) × (find_mac xs g ≡ none)
unfolding find_mac
find_mac-none x xs g h = ground (arith, h)

pub Change-cons :
    (p : ArpEntry → Bool) (e x : ArpEntry) (xs ys : List ArpEntry) (g : Ip)
    → Change p e g (find_mac xs g) (find_mac ys g)
    → Change p e g (find_mac (x ∷ xs) g) (find_mac (x ∷ ys) g)
Change-cons p e x xs ys g c = elim (Bool-cases (x.valid && same_ip x.ip g)) [
  | inl h ↦ kept (find_mac-hit x ys g h ∙ sym (find_mac-hit x xs g h))
  | inr h ↦ rw (find_mac-miss x xs g h, find_mac-miss x ys g h) c
]

pub overwrite-Change :
    (p : ArpEntry → Bool) (xs : List ArpEntry) (e : ArpEntry) (g : Ip)
    → Sound xs
    → e.valid ≡ true
    → find_mac xs e.ip ≡ none
    → Change p e g (find_mac xs g) (find_mac (overwrite p xs e) g)
unfolding Sound overwrite
overwrite-Change p [] e g s v n = kept refl
overwrite-Change p (x ∷ xs) e g (first, (free, s)) v n = elim (Bool-cases (p x)) [
  | inr a ↦
      let n' = (find_mac-none x xs e.ip n).1 in
      rw a (Change-cons p e x xs (overwrite p xs e) g (overwrite-Change p xs e g s v n'))
  | inl a ↦ elim (Bool-cases (same_ip e.ip g)) [
    | inl h ↦
        let q : e.ip ≡ g = same_ip-eq e.ip g h in
        rw a (
          learned (sym q) (subst (λ i. find_mac (x ∷ xs) i ≡ none) q n)
            (find_mac-hit e xs g (ground (arith, v, h))))
    | inr h ↦
        let miss = find_mac-miss e xs g (ground (arith, v, h)) in
        elim (Bool-cases (x.valid && same_ip x.ip g)) [
          | inr k ↦ rw a (kept (miss ∙ sym (find_mac-miss x xs g k)))
          | inl k ↦
              let xv : x.valid ≡ true = ground (arith, k) in
              let q : x.ip ≡ g = same_ip-eq x.ip g (ground (arith, k)) in
              rw a (evicted x a xv q (miss ∙ subst (λ i. find_mac xs i ≡ none) q (first xv)))
        ]
  ]
]

-- Where the entry `e` can go: a match is not shadowed, what comes before it is in use under another
-- address.
unfoldable pub Fits : (ArpEntry → Bool) → ArpEntry → List ArpEntry → Type 0
Fits p e [] = Unit
Fits p e (x ∷ xs) =
    (p x ≡ true → find_mac xs e.ip ≡ none)
    × (p x ≡ false → (x.valid ≡ true) × ((same_ip e.ip x.ip ≡ false) × Fits p e xs))

overwrite-none :
    (p : ArpEntry → Bool) (e : ArpEntry) (xs : List ArpEntry) (g : Ip)
    → find_mac xs g ≡ none
    → same_ip e.ip g ≡ false
    → find_mac (overwrite p xs e) g ≡ none
unfolding overwrite
overwrite-none p e [] g n o = n
overwrite-none p e (x ∷ xs) g n o =
    let (miss, n') = find_mac-none x xs g n in
    elim (Bool-cases (p x)) [
      | inl a ↦ rw a (find_mac-miss e xs g (ground (arith, o)) ∙ n')
      | inr a ↦ rw a (find_mac-miss x (overwrite p xs e) g miss ∙ overwrite-none p e xs g n' o)
    ]

pub Sound-cons :
    (p : ArpEntry → Bool) (e x : ArpEntry) (xs : List ArpEntry)
    → Sound (x ∷ xs)
    → x.valid ≡ true
    → same_ip e.ip x.ip ≡ false
    → Sound (overwrite p xs e)
    → Sound (x ∷ overwrite p xs e)
unfolding Sound
Sound-cons p e x xs (first, (free, s)) xv other s' =
    ((λ w. overwrite-none p e xs x.ip (first xv) other), ((λ w. ground (arith, xv, w)), s'))

pub overwrite-Sound :
    (p : ArpEntry → Bool) (e : ArpEntry) (xs : List ArpEntry)
    → Sound xs
    → e.valid ≡ true
    → Fits p e xs
    → Sound (overwrite p xs e)
unfolding Sound overwrite Fits
overwrite-Sound p e [] s v f = s
overwrite-Sound p e (x ∷ xs) (first, (free, s)) v (hit, skip) = elim (Bool-cases (p x)) [
  | inl a ↦ rw a ((λ w. hit a), ((λ w. ground (arith, v, w)), s))
  | inr a ↦
      let (xv, (other, f)) = skip a in
      rw a (Sound-cons p e x xs (first, (free, s)) xv other (overwrite-Sound p e xs s v f))
]

pub same_ip-sym : (x y : Ip) → same_ip x y ≡ false → same_ip y x ≡ false
unfolding same_ip
same_ip-sym x y h = ground (arith, h)

pub Fits-fresh :
    (p : ArpEntry → Bool) (e : ArpEntry) (xs : List ArpEntry)
    → find_mac xs e.ip ≡ none
    → All (λ x. p x ≡ false → x.valid ≡ true) xs
    → Fits p e xs
unfolding Fits
Fits-fresh p e [] n u = tt
Fits-fresh p e (x ∷ xs) n (w, u) =
    let (miss, n') = find_mac-none x xs e.ip n in
    (
      (λ a. n'),
      (λ a. (w a, (same_ip-sym x.ip e.ip (ground (arith, miss, w a)), Fits-fresh p e xs n' u))),
    )

pub overwrite-hit :
    (p : ArpEntry → Bool) (e : ArpEntry) (xs : List ArpEntry)
    → some_fits p xs ≡ true
    → e.valid ≡ true
    → find_mac xs e.ip ≡ none
    → find_mac (overwrite p xs e) e.ip ≡ some e.mac
unfolding some_fits overwrite
overwrite-hit p e [] f v n = absurd (ground (arith, f))
overwrite-hit p e (x ∷ xs) f v n = elim (Bool-cases (p x)) [
  | inl a ↦ rw a (find_mac-hit e xs e.ip (ground (arith, v, same_ip_refl e.ip)))
  | inr a ↦
      let (miss, n') = find_mac-none x xs e.ip n in
      rw a (
        find_mac-miss x (overwrite p xs e) e.ip miss
        ∙ overwrite-hit p e xs (ground (arith, f, a)) v n')
]
