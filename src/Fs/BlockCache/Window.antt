-- ===== src/Fs/BlockCache/Window.antt =====
-- What the search and the copies of crates/zenus-fs/src/block_cache.rs do, said without them: the
-- first slot of a window that is in use for a sector, and one list of bytes put over another.
use zenus.Base.{
  ℕ, zero, suc, ◌+◌, ◌≡◌, ◌≤◌, ◌<◌, ◌++◌, min, Bool, true, false, none, some, List, [], ◌∷◌, arith,
  refl, inl, inr, subst, sym, ap, length, take, drop, Bool-cases, if◌then◌else◌,
}
use zenus.Fs.BlockCache.{Sector, CacheEntry, at, sector_size, probe, holds, copy_in, copy_out}
use native.Mathlib.Decide.{dec_lt, ℕ_discrete}
use zenus.Fs.BlockCache.Probe.{slot}

-- The entry is in use for this sector.
pub record Holds (d b : ℕ) (e : CacheEntry) : Type 0 where
  pub valid : e.valid ≡ true
  pub dev_id : e.dev_id ≡ d
  pub block : e.block ≡ b

pub holds-Holds : (d b : ℕ) (e : CacheEntry) → holds d b e ≡ true → Holds d b e
holds-Holds d b e h = record { valid = ground arith; dev_id = ground arith; block = ground arith }

pub Holds-holds : (d b : ℕ) (e : CacheEntry) → Holds d b e → holds d b e ≡ true
Holds-holds d b e h = ground (arith, h.valid, h.dev_id, h.block)

pub not-Holds : (d b : ℕ) (e : CacheEntry) → holds d b e ≡ false → ¬ Holds d b e
not-Holds d b e f h = absurd (ground (arith, f, Holds-holds d b e h))

pub not-holds : (d b : ℕ) (e : CacheEntry) → ¬ Holds d b e → holds d b e ≡ false
not-holds d b e n = elim (Bool-cases (holds d b e)) [
  | inl h ↦ absurd (n (holds-Holds d b e h))
  | inr h ↦ h
]

-- The first list from the front over the second, as far as the second goes.
pub put_over : List ℕ → List ℕ → List ℕ
put_over [] ys = ys
put_over (x ∷ xs) [] = []
put_over (x ∷ xs) (y ∷ ys) = x ∷ put_over xs ys

put_over_lem :
    (k : ℕ) (xs ys : List ℕ)
    → k ≡ min (length xs) (length ys)
    → take k xs ++ drop k ys ≡ put_over xs ys
unfolding put_over
put_over_lem zero [] ys e = refl
put_over_lem (suc k) [] ys e = absurd (omega (arith, e))
put_over_lem zero (x ∷ xs) [] e = refl
put_over_lem (suc k) (x ∷ xs) [] e = absurd (omega (arith, e))
put_over_lem zero (x ∷ xs) (y ∷ ys) e = absurd (omega (arith, e))
put_over_lem (suc k) (x ∷ xs) (y ∷ ys) e = ap (λ l. x ∷ l) (put_over_lem k xs ys (omega (arith, e)))

pub copy_in-put_over : (buf : List ℕ) (x : Sector) → length x ≡ 512 → copy_in buf x ≡ put_over buf x
copy_in-put_over buf x e = put_over_lem (min (length buf) sector_size) buf x (omega (arith, e))

pub copy_out-put_over :
    (buf : List ℕ) (x : Sector) → length x ≡ 512 → copy_out buf x ≡ put_over x buf
copy_out-put_over buf x e = put_over_lem (min (length buf) sector_size) x buf (omega (arith, e))

-- The slot that the search finds is the first of the window that passes.
pub record First (p : CacheEntry → Bool) (es : List CacheEntry) (start n i k : ℕ) : Type 0 where
  pub turn : ℕ
  pub from : i ≤ turn
  pub to : turn < i + n
  pub is_slot : k ≡ slot start turn
  pub passes : p (at es (slot start turn)) ≡ true
  pub before : (j : ℕ) → i ≤ j → j < turn → p (at es (slot start j)) ≡ false

pub probe-First :
    (p : CacheEntry → Bool) (es : List CacheEntry) (start n i k : ℕ)
    → probe p es start n i ≡ some k
    → First p es start n i k
unfolding probe
probe-First p es start zero i k e = cc
probe-First p es start (suc n) i k e = elim (Bool-cases (p (at es (slot start i)))) [
  | inl h ↦ record {
    turn = i;
    from = omega arith;
    to = omega arith;
    is_slot = ground arith;
    passes = h;
    before = λ j a b. absurd (omega arith);
  }
  | inr h ↦
      let f : probe p es start n (i + 1) ≡ some k = ground arith in
      let r = probe-First p es start n (i + 1) k f in
      record {
        turn = r.turn;
        from = omega (arith, r.from);
        to = omega (arith, r.to);
        is_slot = r.is_slot;
        passes = r.passes;
        before = λ j a b. elim (dec_lt i j) [
          | yes q ↦ r.before j (omega arith) b
          | no q ↦ let w : i ≡ j = omega arith in subst (λ m. p (at es (slot start m)) ≡ false) w h
        ];
      }
]

pub First-probe :
    (p : CacheEntry → Bool) (es : List CacheEntry) (start n i t : ℕ)
    → i ≤ t
    → t < i + n
    → p (at es (slot start t)) ≡ true
    → ((j : ℕ) → i ≤ j → j < t → p (at es (slot start j)) ≡ false)
    → probe p es start n i ≡ some (slot start t)
unfolding probe
First-probe p es start zero i t a l h f = absurd (omega arith)
First-probe p es start (suc n) i t a l h f = elim (ℕ_discrete i t) [
  | yes e ↦
      subst
        (λ m.
          (if p (at es (slot start m)) then some (slot start m) else probe p es start n (i + 1))
          ≡ some (slot start t))
        (sym e) (rw h refl)
  | no e ↦ rw (
    f i (omega arith) (omega arith),
    First-probe p es start n (i + 1) t (omega arith) (omega arith) h (λ j x y. f j (omega arith) y),
  )
]

pub none-probe :
    (p : CacheEntry → Bool) (es : List CacheEntry) (start n i : ℕ)
    → ((j : ℕ) → i ≤ j → j < i + n → p (at es (slot start j)) ≡ false)
    → probe p es start n i ≡ none
unfolding probe
none-probe p es start zero i f = refl
none-probe p es start (suc n) i f = rw (
  f i (omega arith) (omega arith),
  none-probe p es start n (i + 1) (λ j x y. f j (omega arith) (omega arith)),
)
