-- ===== src/Fs/BlockCache/Evict.antt =====
-- The choice of the slot that gives way, `evict_one` of crates/zenus-fs/src/block_cache.rs.
use native.Mathlib.Decide.{dec_lt}
use zenus.Base.{
  ℕ, zero, suc, ◌+◌, ◌≡◌, ◌≤◌, ◌<◌, ◌≢◌, ◌⊎◌, Bool, true, false, ◌||◌, none, some, List, arith, inl,
  inr, subst, Option-cases,
}
use zenus.Fs.BlockCache.{
  CacheEntry, at, probe, cache_size, ways, first_slot, evict_one, invalid, clean, hash,
}
use zenus.Fs.BlockCache.Probe.{slot, probe-Hit, probe-none}

-- What a dirty slot holds is in use.
abbrev pub DirtyValid : List CacheEntry → Type 0
DirtyValid es = (k : ℕ) → (at es k).dirty ≡ true → (at es k).valid ≡ true

first_slot-found :
    (p : CacheEntry → Bool) (es : List CacheEntry) (n i k : ℕ)
    → first_slot p es n i ≡ some k
    → (k < i + n) × (p (at es k) ≡ true)
unfolding first_slot
first_slot-found p es zero i k e = cc
first_slot-found p es (suc n) i k e = ground (arith, first_slot-found p es n (i + 1) k)

hash_small : (d b : ℕ) → hash d b < cache_size
unfolding hash
hash_small d b = omega arith

-- The slot that gives way is invalid, clean or the first of the block's window.
unfoldable pub Victim : List CacheEntry → ℕ → ℕ → ℕ → Type 0
Victim es d b k =
    (k < cache_size)
    × ((invalid (at es k) ≡ true) ⊎ (clean (at es k) ≡ true) ⊎ (k ≡ slot (hash d b) 0))

pub evict_one-Victim :
    (es : List CacheEntry) (d b k : ℕ) → evict_one es d b ≡ some k → Victim es d b k
unfolding evict_one Victim
evict_one-Victim es d b k e = elim (Option-cases (probe invalid es (hash d b) ways 0)) [
  | inr (i, h) ↦
      let r = probe-Hit invalid es (hash d b) ways 0 i h in
      let q : i ≡ k = ground arith in
      subst (Victim es d b) q (omega (arith, r.is_slot), inl r.passes)
  | inl h ↦ elim (Option-cases (probe clean es (hash d b) ways 0)) [
    | inr (i, h') ↦
        let r = probe-Hit clean es (hash d b) ways 0 i h' in
        let q : i ≡ k = ground arith in
        subst (Victim es d b) q (omega (arith, r.is_slot), inr (inl r.passes))
    | inl h' ↦ elim (Option-cases (first_slot (λ x. invalid x || clean x) es cache_size 0)) [
      | inr (i, f) ↦
          let r = first_slot-found (λ x. invalid x || clean x) es cache_size 0 i f in
          let q : i ≡ k = ground arith in
          subst (Victim es d b) q (omega (arith, r.0), ground (arith, r.1))
      | inl f ↦
          let q : hash d b ≡ k = ground arith in
          let z = hash_small d b in (omega arith, inr (inr (omega arith)))
    ]
  ]
]

first_slot-none :
    (p : CacheEntry → Bool) (es : List CacheEntry) (n i : ℕ)
    → first_slot p es n i ≡ none
    → (j : ℕ) → i ≤ j
    → j < i + n
    → p (at es j) ≡ false
unfolding first_slot
first_slot-none p es zero i e j a b = absurd (omega arith)
first_slot-none p es (suc n) i e j a b =
    let h : p (at es i) ≡ false = ground arith in
    let f : first_slot p es n (i + 1) ≡ none = ground arith in
    elim (dec_lt i j) [
      | yes q ↦ first_slot-none p es n (i + 1) f j (omega arith) (omega arith)
      | no q ↦ let r : i ≡ j = omega arith in subst (λ k. p (at es k) ≡ false) r h
    ]

-- A slot that can be taken without a write to the device.
abbrev pub spare : CacheEntry → Bool
spare e = invalid e || clean e

-- The slot is one of those that `find_entry` looks at.
pub record InWindow (d b k : ℕ) : Type 0 where
  pub turn : ℕ
  pub to : turn < ways
  pub is_slot : k ≡ slot (hash d b) turn

-- No slot of the window is spare.
abbrev pub Full : List CacheEntry → ℕ → ℕ → Type 0
Full es d b = (j : ℕ) → j < ways → spare (at es (slot (hash d b) j)) ≡ false

-- With a spare slot in the window, the victim is one.
pub evict_one-InWindow :
    (es : List CacheEntry) (d b k t : ℕ)
    → t < ways
    → spare (at es (slot (hash d b) t)) ≡ true
    → evict_one es d b ≡ some k
    → InWindow d b k
unfolding evict_one
evict_one-InWindow es d b k t l u e = elim (Option-cases (probe invalid es (hash d b) ways 0)) [
  | inr (i, h) ↦
      let r = probe-Hit invalid es (hash d b) ways 0 i h in
      let q : i ≡ k = ground arith in
      subst (InWindow d b) q
        (record { turn = r.turn; to = omega (arith, r.to); is_slot = r.is_slot })
  | inl h ↦ elim (Option-cases (probe clean es (hash d b) ways 0)) [
    | inr (i, h') ↦
        let r = probe-Hit clean es (hash d b) ways 0 i h' in
        let q : i ≡ k = ground arith in
        subst (InWindow d b) q
          (record { turn = r.turn; to = omega (arith, r.to); is_slot = r.is_slot })
    | inl h' ↦
        let x = probe-none invalid es (hash d b) ways 0 h t (omega arith) (omega arith) in
        let y = probe-none clean es (hash d b) ways 0 h' t (omega arith) (omega arith) in
        absurd (ground (arith, x, y))
  ]
]

-- With no spare slot in the window and one elsewhere, the victim is a spare slot elsewhere.
pub evict_one-Full :
    (es : List CacheEntry) (d b k t : ℕ)
    → Full es d b
    → t < cache_size
    → spare (at es t) ≡ true
    → evict_one es d b ≡ some k
    → spare (at es k) ≡ true
unfolding evict_one
evict_one-Full es d b k t full l u e = elim (Option-cases (probe invalid es (hash d b) ways 0)) [
  | inr (i, h) ↦
      let r = probe-Hit invalid es (hash d b) ways 0 i h in
      let q : i ≡ k = ground arith in
      subst (λ j. spare (at es j) ≡ true) q (ground (arith, r.passes))
  | inl h ↦ elim (Option-cases (probe clean es (hash d b) ways 0)) [
    | inr (i, h') ↦
        let r = probe-Hit clean es (hash d b) ways 0 i h' in
        let q : i ≡ k = ground arith in
        subst (λ j. spare (at es j) ≡ true) q (ground (arith, r.passes))
    | inl h' ↦ elim (Option-cases (first_slot spare es cache_size 0)) [
      | inr (i, f) ↦
          let r = first_slot-found spare es cache_size 0 i f in
          let q : i ≡ k = ground arith in subst (λ j. spare (at es j) ≡ true) q r.1
      | inl f ↦
          let x = first_slot-none spare es cache_size 0 f t (omega arith) (omega arith) in
          absurd (ground (arith, x))
    ]
  ]
]

pub evict_one-total : (es : List CacheEntry) (d b : ℕ) → evict_one es d b ≢ none
unfolding evict_one
evict_one-total es d b e = ground arith
