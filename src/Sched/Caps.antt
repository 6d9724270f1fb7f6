-- ===== src/Sched/Caps.antt =====
-- The capabilities of a task, crates/zenus-sched/src/caps.rs. A set is its bits; a bit is read and cleared from the
-- lowest up.
use zenus.Base.{
  true, ℕ, zero, suc, ◌+◌, ◌-◌, ◌*◌, ◌/◌, ◌%◌, ◌^◌, ◌≡◌, ◌==◌, ltb, if◌then◌else◌, Bool, false, not,
  ◌&&◌, ◌||◌, List, [], ◌∷◌, arith, refl, Bool-cases, inl, inr, ap, ◌∙◌,
}

abbrev pub cap_count : ℕ
cap_count = 17

abbrev pub cap_kill : ℕ
cap_kill = 5

abbrev pub cap_setgid : ℕ
cap_setgid = 6

abbrev pub cap_setuid : ℕ
cap_setuid = 7

pub record CapSet : Type 0 where
  pub bits : ℕ

pub all : CapSet
all = record { bits = 2 ^ cap_count - 1 }

pub no_caps : CapSet
no_caps = record { bits = 0 }

-- Masking the low bits is a remainder.
pub from_bits : ℕ → CapSet
from_bits bits = record { bits = bits % 2 ^ cap_count }

-- `(bits >> cap) & 1 == 1`
unfoldable pub bit : ℕ → ℕ → Bool
bit bits zero = bits % 2 == 1
bit bits (suc cap) = bit (bits / 2) cap

-- `bits & !(1 << cap)`
unfoldable pub clear : ℕ → ℕ → ℕ
clear bits zero = bits - bits % 2
clear bits (suc cap) = bits % 2 + 2 * clear (bits / 2) cap

-- `bits | (1 << cap)`
unfoldable pub with_bit : ℕ → ℕ → ℕ
with_bit bits zero = bits - bits % 2 + 1
with_bit bits (suc cap) = bits % 2 + 2 * with_bit (bits / 2) cap

pub has : CapSet → ℕ → Bool
unfolding bit
has set cap = ltb cap cap_count && bit set.bits cap

pub without : CapSet → ℕ → CapSet
unfolding clear
without set cap = if ltb cap cap_count then record { bits = clear set.bits cap } else set

pub may_set_uid : ℕ → CapSet → ℕ → Bool
unfolding has
may_set_uid euid caps new_uid = new_uid == euid || has caps cap_setuid

pub may_set_gid : ℕ → CapSet → ℕ → Bool
unfolding has
may_set_gid egid caps new_gid = new_gid == egid || has caps cap_setgid

pub may_kill : ℕ → CapSet → ℕ → Bool
unfolding has
may_kill uid caps target_uid = target_uid == uid || has caps cap_kill

pub bit-clear :
    (bits cap other : ℕ) → bit (clear bits cap) other ≡ (bit bits other && not (other == cap))
unfolding bit clear
bit-clear bits zero zero = ground arith
bit-clear bits zero (suc other) =
    ap (λ n. bit n other) (halved bits) ∙ ground (arith, same_but bits other)
  where
    halved : (n : ℕ) → (n - n % 2) / 2 ≡ n / 2
    halved n = omega arith

    same_but : (n other : ℕ) → (suc other == 0) ≡ false
    same_but n other = ground arith
bit-clear bits (suc cap) zero = ground arith
bit-clear bits (suc cap) (suc other) =
    ap (λ n. bit n other) (halved bits (clear (bits / 2) cap))
    ∙ bit-clear (bits / 2) cap other
    ∙ ap (λ b. bit (bits / 2) other && not b) (one_up cap other)
  where
    one_up : (cap other : ℕ) → (other == cap) ≡ (suc other == suc cap)
    one_up cap other = ground arith

    halved : (n m : ℕ) → (n % 2 + 2 * m) / 2 ≡ m
    halved n m = omega arith

pub bit-with_bit :
    (bits cap other : ℕ) → bit bits other ≡ true → bit (with_bit bits cap) other ≡ true
unfolding bit with_bit
bit-with_bit bits zero zero h = ground arith
bit-with_bit bits zero (suc other) h = ap (λ n. bit n other) (halved bits) ∙ h
  where
    halved : (n : ℕ) → (n - n % 2 + 1) / 2 ≡ n / 2
    halved n = omega arith
bit-with_bit bits (suc cap) zero h = ground (arith, h)
bit-with_bit bits (suc cap) (suc other) h =
    ap (λ n. bit n other) (halved bits (with_bit (bits / 2) cap))
    ∙ bit-with_bit (bits / 2) cap other h
  where
    halved : (n m : ℕ) → (n % 2 + 2 * m) / 2 ≡ m
    halved n m = omega arith

-- Dropping a capability takes that one out of the set and no other.
has-without :
    (set : CapSet) (cap other : ℕ)
    → has (without set cap) other ≡ (has set other && not (other == cap))
unfolding has without
has-without set cap other = elim (Bool-cases (ltb cap cap_count)) [
  | inl b ↦ rw b (ground (arith, bit-clear set.bits cap other))
  | inr b ↦ rw b (ground (arith, b))
]

-- `without`, one capability after the other.
pub drops : CapSet → List ℕ → CapSet
unfolding without
drops set [] = set
drops set (cap ∷ caps) = drops (without set cap) caps

abbrev pub listed : List ℕ → ℕ → Bool
listed [] cap = false
listed (c ∷ caps) cap = cap == c || listed caps cap

has-drops_each :
    (set : CapSet) (caps : List ℕ) (other : ℕ)
    → has (drops set caps) other ≡ (has set other && not (listed caps other))
unfolding drops
has-drops_each set [] other = ground arith
has-drops_each set (cap ∷ caps) other =
    ground (arith, has-drops_each (without set cap) caps other, has-without set cap other)

-- After any sequence of drops a task holds exactly the capabilities that it held and that were not dropped; so
-- it may change to another uid, or signal a task of another uid, exactly if it could and did not drop the
-- right to, and to its own always.
pub has-drops :
    (set : CapSet) (caps : List ℕ) (other uid target : ℕ)
    → (has (drops set caps) other ≡ (has set other && not (listed caps other)))
      × (may_set_uid uid (drops set caps) target
          ≡ (target == uid || (has set cap_setuid && not (listed caps cap_setuid))))
      × (may_kill uid (drops set caps) target
          ≡ (target == uid || (has set cap_kill && not (listed caps cap_kill))))
unfolding may_set_uid may_kill
has-drops set caps other uid target = (
  has-drops_each set caps other,
  rw (has-drops_each set caps cap_setuid) refl,
  rw (has-drops_each set caps cap_kill) refl,
)
