-- ===== src/Net/Firewall/Check.antt =====
-- What `firewall_check` of crates/zenus-net/src/firewall.rs decides.
use zenus.Base.{
  ℕ, suc, ◌≡◌, ◌<◌, Option, none, some, [], ◌∷◌, length, get_or, set, take, All, arith, refl, ◌+◌,
  ◌%◌, ◌^◌, inl, inr, Bool-cases,
}
use zenus.Net.Firewall.{
  Conns, FirewallAction, FirewallRule, FirewallState, PacketInfo, Rules, accept, applies,
  check_rules, firewall_check, found_established,
}
use zenus.Net.Firewall.Applies.{Applies, applies-Applies, Applies-applies}

-- The slot is free or its rule does not apply.
abbrev pub Skipped : PacketInfo → Conns → Option FirewallRule → Type 0
Skipped p cs none = Unit
Skipped p cs (some r) = ¬ Applies p cs r

-- The first rule that applies decides, and its counter goes up; with none the packet is accepted.
pub data Decided (p : PacketInfo) (cs : Conns) (rs : Rules) : FirewallAction × Rules → Type 0 where
  unmatched : All (Skipped p cs) rs → Decided p cs rs (accept, rs)
  matched :
      (k : ℕ) (r : FirewallRule)
      → k < length rs
      → get_or rs k none ≡ some r
      → Applies p cs r
      → All (Skipped p cs) (take k rs)
      → Decided p cs rs (
        r.action,
        set rs k (some (record r { packets_matched = (r.packets_matched + 1) % 2 ^ 64 })),
      )

Decided-cons :
    (p : PacketInfo) (cs : Conns) (slot : Option FirewallRule) (rs : Rules)
    (out : FirewallAction × Rules)
    → Skipped p cs slot
    → Decided p cs rs out
    → Decided p cs (slot ∷ rs) (out.0, slot ∷ out.1)
Decided-cons p cs slot rs out s (unmatched a) = unmatched (s, a)
Decided-cons p cs slot rs out s (matched k r i f h a) = matched (suc k) r (omega arith) f h (s, a)

check_rules-Decided :
    (p : PacketInfo) (cs : Conns) (rs : Rules)
    → Decided p cs rs (check_rules p (found_established cs p) rs)
unfolding check_rules
check_rules-Decided p cs [] = unmatched tt
check_rules-Decided p cs (none ∷ rs) =
    Decided-cons p cs none rs (check_rules p (found_established cs p) rs) tt
      (check_rules-Decided p cs rs)
check_rules-Decided p cs (some r ∷ rs) = elim (Bool-cases (applies p (found_established cs p) r)) [
  | inl h ↦ rw h (matched 0 r (omega arith) refl (applies-Applies p cs r h) tt)
  | inr h ↦ rw h (
      Decided-cons p cs (some r) rs (check_rules p (found_established cs p) rs)
        (λ a. absurd (ground (arith, h, Applies-applies p cs r a))) (check_rules-Decided p cs rs))
]

-- `firewall_check` leaves the connections alone. The action is that of the first rule that applies,
-- whose counter goes up by one (a u64 that wraps); without such a rule it is to accept, and no rule
-- changes. A rule applies if it is enabled, is for any protocol or the packet's, agrees with both
-- addresses on the bits of its masks and, for TCP and UDP, with both ports that it names, and, where
-- it asks for an established connection, the packet's first connection in the table is past its
-- first packet.
pub firewall_check-Decided :
    (fw : FirewallState) (p : PacketInfo)
    → let (a, fw') = firewall_check fw p in
      Decided p fw.conns fw.rules (a, fw'.rules) × (fw'.conns ≡ fw.conns)
unfolding firewall_check
firewall_check-Decided fw p = (check_rules-Decided p fw.conns fw.rules, refl)
