-- ===== src/Ns/Pid/Register.antt =====
-- What `register_task` of crates/zenus-ns/src/pid.rs does to a namespace.
use zenus.Base.{
  ℕ, suc, ◌+◌, ◌^◌, ◌≡◌, ◌≢◌, ◌<◌, ◌≤◌, ◌==◌, Option, none, some, List, [], ◌∷◌, ◌++◌, length, set,
  take, All, arith, refl, sym, ◌∙◌, ap, subst, take-set_self, length-set, All-append, leb, add64,
  false, if◌then◌else◌,
}
use zenus.Ns.Pid.{PidEntry, PidNamespace, max_entries, live, register_in, find_local, global_tid_in}

-- The entry is in use and its number was handed out.
abbrev pub Issued : ℕ → Option PidEntry → Type 0
Issued next none = ⊥
Issued next (some e) = e.local_pid < next

pub record IsValid (ns : PidNamespace) : Type 0 where
  pub slots : length ns.entries ≡ max_entries
  pub fits : ns.entry_count ≤ max_entries
  pub issued : All (Issued ns.next_local_pid) (live ns)

pub record Registered (ns : PidNamespace) (tid : ℕ) (out : Option ℕ × PidNamespace) : Type 0 where
  pub pid : out.0 ≡ some ns.next_local_pid
  pub unused : global_tid_in ns ns.next_local_pid ≡ none
  pub found : global_tid_in out.1 ns.next_local_pid ≡ some tid
  pub others : (q : ℕ) → q ≢ ns.next_local_pid → global_tid_in out.1 q ≡ global_tid_in ns q
  pub keeps : IsValid out.1

find_local-fresh :
    (es : List (Option PidEntry)) (next : ℕ) → All (Issued next) es → find_local es next ≡ none
unfolding find_local
find_local-fresh [] next a = refl
find_local-fresh (none ∷ es) next a = find_local-fresh es next a.1
find_local-fresh (some e ∷ es) next a = ground (arith, a.0, find_local-fresh es next a.1)

find_local-last :
    (es : List (Option PidEntry)) (e : PidEntry)
    → find_local es e.local_pid ≡ none
    → find_local (es ++ (some e ∷ [])) e.local_pid ≡ some e.global_tid
unfolding find_local
find_local-last [] e h = ground arith
find_local-last (none ∷ es) e h = find_local-last es e h
find_local-last (some x ∷ es) e h = ground (arith, find_local-last es e)

find_local-others :
    (es : List (Option PidEntry)) (e : PidEntry) (q : ℕ)
    → q ≢ e.local_pid
    → find_local (es ++ (some e ∷ [])) q ≡ find_local es q
unfolding find_local
find_local-others [] e q n = ground arith
find_local-others (none ∷ es) e q n = find_local-others es e q n
find_local-others (some x ∷ es) e q n =
    ap (λ r. if x.local_pid == q then some x.global_tid else r) (find_local-others es e q n)

Issued-more :
    (es : List (Option PidEntry)) (m n : ℕ) → m ≤ n → All (Issued m) es → All (Issued n) es
Issued-more [] m n l a = tt
Issued-more (none ∷ es) m n l a = absurd a.0
Issued-more (some e ∷ es) m n l a = (omega (arith, a.0), Issued-more es m n l a.1)

-- On a valid namespace with a free entry whose counter does not wrap, `register_in` returns the
-- number of the counter. No task had it, the new task is found by it, every other number finds
-- what it found before, and the namespace stays valid.
pub register_in-Registered :
    (ns : PidNamespace) (tid : ℕ)
    → IsValid ns
    → ns.entry_count < max_entries
    → ns.next_local_pid + 1 < 2 ^ 64
    → Registered ns tid (register_in ns tid)
unfolding register_in
register_in-Registered ns tid v h w =
    let e : PidEntry = record { local_pid = ns.next_local_pid; global_tid = tid } in
    let fresh = find_local-fresh (live ns) ns.next_local_pid v.issued in
    let k : ns.entry_count + 1 ≡ suc ns.entry_count = omega arith in
    let l =
      ap (λ n. take n (set ns.entries ns.entry_count (some e))) k
      ∙ take-set_self ns.entry_count ns.entries (some e) (omega (arith, v.slots)) in
    let c : leb max_entries ns.entry_count ≡ false = ground arith in
    let s : add64 ns.next_local_pid 1 ≡ ns.next_local_pid + 1 = ground arith in
    rw c (record {
      pid = refl;
      unused = fresh;
      found = ap (λ es. find_local es ns.next_local_pid) l ∙ find_local-last (live ns) e fresh;
      others = λ q n. ap (λ es. find_local es q) l ∙ find_local-others (live ns) e q n;
      keeps = record {
        slots = length-set ns.entries ns.entry_count (some e) ∙ v.slots;
        fits = omega arith;
        issued =
            subst
              (λ m.
                All (Issued m) (take (ns.entry_count + 1) (set ns.entries ns.entry_count (some e))))
              (sym s)
              (subst (All (Issued (ns.next_local_pid + 1))) (sym l) (
                All-append (Issued (ns.next_local_pid + 1)) (live ns) (some e ∷ [])
                  (Issued-more (live ns) ns.next_local_pid (ns.next_local_pid + 1) (omega arith)
                    v.issued)
                  (omega arith, tt)));
      };
    })
