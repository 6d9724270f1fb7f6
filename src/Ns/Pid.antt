-- ===== src/Ns/Pid.antt =====
-- The PID namespaces, crates/zenus-ns/src/pid.rs. Namespace ids come from a counter of the crate and
-- are an argument of `create`.
pub mod Register
mod Tests
use zenus.Base.{
  ℕ, zero, suc, ◌+◌, ◌-◌, ◌==◌, leb, if◌then◌else◌, Bool, true, false, Option, none, some, List, [],
  ◌∷◌, get_or, set, take, replicate, add64,
}

abbrev pub max_pid_namespaces : ℕ
max_pid_namespaces = 16

-- The length of `entries`.
abbrev pub max_entries : ℕ
max_entries = 64

pub record PidEntry : Type 0 where
  pub local_pid : ℕ
  pub global_tid : ℕ

pub record PidNamespace : Type 0 where
  pub id : ℕ
  pub next_local_pid : ℕ
  pub entries : List (Option PidEntry)
  pub entry_count : ℕ

abbrev pub new_namespace : ℕ → PidNamespace
new_namespace id = record {
  id = id;
  next_local_pid = 1;
  entries = replicate max_entries none;
  entry_count = 0;
}

pub record PidTable : Type 0 where
  pub namespaces : List (Option PidNamespace)
  pub count : ℕ

pub init : PidTable
init = record { namespaces = some (new_namespace 0) ∷ replicate 15 none; count = 1 }

pub create : PidTable → ℕ → Option ℕ × PidTable
create t id = if leb max_pid_namespaces t.count then (none, t) else (
  some id,
  record t { namespaces = set t.namespaces t.count (some (new_namespace id)); count = t.count + 1 },
)

pub index_of : List (Option PidNamespace) → ℕ → Option ℕ
index_of [] id = none
index_of (none ∷ ts) id = elim (index_of ts id) [ none ↦ none | some i ↦ some (suc i) ]
index_of (some ns ∷ ts) id =
    let rest = index_of ts id in
    if ns.id == id then some 0 else elim rest [ none ↦ none | some i ↦ some (suc i) ]

pub find_idx : PidTable → ℕ → Option ℕ
unfolding index_of
find_idx t id = index_of (take t.count t.namespaces) id

-- The namespace that `find_idx` and `as_mut` give, with its index.
pub find_namespace : PidTable → ℕ → Option (ℕ × PidNamespace)
unfolding find_idx
find_namespace t id = elim (find_idx t id) [
  | none ↦ none
  | some i ↦ elim (get_or t.namespaces i none) [ none ↦ none | some ns ↦ some (i, ns) ]
]

abbrev pub put_namespace : PidTable → ℕ → PidNamespace → PidTable
put_namespace t i ns = record t { namespaces = set t.namespaces i (some ns) }

abbrev pub live : PidNamespace → List (Option PidEntry)
live ns = take ns.entry_count ns.entries

-- What `register_task` does to the namespace.
pub register_in : PidNamespace → ℕ → Option ℕ × PidNamespace
register_in ns tid = if leb max_entries ns.entry_count then (none, ns) else (
  some ns.next_local_pid,
  record ns {
    next_local_pid = add64 ns.next_local_pid 1;
    entries =
        set ns.entries ns.entry_count
          (some (record { local_pid = ns.next_local_pid; global_tid = tid }));
    entry_count = ns.entry_count + 1;
  },
)

pub register_task : PidTable → ℕ → ℕ → Option ℕ × PidTable
unfolding find_namespace register_in
register_task t ns_id tid = elim (find_namespace t ns_id) [
  | none ↦ (none, t)
  | some (i, ns) ↦ let (pid, ns') = register_in ns tid in (pid, put_namespace t i ns')
]

pub find_local : List (Option PidEntry) → ℕ → Option ℕ
find_local [] pid = none
find_local (none ∷ es) pid = find_local es pid
find_local (some e ∷ es) pid =
    let rest = find_local es pid in if e.local_pid == pid then some e.global_tid else rest

abbrev pub global_tid_in : PidNamespace → ℕ → Option ℕ
global_tid_in ns pid = find_local (live ns) pid

pub global_tid : PidTable → ℕ → ℕ → Option ℕ
unfolding find_namespace find_local
global_tid t ns_id pid = elim (find_namespace t ns_id) [
  | none ↦ none
  | some (i, ns) ↦ global_tid_in ns pid
]

pub find_global : List (Option PidEntry) → ℕ → Option ℕ
find_global [] tid = none
find_global (none ∷ es) tid = find_global es tid
find_global (some e ∷ es) tid =
    let rest = find_global es tid in if e.global_tid == tid then some e.local_pid else rest

pub local_pid : PidTable → ℕ → ℕ → Option ℕ
unfolding find_namespace find_global
local_pid t ns_id tid = elim (find_namespace t ns_id) [
  | none ↦ none
  | some (i, ns) ↦ find_global (live ns) tid
]

pub index_of_task : List (Option PidEntry) → ℕ → Option ℕ
index_of_task [] tid = none
index_of_task (none ∷ es) tid = elim (index_of_task es tid) [ none ↦ none | some i ↦ some (suc i) ]
index_of_task (some e ∷ es) tid =
    let rest = index_of_task es tid in
    if e.global_tid == tid then some 0 else elim rest [ none ↦ none | some i ↦ some (suc i) ]

-- `for j in i..count - 1 { entries[j] = entries[j + 1].take() }`, with `n` rounds left.
pub shift_take : ℕ → ℕ → List (Option PidEntry) → List (Option PidEntry)
shift_take zero j es = es
shift_take (suc n) j es =
    shift_take n (j + 1) (set (set es j (get_or es (j + 1) none)) (j + 1) none)

pub unregister_in : PidNamespace → ℕ → PidNamespace
unfolding index_of_task shift_take
unregister_in ns tid = elim (index_of_task (live ns) tid) [
  | none ↦ ns
  | some i ↦ record ns {
    entries = shift_take (ns.entry_count - 1 - i) i (set ns.entries i none);
    entry_count = ns.entry_count - 1;
  }
]

pub unregister_task : PidTable → ℕ → ℕ → PidTable
unfolding find_namespace unregister_in
unregister_task t ns_id tid = elim (find_namespace t ns_id) [
  | none ↦ t
  | some (i, ns) ↦ put_namespace t i (unregister_in ns tid)
]
