-- ===== src/Sched/Signals.antt =====
-- Pending signals and their delivery to a handler, crates/zenus-sched/src/signal.rs and
-- `check_and_deliver_signal` of crates/zenus-sched/src/scheduler.rs, for the task that it finds. Whether an address is
-- mapped is an argument; the frame that is written to the user's stack is left out.
use zenus.Base.{
  ℕ, ◌*◌, ◌/◌, ◌%◌, ◌≡◌, ◌≢◌, ◌<◌, ◌==◌, if◌then◌else◌, Bool, true, false, not, ◌&&◌, ◌||◌, Option,
  none, some, List, [], ◌∷◌, get_or, arith, refl, Bool-cases, inl, inr, ap, sym, ◌∙◌, sub64,
}
use zenus.Sched.{Task, scan}
use zenus.Sched.Scan.{scan-some, scan_finds}
use zenus.Sched.Caps.{bit, bit-clear, clear, with_bit}

abbrev pub sig_max : ℕ
sig_max = 64

pub data SignalDisposition : Type 0 where
  terminate : SignalDisposition
  core : SignalDisposition
  stop : SignalDisposition
  continue : SignalDisposition
  ignore : SignalDisposition
  handler : SignalDisposition

abbrev pub one_of : List ℕ → ℕ → Bool
one_of [] sig = false
one_of (s ∷ ss) sig = s == sig || one_of ss sig

pub default_action : ℕ → SignalDisposition
default_action sig =
    if one_of (1 ∷ 2 ∷ 9 ∷ 13 ∷ 14 ∷ 15 ∷ []) sig
    then terminate
    else if one_of (3 ∷ 4 ∷ 5 ∷ 6 ∷ 7 ∷ 8 ∷ 11 ∷ []) sig
    then core
    else if one_of (19 ∷ 20 ∷ 21 ∷ 22 ∷ []) sig
    then stop
    else if sig == 18
    then continue
    else ignore

-- The handler of a signal, 0 for none.
unfoldable pub handler_of : Task → ℕ → ℕ
handler_of task sig = get_or task.signal_handlers sig 0

-- `(pending_signals & !signal_mask) >> sig & 1`
unfoldable pub pending_at : Task → ℕ → Bool
unfolding bit
pending_at task sig = bit task.pending_signals sig && not (bit task.signal_mask sig)

-- `trailing_zeros`: the lowest of the 64 bits.
unfoldable pub next_signal : Task → Option ℕ
unfolding scan pending_at
next_signal task = scan (pending_at task) 0 sig_max

abbrev pub with_disposition : Task → Option ℕ → Option (ℕ × SignalDisposition)
with_disposition task none = none
with_disposition task (some sig) =
    some (sig, (if handler_of task sig == 0 then default_action sig else handler))

pub check_pending : Task → Option (ℕ × SignalDisposition)
unfolding next_signal handler_of default_action
check_pending task = with_disposition task (next_signal task)

-- The frame is 21 words; `& !0xF` rounds down to 16.
abbrev pub frame_rsp : ℕ → ℕ
frame_rsp user_rsp = sub64 user_rsp 168 / 16 * 16

pub setup_signal_frame : (ℕ → Bool) → Task → ℕ → ℕ → Option ℕ × Task
unfolding handler_of clear
setup_signal_frame mapped task sig user_rsp =
    if handler_of task sig == 0 || not (mapped (frame_rsp user_rsp)) then (none, task) else (
      some (frame_rsp user_rsp),
      record task { pending_signals = clear task.pending_signals sig },
    )

-- The new stack pointer, the handler, and the flags with the trap flag cleared.
abbrev pub redirected : ℕ → ℕ → Option ℕ → Option (ℕ × ℕ × ℕ)
redirected handler_fn user_rflags none = none
redirected handler_fn user_rflags (some rsp) = some (rsp, handler_fn, clear user_rflags 8)

pub check_and_deliver_signal : (ℕ → Bool) → Task → ℕ → ℕ → Option (ℕ × ℕ × ℕ) × Task
unfolding check_pending setup_signal_frame handler_of clear
check_and_deliver_signal mapped task user_rsp user_rflags = elim (check_pending task) [
  | none ↦ (none, task)
  | some (sig, disposition) ↦
      let (rsp, task') = setup_signal_frame mapped task sig user_rsp in
      (redirected (handler_of task sig) user_rflags rsp, task')
]

-- With a lowest pending signal the delivery is that signal's.
check_and_deliver_signal-setup_signal_frame :
    (mapped : ℕ → Bool) (task : Task) (user_rsp user_rflags sig : ℕ)
    → next_signal task ≡ some sig
    → check_and_deliver_signal mapped task user_rsp user_rflags ≡ (
      redirected (handler_of task sig) user_rflags (setup_signal_frame mapped task sig user_rsp).0,
      (setup_signal_frame mapped task sig user_rsp).1,
    )
unfolding check_pending check_and_deliver_signal
check_and_deliver_signal-setup_signal_frame mapped task user_rsp user_rflags sig e =
    rw (e, check_and_deliver_signal) refl

unhandled :
    (mapped : ℕ → Bool) (task : Task) (user_rsp user_rflags sig : ℕ)
    → next_signal task ≡ some sig
    → handler_of task sig ≡ 0
    → check_and_deliver_signal mapped task user_rsp user_rflags ≡ (none, task)
unfolding setup_signal_frame
unhandled mapped task user_rsp user_rflags sig e h =
    check_and_deliver_signal-setup_signal_frame mapped task user_rsp user_rflags sig e ∙ rw h refl

none_lower :
    (task : Task) (sig lower : ℕ)
    → next_signal task ≡ some sig
    → lower < sig
    → pending_at task lower ≡ false
unfolding next_signal
none_lower task sig lower e l = elim (Bool-cases (pending_at task lower)) [
  | inr b ↦ b
  | inl b ↦
      let (_, u, _) = scan-some (pending_at task) 0 sig_max sig e in
      let (i, f, k) =
        scan_finds (pending_at task) 0 sig_max lower (omega arith) (omega (arith, l, u)) b in
      ground (arith, sym e ∙ f, k, l)
]

pending_at-clear :
    (task : Task) (sig k : ℕ)
    → pending_at (record task { pending_signals = clear task.pending_signals sig }) k
      ≡ (pending_at task k && not (k == sig))
unfolding pending_at
pending_at-clear task sig k = rw (bit-clear task.pending_signals sig k) (ground arith)

-- With a signal pending that is not masked: where the lowest such signal has a handler and the frame's
-- address is mapped, that handler is started on a stack pointer that is a multiple of 16, this signal is no longer
-- pending, every other is as before, and no lower signal was pending and not masked.
pub check_and_deliver_signal-next_signal :
    (mapped : ℕ → Bool) (task : Task) (user_rsp user_rflags sig other lower : ℕ)
    → next_signal task ≡ some sig
    → handler_of task sig ≢ 0
    → mapped (frame_rsp user_rsp) ≡ true
    → other ≢ sig
    → lower < sig
    → let (result, task') = check_and_deliver_signal mapped task user_rsp user_rflags in
      (result ≡ some (frame_rsp user_rsp, handler_of task sig, clear user_rflags 8))
      × (frame_rsp user_rsp % 16 ≡ 0)
      × (pending_at task' sig ≡ false)
      × (pending_at task' other ≡ pending_at task other)
      × (pending_at task lower ≡ false)
unfolding setup_signal_frame
check_and_deliver_signal-next_signal mapped task user_rsp user_rflags sig other lower e h m o l =
    let s = check_and_deliver_signal-setup_signal_frame mapped task user_rsp user_rflags sig e in
    let h' : (handler_of task sig == 0) ≡ false = ground (arith, h) in
    let r : setup_signal_frame mapped task sig user_rsp ≡ (
      some (frame_rsp user_rsp),
      record task { pending_signals = clear task.pending_signals sig },
    ) =
      rw h' (rw m refl) in
    let t : (check_and_deliver_signal mapped task user_rsp user_rflags).1
        ≡ record task { pending_signals = clear task.pending_signals sig } =
      ap (λ p. p.1) s ∙ ap (λ p. p.1) r in
    (
      ap (λ p. p.0) s ∙ ap (λ p. redirected (handler_of task sig) user_rflags p.0) r,
      omega arith,
      ap (λ u. pending_at u sig) t ∙ cleared sig ∙ ground arith,
      ap (λ u. pending_at u other) t ∙ cleared other ∙ kept (pending_at task other),
      none_lower task sig lower e l,
    )
  where
    cleared :
        (k : ℕ)
        → pending_at (record task { pending_signals = clear task.pending_signals sig }) k
          ≡ (pending_at task k && not (k == sig))
    cleared k = pending_at-clear task sig k

    kept : (b : Bool) → (b && not (other == sig)) ≡ b
    kept b = ground (arith, o)

-- What happens to a task: a signal arrives, or it is about to return to its program.
pub data Event : Type 0 where
  arrive : ℕ → Event
  attempt : ℕ → ℕ → Event

-- The handler that an attempt started, in front of the later ones.
abbrev pub note : Option (ℕ × ℕ × ℕ) → List ℕ → List ℕ
note none hs = hs
note (some (rsp, handler_fn, flags)) hs = handler_fn ∷ hs

-- The handlers that are started, and the task at the end.
pub run : (ℕ → Bool) → Task → List Event → List ℕ × Task
unfolding with_bit check_and_deliver_signal
run mapped task [] = ([], task)
run mapped task (arrive sig ∷ es) =
    run mapped (record task { pending_signals = with_bit task.pending_signals sig }) es
run mapped task (attempt user_rsp user_rflags ∷ es) =
    let (result, task') = check_and_deliver_signal mapped task user_rsp user_rflags in
    let (hs, last) = run mapped task' es in (note result hs, last)

-- A handler of a signal below `sig`.
abbrev pub Below : List ℕ → ℕ → ℕ → Type 0
Below handlers sig h = (k : ℕ) × (k < sig) × (get_or handlers k 0 ≡ h)

record Blocked (handlers : List ℕ) (sig : ℕ) (task : Task) : Type 0 where
  same : task.signal_handlers ≡ handlers
  pending : pending_at task sig ≡ true
