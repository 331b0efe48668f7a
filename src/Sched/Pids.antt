-- ===== src/Sched/Pids.antt =====
-- No scheduler operation gives a slot a pid: processes keep theirs, or go.
use mathlib.Core.Option.{some-injective}
use siathos.Prelude.{
  ℕ, ◌≡◌, inl, inr, refl, subst, ◌∙◌, Bool, true, false, Option, none, some, List, arith, ◌==◌,
  Bool-cases, get_elem?, modify, get_elem?-modify-some,
}
use siathos.Proc.{
  ProcState, ready, running, blocked, terminated, is_running, is_blocked, Process, Table, proc_get,
  set_state,
}
use siathos.Sched.{
  gc_table, set_at, switch_to, set_back, next_of, yield_to, yield_when, sched_yield, preempt_to,
  preempt_when, preempt_pick, block_to, block_at, sched_block, wake, sched_wakeup, state_at,
}
use siathos.Sched.Collect.{gc-get}
use siathos.Sched.Exit.{tell_at, tell_parent, leave_to, end_slot, exit_at, exit_current, proc_exit}

-- Slot `j` holds a process with pid `n`.
abbrev pub HasPid : List Process → ℕ → ℕ → Type 0
HasPid ps j n = (p : Process) × (get_elem? ps j ≡ some p) × (p.present ≡ true) × (p.pid ≡ n)

pub record Narrows (t u : Table) : Type 0 where
  pub next : u.next_pid ≡ t.next_pid
  pub pids : (j n : ℕ) → HasPid u.procs j n → HasPid t.procs j n

Narrows-refl : (t : Table) → Narrows t t
Narrows-refl t = record { next = refl; pids = λ j n h. h }

Narrows-trans : (t u v : Table) → Narrows t u → Narrows u v → Narrows t v
Narrows-trans t u v a b = record {
  next = b.next ∙ a.next;
  pids = λ j n h. a.pids j n (b.pids j n h);
}

HasPid-modify :
    (ps : List Process) (i : ℕ) (f : Process → Process)
    → ((p : Process) → ((f p).pid ≡ p.pid) × ((f p).present ≡ p.present))
    → (j n : ℕ) → HasPid (modify ps i f) j n
    → HasPid ps j n
HasPid-modify ps i f same j n (b, g, there, e) =
    let (a, h, k) = get_elem?-modify-some ps i j f b g in
    (a, h, ground (arith, same a), ground (arith, same a))

set_state-Narrows : (t : Table) (i : ℕ) (st : ProcState) → Narrows t (set_state t i st)
set_state-Narrows t i st = record {
  next = refl;
  pids = HasPid-modify t.procs i (λ p. record p { state = st }) (λ p. (refl, refl));
}

set_at-Narrows : (t : Table) (c : Option ℕ) (st : ProcState) → Narrows t (set_at c st t)
set_at-Narrows t none st = Narrows-refl t
set_at-Narrows t (some c) st = set_state-Narrows t c st

switch_to-Narrows : (t : Table) (i : ℕ) → Narrows t (switch_to t i)
switch_to-Narrows t i = record { next = refl; pids = (set_state-Narrows t i running).pids }

gc-Narrows : (active : ℕ) (t : Table) → Narrows t (gc_table active t)
gc-Narrows active t = record {
  next = refl;
  pids = λ j n (q, g, there, e).
      let (p, h, k) = gc-get active t.procs j q g in (p, h, ground arith, ground arith);
}

set_back-Narrows : (t : Table) → Narrows t (set_back t)
set_back-Narrows t = elim (Bool-cases (state_at t.current t.procs is_running)) [
  | inl on ↦ rw on (set_at-Narrows t t.current ready)
  | inr off ↦ rw off (Narrows-refl t)
]

yield_to-Narrows : (c next : Option ℕ) (t : Table) → Narrows t (yield_to c next t)
yield_to-Narrows c none t = set_at-Narrows t c running
yield_to-Narrows none (some i) t = switch_to-Narrows t i
yield_to-Narrows (some c) (some i) t = elim (Bool-cases (c == i)) [
  | inl same ↦ rw same (set_state-Narrows t c running)
  | inr other ↦ rw other (
      Narrows-trans t (set_state t c ready) (switch_to (set_state t c ready) i)
        (set_state-Narrows t c ready) (switch_to-Narrows (set_state t c ready) i))
]

yield_when-Narrows : (on : Bool) (t : Table) → Narrows t (yield_when on t)
yield_when-Narrows false t = Narrows-refl t
yield_when-Narrows true t =
    Narrows-trans t (set_back t) (yield_when true t) (set_back-Narrows t)
      (yield_to-Narrows (set_back t).current (next_of (set_back t)) (set_back t))

pub sched_yield-Narrows : (active : ℕ) (t : Table) → Narrows t (sched_yield active t)
unfolding sched_yield
sched_yield-Narrows active t =
    Narrows-trans t (gc_table active t) (sched_yield active t) (gc-Narrows active t)
      (yield_when-Narrows t.scheduler_running (gc_table active t))

preempt_to-Narrows : (next : Option ℕ) (t : Table) → Narrows t (preempt_to next t).1
preempt_to-Narrows none t = set_at-Narrows t t.current running
preempt_to-Narrows (some i) t = elim (Bool-cases (i == t.current_index)) [
  | inl same ↦ rw same (set_at-Narrows t t.current running)
  | inr other ↦ rw other (switch_to-Narrows t i)
]

preempt_when-Narrows : (on : Bool) (t : Table) → Narrows t (preempt_when on t).1
preempt_when-Narrows false t = Narrows-refl t
preempt_when-Narrows true t =
    let back = set_at t.current ready t in
    Narrows-trans t back (preempt_when true t).1 (set_at-Narrows t t.current ready)
      (preempt_to-Narrows (next_of back) back)

pub preempt_pick-Narrows : (active : ℕ) (t : Table) → Narrows t (preempt_pick active t).1
unfolding preempt_pick
preempt_pick-Narrows active t =
    Narrows-trans t (gc_table active t) (preempt_pick active t).1 (gc-Narrows active t)
      (preempt_when-Narrows _ (gc_table active t))

block_to-Narrows : (c : ℕ) (next : Option ℕ) (t : Table) → Narrows t (block_to c next t).1
block_to-Narrows c none t = set_state-Narrows t c running
block_to-Narrows c (some i) t = switch_to-Narrows t i

block_at-Narrows : (c : Option ℕ) (t : Table) → Narrows t (block_at c t).1
block_at-Narrows none t = Narrows-refl t
block_at-Narrows (some c) t =
    let asleep = set_state t c blocked in
    Narrows-trans t asleep (block_at (some c) t).1 (set_state-Narrows t c blocked)
      (block_to-Narrows c (next_of asleep) asleep)

pub sched_block-Narrows : (t : Table) → Narrows t (sched_block t).1
unfolding sched_block
sched_block-Narrows t = block_at-Narrows t.current t

wake-Narrows : (w : Option (ℕ × Process)) (t : Table) → Narrows t (wake w t)
wake-Narrows none t = Narrows-refl t
wake-Narrows (some (i, p)) t = elim (Bool-cases (is_blocked p.state)) [
  | inl on ↦ rw on (record {
    next = refl;
    pids =
        HasPid-modify t.procs i (λ q. record q { state = ready; blocked_on = 0 })
          (λ q. (refl, refl));
  })
  | inr off ↦ rw off (Narrows-refl t)
]

pub sched_wakeup-Narrows : (t : Table) (pid : ℕ) → Narrows t (sched_wakeup t pid)
unfolding sched_wakeup
sched_wakeup-Narrows t pid = wake-Narrows (proc_get t.procs pid) t

tell_at-Narrows :
    (k : Option (ℕ × Process)) (code : ℕ) (p : Process) (t : Table) → Narrows t (tell_at k code p t)
tell_at-Narrows none code p t = Narrows-refl t
tell_at-Narrows (some (k, p')) code p t =
    Narrows-trans t
      (record t { procs = modify t.procs k (λ q. record q { wait_pid = p.pid; wait_code = code }) })
      (tell_at (some (k, p')) code p t)
      (record {
        next = refl;
        pids =
            HasPid-modify t.procs k (λ q. record q { wait_pid = p.pid; wait_code = code })
              (λ q. (refl, refl));
      })
      (sched_wakeup-Narrows _ p.parent)

leave_to-Narrows : (next : Option ℕ) (t u : Table) → leave_to next t ≡ some u → Narrows t u
leave_to-Narrows none t u e = absurd (ground arith)
leave_to-Narrows (some i) t u e = subst (Narrows t) (some-injective _ _ e) (switch_to-Narrows t i)

exit_at-Narrows :
    (code c : ℕ) (p : Option Process) (t u : Table) → exit_at code c p t ≡ some u → Narrows t u
unfolding tell_parent
exit_at-Narrows code c none t u e = absurd (ground arith)
exit_at-Narrows code c (some p) t u e =
    let told = tell_parent code p t in
    let left = end_slot code c told in
    Narrows-trans t told u (tell_at-Narrows (proc_get t.procs p.parent) code p t) (
      Narrows-trans told left u
        (record {
          next = refl;
          pids =
              HasPid-modify told.procs c (λ q. record q { exit_code = code; state = terminated })
                (λ q. (refl, refl));
        })
        (leave_to-Narrows (next_of left) left u e))

exit_current-Narrows :
    (code : ℕ) (c : Option ℕ) (t u : Table) → exit_current code c t ≡ some u → Narrows t u
exit_current-Narrows code none t u e = absurd (ground arith)
exit_current-Narrows code (some c) t u e = exit_at-Narrows code c (get_elem? t.procs c) t u e

pub proc_exit-Narrows : (code : ℕ) (t u : Table) → proc_exit code t ≡ some u → Narrows t u
unfolding proc_exit
proc_exit-Narrows code t u e = exit_current-Narrows code t.current t u e
