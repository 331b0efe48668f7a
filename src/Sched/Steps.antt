-- ===== src/Sched/Steps.antt =====
-- Every scheduler operation of kernel/proc.c keeps at most one process running.
use siathos.Prelude.{
  ℕ, ◌≡◌, inl, inr, refl, Bool, true, false, Option, none, some, arith, ◌==◌, Bool-cases,
}
use siathos.Proc.{ProcState, ready, blocked, is_running, Table, set_state}
use siathos.Sched.{
  gc_table, state_at, set_at, set_back, next_of, yield_to, yield_when, sched_yield, preempt_to,
  preempt_when, preempt_pick, block_to, block_at, sched_block,
}
use siathos.Sched.Single.{
  IsSingle, IsIdle, set_at-IsIdle, set_state-IsIdle, switch_to-IsSingle, run_current-IsSingle,
  set_at_running-IsSingle, gc-IsSingle,
}

-- Where the current process does not run, none runs.
IsIdle-of_current :
    (t : Table) → IsSingle t → state_at t.current t.procs is_running ≡ false → IsIdle t.procs
IsIdle-of_current t s off j r = let (p, g, there, runs) = r in ground (arith, s.one j r)

set_back-IsIdle : (t : Table) → IsSingle t → IsIdle (set_back t).procs
set_back-IsIdle t s = elim (Bool-cases (state_at t.current t.procs is_running)) [
  | inl on ↦ rw on (set_at-IsIdle t t.current ready refl (λ h. cc) s)
  | inr off ↦ rw off (IsIdle-of_current t s off)
]

set_at-pointers :
    (t : Table) (c : Option ℕ) (st : ProcState)
    → ((set_at c st t).current ≡ t.current) × ((set_at c st t).current_index ≡ t.current_index)
set_at-pointers t none st = (refl, refl)
set_at-pointers t (some c) st = (refl, refl)

set_back-pointers :
    (t : Table)
    → ((set_back t).current ≡ t.current) × ((set_back t).current_index ≡ t.current_index)
set_back-pointers t = ground (arith, set_at-pointers t t.current ready)

yield_to-IsSingle :
    (t : Table) (c next : Option ℕ)
    → t.current ≡ c
    → ((i : ℕ) → t.current ≡ some i → i ≡ t.current_index)
    → IsIdle t.procs
    → IsSingle (yield_to c next t)
yield_to-IsSingle t c none e index idle = set_at_running-IsSingle t c e index idle
yield_to-IsSingle t none (some i) e index idle = switch_to-IsSingle t i idle
yield_to-IsSingle t (some c) (some i) e index idle = elim (Bool-cases (c == i)) [
  | inl same ↦ rw same (run_current-IsSingle t c e (index c e) idle)
  | inr other ↦
      rw other
        (switch_to-IsSingle (set_state t c ready) i (set_state-IsIdle t c ready (λ h. cc) idle))
]

yield_when-IsSingle : (on : Bool) (t : Table) → IsSingle t → IsSingle (yield_when on t)
yield_when-IsSingle false t s = s
yield_when-IsSingle true t s =
    yield_to-IsSingle (set_back t) (set_back t).current (next_of (set_back t)) refl
      (λ i e. ground (arith, set_back-pointers t, s.index i)) (set_back-IsIdle t s)

pub sched_yield-IsSingle : (active : ℕ) (t : Table) → IsSingle t → IsSingle (sched_yield active t)
unfolding sched_yield
sched_yield-IsSingle active t s =
    yield_when-IsSingle t.scheduler_running (gc_table active t) (gc-IsSingle active t s)

preempt_to-IsSingle :
    (t : Table) (next : Option ℕ)
    → ((i : ℕ) → t.current ≡ some i → i ≡ t.current_index)
    → IsIdle t.procs
    → IsSingle (preempt_to next t).1
preempt_to-IsSingle t none index idle = set_at_running-IsSingle t t.current refl index idle
preempt_to-IsSingle t (some i) index idle = elim (Bool-cases (i == t.current_index)) [
  | inl same ↦ rw same (set_at_running-IsSingle t t.current refl index idle)
  | inr other ↦ rw other (switch_to-IsSingle t i idle)
]

preempt_when-IsSingle : (on : Bool) (t : Table) → IsSingle t → IsSingle (preempt_when on t).1
preempt_when-IsSingle false t s = s
preempt_when-IsSingle true t s =
    let back = set_at t.current ready t in
    preempt_to-IsSingle back (next_of back)
      (λ i e. ground (arith, set_at-pointers t t.current ready, s.index i))
      (set_at-IsIdle t t.current ready refl (λ h. cc) s)

pub preempt_pick-IsSingle :
    (active : ℕ) (t : Table) → IsSingle t → IsSingle (preempt_pick active t).1
unfolding preempt_pick
preempt_pick-IsSingle active t s = preempt_when-IsSingle _ _ (gc-IsSingle active t s)

block_to-IsSingle :
    (t : Table) (c : ℕ) (next : Option ℕ)
    → t.current ≡ some c
    → c ≡ t.current_index
    → IsIdle t.procs
    → IsSingle (block_to c next t).1
block_to-IsSingle t c none e same idle = run_current-IsSingle t c e same idle
block_to-IsSingle t c (some i) e same idle = switch_to-IsSingle t i idle

block_at-IsSingle :
    (t : Table) (c : Option ℕ) → t.current ≡ c → IsSingle t → IsSingle (block_at c t).1
block_at-IsSingle t none e s = s
block_at-IsSingle t (some c) e s =
    block_to-IsSingle (set_state t c blocked) c (next_of (set_state t c blocked)) e (s.index c e)
      (set_at-IsIdle t (some c) blocked e (λ h. cc) s)

pub sched_block-IsSingle : (t : Table) → IsSingle t → IsSingle (sched_block t).1
unfolding sched_block
sched_block-IsSingle t s = block_at-IsSingle t t.current refl s
