-- ===== src/Sched.antt =====
-- The round-robin scheduler of kernel/proc.c. A function that ends in `context_switch` is modelled
-- up to the switch: the state is the one that the chosen process finds. Interrupt flags, the task
-- state segment and `g_isr_from` are left out; the process that leaves is the `current` before.
pub mod Exit
pub mod Scan
pub mod Collect
pub mod Single
pub mod Steps
pub mod Leaving
pub mod Pids
pub mod Runs
pub mod Fair
pub mod Waiting
pub mod Arrives
pub mod Late
pub mod Tests
use siathos.Prelude.{
  ℕ, zero, suc, ◌+◌, ◌%◌, Bool, true, false, not, ◌&&◌, ◌||◌, Option, none, some, List, [], ◌∷◌,
  ◌++◌, ◌==◌, ◌!=◌, if◌then◌else◌, get_elem?, modify,
}
use siathos.Proc.{
  ProcState, ready, running, blocked, terminated, is_ready, is_running, is_blocked, is_terminated,
  Process, Table, max_procs, proc_get, set_state,
}

abbrev pub can_run : Process → Bool
can_run p = p.present && is_ready p.state

abbrev pub slot_ready : List Process → ℕ → Bool
slot_ready ps i = elim (get_elem? ps i) [ none ↦ false | some p ↦ can_run p ]

-- The loop of `next_ready_from` over `c`, with the rounds left.
pub ready_scan : List Process → ℕ → ℕ → ℕ → Option ℕ
ready_scan ps start c zero = none
ready_scan ps start c (suc n) =
    let rest = ready_scan ps start (c + 1) n in
    let i = (start + c) % max_procs in if slot_ready ps i then some i else rest

pub next_ready_from : List Process → ℕ → Option ℕ
unfolding ready_scan
next_ready_from ps start = ready_scan ps start 0 max_procs

-- What `proc_gc_run` gives back to the heap, to the paging module and to the page allocator.
pub data Release : Type 0 where
  kernel_stack : ℕ → Release
  address_space : ℕ → Release
  pages : ℕ → ℕ → Release

pub elf_releases : List (ℕ × ℕ) → List Release
elf_releases [] = []
elf_releases ((base, n) ∷ rs) = if n == 0 then elf_releases rs else pages base n ∷ elf_releases rs

abbrev pub is_zombie : Process → Bool
is_zombie p = p.present && is_terminated p.state

abbrev pub frees_space : ℕ → Process → Bool
frees_space active p = (p.cr3 != 0) && (p.cr3 != active)

abbrev pub stack_release : Process → List Release
stack_release p = if p.stack != 0 then kernel_stack p.stack ∷ [] else []

abbrev pub space_release : ℕ → Process → List Release
space_release active p = if frees_space active p then address_space p.cr3 ∷ [] else []

pub releases : ℕ → Process → List Release
unfolding elf_releases
releases active p = stack_release p ++ (space_release active p ++ elf_releases p.elf)

abbrev pub collected : ℕ → Process → Process
collected active p = record p {
  stack = 0;
  cr3 = if frees_space active p then 0 else p.cr3;
  elf = [];
  present = false;
}

-- `proc_gc_run`, with the cr3 of the processor.
pub gc : ℕ → List Process → List Process × List Release
unfolding releases
gc active [] = ([], [])
gc active (p ∷ ps) =
    let (qs, rs) = gc active ps in
    if is_zombie p then (collected active p ∷ qs, releases active p ++ rs) else (p ∷ qs, rs)

abbrev pub gc_table : ℕ → Table → Table
gc_table active t = record t { procs = (gc active t.procs).0 }

-- The state of the process that `current_proc` points to, tested; false for a null pointer.
abbrev pub state_at : Option ℕ → List Process → (ProcState → Bool) → Bool
state_at none ps test = false
state_at (some i) ps test = elim (get_elem? ps i) [ none ↦ false | some p ↦ test p.state ]

-- `if(current_proc) current_proc->state=st;`
abbrev pub set_at : Option ℕ → ProcState → Table → Table
set_at none st t = t
set_at (some i) st t = set_state t i st

-- `to->state=PROC_RUNNING; current_index=next_i; current_proc=to;`
abbrev pub switch_to : Table → ℕ → Table
switch_to t i = record (set_state t i running) { current = some i; current_index = i }

-- The current process set back to ready, if it runs.
abbrev pub set_back : Table → Table
set_back t = if state_at t.current t.procs is_running then set_at t.current ready t else t

abbrev pub next_of : Table → Option ℕ
next_of t = next_ready_from t.procs (t.current_index + 1)

-- `sched_yield` behind the search, with the current slot and the next.
abbrev pub yield_to : Option ℕ → Option ℕ → Table → Table
yield_to c none t = set_at c running t
yield_to none (some i) t = switch_to t i
yield_to (some c) (some i) t =
    if c == i then set_state t c running else switch_to (set_state t c ready) i

abbrev pub yield_when : Bool → Table → Table
yield_when false t = t
yield_when true t = let back = set_back t in yield_to back.current (next_of back) back

pub sched_yield : ℕ → Table → Table
sched_yield active t = yield_when t.scheduler_running (gc_table active t)

abbrev pub preempt_to : Option ℕ → Table → Option ℕ × Table
preempt_to none t = (none, set_at t.current running t)
preempt_to (some i) t =
    if i == t.current_index then (none, set_at t.current running t) else (some i, switch_to t i)

abbrev pub preempt_when : Bool → Table → Option ℕ × Table
preempt_when false t = (none, t)
preempt_when true t = let back = set_at t.current ready t in preempt_to (next_of back) back

-- `sched_preempt_pick`: the slot to go on with, if the process changes.
pub preempt_pick : ℕ → Table → Option ℕ × Table
preempt_pick active t0 =
    let t = gc_table active t0 in
    preempt_when (t.scheduler_running && state_at t.current t.procs is_running) t

abbrev pub block_to : ℕ → Option ℕ → Table → Bool × Table
block_to c none t = (false, set_state t c running)
block_to c (some i) t = (true, switch_to t i)

abbrev pub block_at : Option ℕ → Table → Bool × Table
block_at none t = (false, t)
block_at (some c) t = let asleep = set_state t c blocked in block_to c (next_of asleep) asleep

-- `sched_block`; the `false` says that nothing else was ready, and the caller goes on.
pub sched_block : Table → Bool × Table
sched_block t = block_at t.current t

abbrev pub wake : Option (ℕ × Process) → Table → Table
wake none t = t
wake (some (i, p)) t =
    if is_blocked p.state
    then record t { procs = modify t.procs i (λ q. record q { state = ready; blocked_on = 0 }) }
    else t

-- `sched_wakeup`: a blocked process is made ready.
unfoldable pub sched_wakeup : Table → ℕ → Table
sched_wakeup t pid = wake (proc_get t.procs pid) t

pub sched_init : Table → Table
sched_init t = record t { scheduler_running = false }

-- `sched_add` of slot `i`.
pub sched_add : ℕ → Table → Table
sched_add i t = set_state t i ready

abbrev tick_to : Option ℕ → Table → Table
tick_to none t = t
tick_to (some i) t = if i != t.current_index then switch_to t i else t

-- `sched_tick`; without another ready process the current one stays ready.
pub sched_tick : Table → Table
sched_tick t =
    if t.scheduler_running && state_at t.current t.procs is_running
    then (let back = set_at t.current ready t in tick_to (next_of back) back)
    else t

abbrev pub start_at : Option ℕ → Table → Table
start_at none t = t
start_at (some i) t = switch_to t i

-- `sched_run_first`
pub run_first : Table → Table
run_first t0 =
    let t = record t0 { scheduler_running = true } in start_at (next_ready_from t.procs 0) t
