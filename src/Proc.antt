-- ===== src/Proc.antt =====
-- The process table of kernel/proc.c and its wrappers in kernel/cap.c. A pointer to a process is
-- the index of its slot. Left out of `process_t`: the saved registers but cr3, and
-- `scheduler_seq`, which nothing reads. `kprint` is left out.
use siathos.Prelude.{
  ℕ, ◌+◌, ◌-◌, ◌%◌, ◌^◌, Bool, true, false, not, ◌&&◌, ◌||◌, Option, none, some, List, [], ◌∷◌, leb,
  ◌==◌, if◌then◌else◌, take, modify, find_slot,
}

-- `PROC_CREATED` to `PROC_TERMINATED`
pub data ProcState : Type 0 where
  created ready running blocked terminated : ProcState

abbrev pub is_ready : ProcState → Bool
is_ready ready = true
is_ready _ = false

abbrev pub is_running : ProcState → Bool
is_running running = true
is_running _ = false

abbrev pub is_blocked : ProcState → Bool
is_blocked blocked = true
is_blocked _ = false

abbrev pub is_terminated : ProcState → Bool
is_terminated terminated = true
is_terminated _ = false

-- `umap` are the regions (base, size) and `elf` the regions (base, pages), with their counts as the
-- lists' lengths. `umap_heap` is `none` for -1.
pub record Process : Type 0 where
  pub present : Bool
  pub pid : ℕ
  pub name : List ℕ
  pub rights : ℕ
  pub state : ProcState
  pub stack : ℕ
  pub cr3 : ℕ
  pub parent : ℕ
  pub blocked_on : ℕ
  pub ipc_avail : Bool
  pub exit_code : ℕ
  pub is_user : Bool
  pub kstack_top : ℕ
  pub umap : List (ℕ × ℕ)
  pub elf : List (ℕ × ℕ)
  pub wait_pid : ℕ
  pub wait_code : ℕ
  pub umap_heap : Option ℕ
  pub devio_base : ℕ
  pub devio_used : ℕ

abbrev pub max_procs : ℕ
max_procs = 64

abbrev pub proc_name_max : ℕ
proc_name_max = 64

-- The static variables of proc.c; `current` is `current_proc`.
pub record Table : Type 0 where
  pub procs : List Process
  pub next_pid : ℕ
  pub current : Option ℕ
  pub current_index : ℕ
  pub scheduler_running : Bool

abbrev pub is_free : Process → Bool
is_free p = not p.present || is_terminated p.state

abbrev pub has_pid : ℕ → Process → Bool
has_pid pid p = p.present && p.pid == pid

unfoldable pub find_free : List Process → Option (ℕ × Process)
find_free ps = find_slot is_free ps

unfoldable pub proc_get : List Process → ℕ → Option (ℕ × Process)
proc_get ps pid = find_slot (has_pid pid) ps

-- Every slot's `present` is cleared; the rest of the slot stays.
pub clear_all : List Process → List Process
clear_all [] = []
clear_all (p ∷ ps) = record p { present = false } ∷ clear_all ps

unfoldable pub proc_init : Table → Table
unfolding clear_all
proc_init t = record {
  procs = clear_all t.procs;
  next_pid = 1;
  current = none;
  current_index = 0;
  scheduler_running = false;
}

abbrev pub set_state : Table → ℕ → ProcState → Table
set_state t i st = record t { procs = modify t.procs i (λ p. record p { state = st }) }

-- An `int` result: a pid, or a negative code.
pub data Created : Type 0 where
  made : ℕ → Created
  failed : ℕ → Created

-- The fields that `proc_create_argv` sets in the slot before the stack is allocated.
abbrev pub fresh : List ℕ → ℕ → ℕ → Process → Process
fresh name rights pid p = record p {
  present = true;
  pid = pid;
  name = take (proc_name_max - 1) name;
  rights = rights;
  state = ready;
  parent = 0;
  blocked_on = 0;
  ipc_avail = false;
  exit_code = 0;
  is_user = false;
  kstack_top = 0;
  umap = [];
  elf = [];
  wait_pid = 0;
  wait_code = 0;
  umap_heap = none;
}

-- `stack` and `cr3` are the addresses that `kmalloc` and `paging_new_address_space` return, 0 for a
-- failure.
abbrev pub make_slot : List ℕ → ℕ → ℕ → ℕ → Option (ℕ × Process) → Table → Created × Table
make_slot name rights stack cr3 none t = (failed 1, t)
make_slot name rights stack cr3 (some (i, p)) t =
    let q = fresh name rights t.next_pid p in
    let t' = record t { next_pid = (t.next_pid + 1) % 2 ^ 32 } in
    if stack == 0
    then (
      failed 2,
      record t' { procs = modify t'.procs i (λ _. record q { stack = 0; present = false }) },
    )
    else (
      made t.next_pid,
      record t' { procs = modify t'.procs i (λ _. record q { stack = stack; cr3 = cr3 }) },
    )

-- `proc_create_argv` for a name that is not null. The entry and its arguments go to the new stack
-- only.
unfoldable pub proc_create : List ℕ → ℕ → ℕ → ℕ → Table → Created × Table
proc_create name rights stack cr3 t = make_slot name rights stack cr3 (find_free t.procs) t

abbrev pub mark_at : Option (ℕ × Process) → Table → Table
mark_at none t = t
mark_at (some (i, _)) t = set_state t i created

unfoldable pub mark_created : ℕ → Table → Table
mark_created pid t = mark_at (proc_get t.procs pid) t

abbrev pub register_made : Created → Table → ℕ × Table
register_made (failed _) t = (0, t)
register_made (made pid) t =
    if pid == 0 || leb (2 ^ 31) pid then (0, t) else (pid, mark_created pid t)

-- `kinesis_register_only`: a process that the scheduler never picks; the result 0 is a failure.
-- A pid of 2^31 or more is negative as an `int`.
unfoldable pub kinesis_register : List ℕ → ℕ → ℕ → ℕ → Table → ℕ × Table
kinesis_register [] caps stack cr3 t = (0, t)
kinesis_register (c ∷ cs) caps stack cr3 t =
    let (r, t') = proc_create (c ∷ cs) caps stack cr3 t in register_made r t'
