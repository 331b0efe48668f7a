-- ===== src/Sched/Tests.antt =====
-- Runs of the scheduler on a small table, and inputs that its theorems hold of.
use siathos.Prelude.{
  ℕ, zero, suc, ◌+◌, ◌*◌, ◌^◌, ◌<◌, ◌≤◌, ◌≡◌, refl, sym, ap, true, false, Option, none, some, [],
  ◌∷◌, arith, All, get_elem?,
}
use siathos.Proc.{
  ProcState, ready, running, blocked, Process, Table, proc_get, terminated, proc_create,
}
use siathos.Sched.{preempt_pick, is_zombie, gc, gc_table, sched_wakeup, next_ready_from, ready_scan}
use siathos.Sched.Exit.{proc_exit, exited, refused, waitpid, waitpid_again, wait_round, tell_parent}
use siathos.Sched.Collect.{IsSpare, gc-collects}
use siathos.Sched.Single.{RunsAt}
use siathos.Sched.Pids.{HasPid}
use siathos.Sched.Runs.{exits, creates, Reach, here, next, IsSound, Reach-IsSound}
use siathos.Sched.Fair.{IsBusy, picks, preempt-serves}
use siathos.Sched.Arrives.{now, step, preempts, waitpid_again-Later}
use siathos.Sched.Late.{HasEnded, waitpid-gc}

abbrev pub process : ℕ → ℕ → ProcState → Process
process pid parent st = record {
  present = true;
  pid = pid;
  name = [];
  rights = 0;
  state = st;
  stack = 4096 * pid;
  cr3 = 4096 * (pid + 10);
  parent = parent;
  blocked_on = 0;
  ipc_avail = false;
  exit_code = 0;
  is_user = false;
  kstack_top = 0;
  umap = [];
  elf = [];
  wait_pid = 0;
  wait_code = 0;
  umap_heap = none;
  devio_base = 0;
  devio_used = 0;
}

-- A parent that waits and its child, which runs, beside a third that is ready.
abbrev pub three : Table
three = record {
  procs = process 1 0 blocked ∷ process 2 1 running ∷ process 3 1 ready ∷ [];
  next_pid = 4;
  current = some 1;
  current_index = 1;
  scheduler_running = true;
}

runs_in : (j : ℕ) → RunsAt three.procs j → j ≡ 1
runs_in zero (p, g, there, st) = absurd (ground (arith, g, st))
runs_in (suc zero) r = refl
runs_in (suc (suc zero)) (p, g, there, st) = absurd (ground (arith, g, st))
runs_in (suc (suc (suc j))) (p, g, there, st) = absurd (ground (arith, g))

pid_in : (j n : ℕ) → HasPid three.procs j n → (j + 1 ≡ n) × (j < 3)
pid_in zero n (p, g, there, e) = (ground (arith, g, e), omega arith)
pid_in (suc zero) n (p, g, there, e) = (ground (arith, g, e), omega arith)
pid_in (suc (suc zero)) n (p, g, there, e) = (ground (arith, g, e), omega arith)
pid_in (suc (suc (suc j))) n (p, g, there, e) = absurd (ground (arith, g))

three-IsSound : IsSound three
three-IsSound = record {
  single = record { index = λ i e. ground (arith, e); one = λ j r. ap some (sym (runs_in j r)) };
  distinct = record {
    started = omega arith;
    unique = λ i j n a b. omega (arith, pid_in i n a, pid_in j n b);
    given = λ i n a. omega (arith, pid_in i n a);
  };
}

-- The child exits with 7, and the third process runs.
abbrev value : Option Table → Table
value none = three
value (some t) = t

abbrev after_exit : Table
after_exit = value (proc_exit 7 three)

exit_three : proc_exit 7 three ≡ some after_exit
unfolding proc_exit tell_parent sched_wakeup proc_get next_ready_from ready_scan
exit_three = refl

abbrev after_create : Table
after_create = (proc_create (97 ∷ []) 0 8192 4096 after_exit).1

exit_wait_three : (waitpid_again after_exit 2 0).0 ≡ exited 7
unfolding waitpid_again wait_round proc_exit tell_parent sched_wakeup proc_get next_ready_from
    ready_scan
exit_wait_three = refl

pids_left : after_exit.next_pid + 1 < 2 ^ 32
unfolding proc_exit tell_parent sched_wakeup proc_get next_ready_from ready_scan
pids_left = omega arith

three-after_create : Reach three after_create
three-after_create =
    next (next here (exits 7 exit_three)) (creates (97 ∷ []) 0 8192 4096 pids_left refl)

Reach-IsSound_example : IsSound after_create
Reach-IsSound_example = Reach-IsSound three after_create three-after_create three-IsSound

pub parent_three : proc_get three.procs 1 ≡ some (0, process 1 0 blocked)
unfolding proc_get
parent_three = refl

-- The scheduler goes on to another process.
abbrev after_preempt : Table
after_preempt = (preempt_pick 4096 after_exit).1

waitpid_again-Later_example :
    ((waitpid_again after_preempt 2 0).0 ≡ exited 7)
    × ((r : Process)
        → get_elem? (waitpid_again after_preempt 2 0).1.procs 0 ≡ some r
        → r.wait_pid ≡ 0)
waitpid_again-Later_example =
    waitpid_again-Later 7 1 0 (process 2 1 running) (process 1 0 blocked) three after_exit
      after_preempt refl refl parent_three exit_three (step now (preempts 4096 refl))

gc-collects_example :
    ((j : ℕ) (q : Process)
      → get_elem? (gc 4096 after_exit.procs).0 j ≡ some q
      → is_zombie q ≡ false)
    × ((j : ℕ) (p : Process)
        → get_elem? after_exit.procs j ≡ some p
        → is_zombie p ≡ false
        → get_elem? (gc 4096 after_exit.procs).0 j ≡ some p)
    × All (IsSpare 4096) (gc 4096 after_exit.procs).1
gc-collects_example = gc-collects 4096 after_exit.procs

three-IsBusy : IsBusy three
three-IsBusy = record {
  on = refl;
  cur = refl;
  fits = omega arith;
  runs = (process 2 1 running, refl, refl, refl);
}

preempt-serves_example : (k : ℕ) × (k ≤ 64) × ((picks (λ n. 4096) k three).current ≡ some 2)
preempt-serves_example =
    preempt-serves (λ n. 4096) 64 three 2 three-IsBusy (omega arith) refl (omega arith)

-- The parent runs, and its slot holds the exit code 7 of the child 2, which has ended.
abbrev told_parent : Table
told_parent = record {
  procs =
      record (process 1 0 running) { wait_pid = 2; wait_code = 7 } ∷ process 2 1 terminated ∷ [];
  next_pid = 3;
  current = some 0;
  current_index = 0;
  scheduler_running = true;
}

ended_two : HasEnded 2 told_parent.procs
ended_two zero p g at = absurd (ground (arith, g, at))
ended_two (suc zero) p g at = ground (arith, g)
ended_two (suc (suc j)) p g at = absurd (ground (arith, g))

-- Before the collector runs the code is there.
before_gc : (waitpid told_parent 2).0 ≡ exited 7
unfolding waitpid wait_round proc_get
before_gc = refl

waitpid-gc_example : waitpid (gc_table 4096 told_parent) 2 ≡ (refused, gc_table 4096 told_parent)
waitpid-gc_example = waitpid-gc 4096 2 told_parent ended_two
