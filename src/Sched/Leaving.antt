-- ===== src/Sched/Leaving.antt =====
-- Waking, ending and creating processes keep at most one running.
use mathlib.Core.Option.{some-injective}
use siathos.Prelude.{
  ℕ, ◌+◌, ◌%◌, ◌^◌, ◌≡◌, inl, inr, refl, sym, subst, ◌∙◌, true, Option, none, some, List, arith,
  ◌==◌, Bool-cases, get_elem?, modify,
}
use siathos.Proc.{
  ready, running, terminated, is_blocked, Process, Table, proc_get, make_slot, proc_create,
  find_free,
}
use siathos.Sched.{next_of, wake, sched_wakeup, start_at, run_first}
use siathos.Sched.Exit.{tell_at, tell_parent, leave_to, end_slot, exit_at, exit_current, proc_exit}
use siathos.Sched.Single.{IsSingle, IsIdle, RunsAt-modify, switch_to-IsSingle}

-- A write to a slot that neither makes the process run nor moves the pointers.
write-IsSingle :
    (t : Table) (i : ℕ) (f : Process → Process)
    → ((p : Process) → (f p).state ≡ running → (p.state ≡ running) × ((f p).present ≡ p.present))
    → IsSingle t
    → IsSingle (record t { procs = modify t.procs i f })
write-IsSingle t i f h s = record {
  index = s.index;
  one = λ j r. elim (RunsAt-modify t.procs i j f r) [
    | inl (e, (p, g, there, runs)) ↦
        let (was, same) = h p runs in rw (← e) (s.one i (p, g, sym same ∙ there, was))
    | inr (_, r') ↦ s.one j r'
  ];
}

wake-IsSingle : (t : Table) (w : Option (ℕ × Process)) → IsSingle t → IsSingle (wake w t)
wake-IsSingle t none s = s
wake-IsSingle t (some (i, p)) s = elim (Bool-cases (is_blocked p.state)) [
  | inl on ↦
      rw on (write-IsSingle t i (λ q. record q { state = ready; blocked_on = 0 }) (λ q e. cc) s)
  | inr off ↦ rw off s
]

pub sched_wakeup-IsSingle : (t : Table) (pid : ℕ) → IsSingle t → IsSingle (sched_wakeup t pid)
unfolding sched_wakeup
sched_wakeup-IsSingle t pid s = wake-IsSingle t (proc_get t.procs pid) s

tell_at-IsSingle :
    (k : Option (ℕ × Process)) (code : ℕ) (p : Process) (t : Table)
    → IsSingle t
    → IsSingle (tell_at k code p t)
tell_at-IsSingle none code p t s = s
tell_at-IsSingle (some (k, _)) code p t s =
    sched_wakeup-IsSingle _ p.parent (
      write-IsSingle t k (λ q. record q { wait_pid = p.pid; wait_code = code }) (λ q e. (e, refl))
        s)

current-tell_parent :
    (code : ℕ) (p : Process) (t : Table)
    → ((tell_parent code p t).current ≡ t.current)
      × ((tell_parent code p t).current_index ≡ t.current_index)
unfolding tell_parent sched_wakeup
current-tell_parent code p t = ground arith

end_slot-IsIdle :
    (code c : ℕ) (t : Table) → t.current ≡ some c → IsSingle t → IsIdle (end_slot code c t).procs
end_slot-IsIdle code c t e s j r =
    elim (RunsAt-modify t.procs c j (λ q. record q { exit_code = code; state = terminated }) r) [
      | inl (_, (p, _, _, runs)) ↦ cc
      | inr (other, r') ↦ other (ground (arith, e, s.one j r'))
    ]

leave_to-IsSingle :
    (next : Option ℕ) (t u : Table) → leave_to next t ≡ some u → IsIdle t.procs → IsSingle u
leave_to-IsSingle none t u e idle = absurd (ground arith)
leave_to-IsSingle (some i) t u e idle =
    subst IsSingle (some-injective _ _ e) (switch_to-IsSingle t i idle)

exit_at-IsSingle :
    (code c : ℕ) (p : Option Process) (t u : Table)
    → t.current ≡ some c
    → exit_at code c p t ≡ some u
    → IsSingle t
    → IsSingle u
unfolding tell_parent
exit_at-IsSingle code c none t u h e s = absurd (ground arith)
exit_at-IsSingle code c (some p) t u h e s =
    let told = tell_parent code p t in
    leave_to-IsSingle (next_of (end_slot code c told)) (end_slot code c told) u e (
      end_slot-IsIdle code c told (ground (arith, current-tell_parent code p t, h))
        (tell_at-IsSingle (proc_get t.procs p.parent) code p t s))

exit_current-IsSingle :
    (code : ℕ) (c : Option ℕ) (t u : Table)
    → t.current ≡ c
    → exit_current code c t ≡ some u
    → IsSingle t
    → IsSingle u
exit_current-IsSingle code none t u h e s = absurd (ground arith)
exit_current-IsSingle code (some c) t u h e s =
    exit_at-IsSingle code c (get_elem? t.procs c) t u h e s

pub proc_exit-IsSingle :
    (code : ℕ) (t u : Table) → proc_exit code t ≡ some u → IsSingle t → IsSingle u
unfolding proc_exit
proc_exit-IsSingle code t u e s = exit_current-IsSingle code t.current t u refl e s

make_slot-IsSingle :
    (name : List ℕ) (rights stack cr3 : ℕ) (slot : Option (ℕ × Process)) (t : Table)
    → IsSingle t
    → IsSingle (make_slot name rights stack cr3 slot t).1
make_slot-IsSingle name rights stack cr3 none t s = s
make_slot-IsSingle name rights stack cr3 (some (i, p)) t s = elim (Bool-cases (stack == 0)) [
  | inl e ↦ rw e (write-IsSingle _ i _ (λ q h. cc) (moved s))
  | inr e ↦ rw e (write-IsSingle _ i _ (λ q h. cc) (moved s))
]
  where
    moved : IsSingle t → IsSingle (record t { next_pid = (t.next_pid + 1) % 2 ^ 32 })
    moved s = record { index = s.index; one = s.one }

pub proc_create-IsSingle :
    (name : List ℕ) (rights stack cr3 : ℕ) (t : Table)
    → IsSingle t
    → IsSingle (proc_create name rights stack cr3 t).1
unfolding proc_create
proc_create-IsSingle name rights stack cr3 t s =
    make_slot-IsSingle name rights stack cr3 (find_free t.procs) t s

start_at-IsSingle :
    (i : Option ℕ) (t : Table) → IsSingle t → t.current ≡ none → IsSingle (start_at i t)
start_at-IsSingle none t s e = s
start_at-IsSingle (some i) t s e = switch_to-IsSingle t i (λ j r. cc (e, s.one j r))

-- `sched_run_first` runs before any process does.
pub run_first-IsSingle : (t : Table) → IsSingle t → t.current ≡ none → IsSingle (run_first t)
unfolding run_first
run_first-IsSingle t s e =
    start_at-IsSingle _ (record t { scheduler_running = true })
      (record { index = s.index; one = s.one }) e
