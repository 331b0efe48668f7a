-- ===== src/Sched/Runs.antt =====
-- Any history of the scheduler: one process runs at most, and no two live processes share a pid.
use siathos.Prelude.{
  ℕ, ◌+◌, ◌%◌, ◌^◌, ◌<◌, ◌≡◌, ◌≢◌, ◌⊎◌, inl, inr, refl, sym, subst, ◌∙◌, Option, none, some, List,
  arith, ◌==◌, Bool-cases, modify, get_elem?-modify-some, ℕ_discrete,
}
use siathos.Proc.{Process, Table, make_slot, proc_create, find_free}
use siathos.Sched.{sched_yield, preempt_pick, sched_block, sched_wakeup}
use siathos.Sched.Exit.{proc_exit}
use siathos.Sched.Single.{IsSingle}
use siathos.Sched.Steps.{sched_yield-IsSingle, preempt_pick-IsSingle, sched_block-IsSingle}
use siathos.Sched.Leaving.{sched_wakeup-IsSingle, proc_exit-IsSingle, proc_create-IsSingle}
use siathos.Sched.Pids.{
  HasPid, Narrows, sched_yield-Narrows, preempt_pick-Narrows, sched_block-Narrows,
  sched_wakeup-Narrows, proc_exit-Narrows,
}

-- Live processes have different pids, all given out already.
pub record IsDistinct (t : Table) : Type 0 where
  pub started : 0 < t.next_pid
  pub unique : (i j n : ℕ) → HasPid t.procs i n → HasPid t.procs j n → i ≡ j
  pub given : (i n : ℕ) → HasPid t.procs i n → (0 < n) × (n < t.next_pid)

Narrows-IsDistinct : (t u : Table) → Narrows t u → IsDistinct t → IsDistinct u
Narrows-IsDistinct t u w d = record {
  started = omega (arith, w.next, d.started);
  unique = λ i j n a b. d.unique i j n (w.pids i n a) (w.pids j n b);
  given = λ i n a. let (lo, hi) = d.given i n (w.pids i n a) in (lo, omega (arith, w.next));
}

-- A write of a new process with the next pid.
HasPid-new :
    (ps : List Process) (i : ℕ) (q : Process) (j n : ℕ)
    → HasPid (modify ps i (λ _. q)) j n
    → ((i ≡ j) × (q.pid ≡ n)) ⊎ ((i ≢ j) × HasPid ps j n)
HasPid-new ps i q j n (b, g, there, e) =
    let (a, h, k) = get_elem?-modify-some ps i j (λ _. q) b g in
    elim (ℕ_discrete i j) [
      | yes same ↦ inl (same, ground arith)
      | no other ↦ inr (other, (a, h, ground arith, ground arith))
    ]

new-IsDistinct :
    (t : Table) (i : ℕ) (q : Process)
    → q.pid ≡ t.next_pid
    → t.next_pid + 1 < 2 ^ 32
    → IsDistinct t
    → IsDistinct
        (record t { procs = modify t.procs i (λ _. q); next_pid = (t.next_pid + 1) % 2 ^ 32 })
new-IsDistinct t i q e small d = record {
  started = omega arith;
  unique = λ j k n a b. elim (HasPid-new t.procs i q j n a) [
    | inl (x, x') ↦ elim (HasPid-new t.procs i q k n b) [
      | inl (y, _) ↦ sym x ∙ y
      | inr (_, y) ↦ absurd (omega (arith, (d.given k n y).1))
    ]
    | inr (_, x) ↦ elim (HasPid-new t.procs i q k n b) [
      | inl (_, y) ↦ absurd (omega (arith, (d.given j n x).1))
      | inr (_, y) ↦ d.unique j k n x y
    ]
  ];
  given = λ j n a. elim (HasPid-new t.procs i q j n a) [
    | inl (_, x) ↦ (omega (arith, d.started), omega arith)
    | inr (_, x) ↦ let (lo, hi) = d.given j n x in (lo, omega arith)
  ];
}

make_slot-IsDistinct :
    (name : List ℕ) (rights stack cr3 : ℕ) (slot : Option (ℕ × Process)) (t : Table)
    → t.next_pid + 1 < 2 ^ 32
    → IsDistinct t
    → IsDistinct (make_slot name rights stack cr3 slot t).1
make_slot-IsDistinct name rights stack cr3 none t h d = d
make_slot-IsDistinct name rights stack cr3 (some (i, p)) t h d = elim (Bool-cases (stack == 0)) [
  | inl e ↦ rw e (new-IsDistinct t i _ refl h d)
  | inr e ↦ rw e (new-IsDistinct t i _ refl h d)
]

proc_create-IsDistinct :
    (name : List ℕ) (rights stack cr3 : ℕ) (t : Table)
    → t.next_pid + 1 < 2 ^ 32
    → IsDistinct t
    → IsDistinct (proc_create name rights stack cr3 t).1
unfolding proc_create
proc_create-IsDistinct name rights stack cr3 t h d =
    make_slot-IsDistinct name rights stack cr3 (find_free t.procs) t h d

-- One event, a call of proc.c from a process or an interrupt. An exit that halts the machine has no state after it, and a creation
-- that would wrap the pid counter is left out.
pub data Step (t u : Table) : Type 0 where
  yields : (active : ℕ) → u ≡ sched_yield active t → Step t u
  preempts : (active : ℕ) → u ≡ (preempt_pick active t).1 → Step t u
  blocks : u ≡ (sched_block t).1 → Step t u
  wakes : (pid : ℕ) → u ≡ sched_wakeup t pid → Step t u
  exits : (code : ℕ) → proc_exit code t ≡ some u → Step t u
  creates :
      (name : List ℕ) (rights stack cr3 : ℕ)
      → t.next_pid + 1 < 2 ^ 32
      → u ≡ (proc_create name rights stack cr3 t).1
      → Step t u

pub data Reach (t : Table) : Table → Type 0 where
  here : Reach t t
  next : {u v : Table} → Reach t u → Step u v → Reach t v

pub record IsSound (t : Table) : Type 0 where
  pub single : IsSingle t
  pub distinct : IsDistinct t

Step-IsSound : (t u : Table) → Step t u → IsSound t → IsSound u
Step-IsSound t u (yields active e) s = subst IsSound (sym e) (record {
  single = sched_yield-IsSingle active t s.single;
  distinct = Narrows-IsDistinct t _ (sched_yield-Narrows active t) s.distinct;
})
Step-IsSound t u (preempts active e) s = subst IsSound (sym e) (record {
  single = preempt_pick-IsSingle active t s.single;
  distinct = Narrows-IsDistinct t _ (preempt_pick-Narrows active t) s.distinct;
})
Step-IsSound t u (blocks e) s = subst IsSound (sym e) (record {
  single = sched_block-IsSingle t s.single;
  distinct = Narrows-IsDistinct t _ (sched_block-Narrows t) s.distinct;
})
Step-IsSound t u (wakes pid e) s = subst IsSound (sym e) (record {
  single = sched_wakeup-IsSingle t pid s.single;
  distinct = Narrows-IsDistinct t _ (sched_wakeup-Narrows t pid) s.distinct;
})
Step-IsSound t u (exits code e) s = record {
  single = proc_exit-IsSingle code t u e s.single;
  distinct = Narrows-IsDistinct t u (proc_exit-Narrows code t u e) s.distinct;
}
Step-IsSound t u (creates name rights stack cr3 small e) s = subst IsSound (sym e) (record {
  single = proc_create-IsSingle name rights stack cr3 t s.single;
  distinct = proc_create-IsDistinct name rights stack cr3 t small s.distinct;
})

-- In every table that yields, preemptions, waits, wake-ups, exits and creations lead to from a
-- sound one, the running process is the current one and no other runs, and no two live processes
-- have one pid, as long as the pid counter does not wrap.
pub Reach-IsSound : (t u : Table) → Reach t u → IsSound t → IsSound u
Reach-IsSound t u here s = s
Reach-IsSound t u (next {u = v} r st) s = Step-IsSound v u st (Reach-IsSound t v r s)
