-- ===== src/Sched/Single.antt =====
-- At most one process runs, and it is the current one.
use siathos.Prelude.{
  ℕ, ◌≡◌, ◌≢◌, ◌⊎◌, inl, inr, true, Option, none, some, List, arith, get_elem?, modify,
  get_elem?-modify-some, ℕ_discrete,
}
use siathos.Proc.{ProcState, running, Process, Table, set_state}
use siathos.Sched.{gc_table, set_at, switch_to}
use siathos.Sched.Collect.{gc-get}

-- A process that runs stands in slot `j`.
abbrev pub RunsAt : List Process → ℕ → Type 0
RunsAt ps j = (p : Process) × (get_elem? ps j ≡ some p) × (p.present ≡ true) × (p.state ≡ running)

pub record IsSingle (t : Table) : Type 0 where
  pub index : (i : ℕ) → t.current ≡ some i → i ≡ t.current_index
  pub one : (j : ℕ) → RunsAt t.procs j → t.current ≡ some j

-- After a write to slot `i`, what runs is that slot's new content, or ran in another slot before.
pub RunsAt-modify :
    (ps : List Process) (i j : ℕ) (f : Process → Process)
    → RunsAt (modify ps i f) j
    → ((i ≡ j)
        × ((p : Process) × (get_elem? ps i ≡ some p)
            × ((f p).present ≡ true)
            × ((f p).state ≡ running)))
      ⊎ ((i ≢ j) × RunsAt ps j)
RunsAt-modify ps i j f (b, g, there, runs) =
    let (a, h, e) = get_elem?-modify-some ps i j f b g in
    elim (ℕ_discrete i j) [
      | yes same ↦
          let new : b ≡ f a = ground arith in
          inl (same, (a, rw same h, rw new at there, rw new at runs))
      | no other ↦
          let old : b ≡ a = ground arith in inr (other, (a, h, rw old at there, rw old at runs))
    ]

-- No process runs in slot `j` once the state of slot `i` is one that does not run.
RunsAt-set_state :
    (t : Table) (i j : ℕ) (st : ProcState)
    → st ≢ running
    → RunsAt (set_state t i st).procs j
    → (i ≢ j) × RunsAt t.procs j
RunsAt-set_state t i j st h r = elim (RunsAt-modify t.procs i j (λ p. record p { state = st }) r) [
  | inl (_, (p, _, _, e)) ↦ absurd (h e)
  | inr other ↦ other
]

pub set_state-IsSingle :
    (t : Table) (i : ℕ) (st : ProcState) → st ≢ running → IsSingle t → IsSingle (set_state t i st)
set_state-IsSingle t i st h s = record {
  index = s.index;
  one = λ j r. s.one j (RunsAt-set_state t i j st h r).1;
}

-- No process runs.
abbrev pub IsIdle : List Process → Type 0
IsIdle ps = (j : ℕ) → ¬ RunsAt ps j

pub set_at-IsIdle :
    (t : Table) (c : Option ℕ) (st : ProcState)
    → t.current ≡ c
    → st ≢ running
    → IsSingle t
    → IsIdle (set_at c st t).procs
set_at-IsIdle t none st e h s j r = cc (e, s.one j r)
set_at-IsIdle t (some c) st e h s j r =
    let (other, r') = RunsAt-set_state t c j st h r in other (ground (arith, e, s.one j r'))

pub set_state-IsIdle :
    (t : Table) (i : ℕ) (st : ProcState)
    → st ≢ running
    → IsIdle t.procs
    → IsIdle (set_state t i st).procs
set_state-IsIdle t i st h idle j r = idle j (RunsAt-set_state t i j st h r).1

pub switch_to-IsSingle : (t : Table) (i : ℕ) → IsIdle t.procs → IsSingle (switch_to t i)
switch_to-IsSingle t i idle = record {
  index = λ j e. ground arith;
  one = λ j r. elim (RunsAt-modify t.procs i j (λ p. record p { state = running }) r) [
    | inl (e, _) ↦ ground arith
    | inr (_, r') ↦ absurd (idle j r')
  ];
}

pub run_current-IsSingle :
    (t : Table) (c : ℕ)
    → t.current ≡ some c
    → c ≡ t.current_index
    → IsIdle t.procs
    → IsSingle (set_state t c running)
run_current-IsSingle t c e same idle = record {
  index = λ i h. ground arith;
  one = λ j r. elim (RunsAt-modify t.procs c j (λ p. record p { state = running }) r) [
    | inl (h, _) ↦ ground arith
    | inr (_, r') ↦ absurd (idle j r')
  ];
}

-- Setting the current process running again.
pub set_at_running-IsSingle :
    (t : Table) (c : Option ℕ)
    → t.current ≡ c
    → ((i : ℕ) → t.current ≡ some i → i ≡ t.current_index)
    → IsIdle t.procs
    → IsSingle (set_at c running t)
set_at_running-IsSingle t none e index idle = record {
  index = index;
  one = λ j r. absurd (idle j r);
}
set_at_running-IsSingle t (some c) e index idle = run_current-IsSingle t c e (index c e) idle

pub gc-IsSingle : (active : ℕ) (t : Table) → IsSingle t → IsSingle (gc_table active t)
gc-IsSingle active t s = record {
  index = s.index;
  one = λ j (q, g, there, runs).
      let (p, h, e) = gc-get active t.procs j q g in s.one j (p, h, ground arith, ground arith);
}
