-- ===== src/Sched/Late.antt =====
-- `proc_waitpid` of kernel/proc.c for a child whose slot `proc_gc_run` has emptied.
use siathos.Prelude.{
  ℕ, zero, suc, ◌≡◌, refl, ap, true, Option, none, some, List, [], ◌∷◌, arith, Bool-cases, inl, inr,
  get_elem?,
}
use siathos.Proc.{Process, Table, proc_get, has_pid, is_terminated}
use siathos.Sched.{gc, gc_table, is_zombie}
use siathos.Sched.Exit.{refused, waitpid, waitpid_by, waitpid_me, waitpid_kid}

-- No slot of the pid `pid` is of a process that still lives.
abbrev pub HasEnded : ℕ → List Process → Type 0
HasEnded pid ps =
    (j : ℕ) (p : Process)
    → get_elem? ps j ≡ some p
    → has_pid pid p ≡ true
    → is_terminated p.state ≡ true

proc_get-gc :
    (active pid : ℕ) (ps : List Process) → HasEnded pid ps → proc_get (gc active ps).0 pid ≡ none
unfolding gc proc_get
proc_get-gc active pid [] ended = refl
proc_get-gc active pid (p ∷ ps) ended =
    let rest = proc_get-gc active pid ps (λ j. ended (suc j)) in
    let head = ended zero p refl in
    elim (Bool-cases (is_zombie p)) [
      | inl z ↦ ground (arith, rest)
      | inr z ↦ elim (Bool-cases (has_pid pid p)) [
        | inl at ↦ absurd (ground (arith, z, at, head at))
        | inr off ↦ ground (arith, rest, off)
      ]
    ]

waitpid_me-none :
    (o : Option Process) (t : Table) (pid c : ℕ)
    → proc_get t.procs pid ≡ none
    → waitpid_me o t pid c ≡ (refused, t)
waitpid_me-none none t pid c e = refl
waitpid_me-none (some me) t pid c e =
    ap
      (λ (o : Option (ℕ × Process)).
        waitpid_kid (elim o [ none ↦ none | some (_, k) ↦ some k ]) t pid c me)
      e

-- Where every slot of a pid is of an ended process, `proc_waitpid` after a run of the collector
-- answers -1 for that pid and changes nothing, also where the caller's slot holds the exit code.
pub waitpid-gc :
    (active pid : ℕ) (t : Table)
    → HasEnded pid t.procs
    → waitpid (gc_table active t) pid ≡ (refused, gc_table active t)
unfolding waitpid
waitpid-gc active pid t ended = by_current t.current
  where
    u : Table
    u = gc_table active t

    by_current : (o : Option ℕ) → waitpid_by o u pid ≡ (refused, u)
    by_current none = refl
    by_current (some c) =
        waitpid_me-none (get_elem? u.procs c) u pid c (proc_get-gc active pid t.procs ended)
