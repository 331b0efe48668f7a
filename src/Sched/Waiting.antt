-- ===== src/Sched/Waiting.antt =====
-- How `proc_exit` of kernel/proc.c leaves an exit code in the slot of the parent.
use mathlib.Core.Option.{some-injective}
use siathos.Prelude.{
  ℕ, ◌≡◌, inl, inr, refl, sym, subst, ap, ◌∙◌, Option, none, some, List, arith, Bool-cases,
  get_elem?, modify, get_elem?-modify_ne, get_elem?-modify_self, ℕ_discrete, find_slot-get,
}
use siathos.Proc.{ready, running, terminated, is_blocked, Process, Table, proc_get, has_pid}
use siathos.Sched.{next_of, wake, sched_wakeup}
use siathos.Sched.Exit.{tell_parent, leave_to, end_slot, exit_at, exit_current, proc_exit}

-- Slot `k` holds the exit code of process `pid`.
abbrev pub HasCode : List Process → ℕ → ℕ → ℕ → Type 0
HasCode ps k pid code =
    (q : Process) × (get_elem? ps k ≡ some q) × (q.wait_pid ≡ pid) × (q.wait_code ≡ code)

pub HasCode-modify :
    (ps : List Process) (i k pid code : ℕ) (f : Process → Process)
    → ((q : Process) → ((f q).wait_pid ≡ q.wait_pid) × ((f q).wait_code ≡ q.wait_code))
    → HasCode ps k pid code
    → HasCode (modify ps i f) k pid code
HasCode-modify ps i k pid code f same (q, g, a, b) = elim (ℕ_discrete i k) [
  | yes e ↦ (f q, rw e (get_elem?-modify_self ps k f g), (same q).0 ∙ a, (same q).1 ∙ b)
  | no e ↦ (q, get_elem?-modify_ne ps i k f e ∙ g, a, b)
]

pub wake-HasCode :
    (w : Option (ℕ × Process)) (t : Table) (k pid code : ℕ)
    → HasCode t.procs k pid code
    → HasCode (wake w t).procs k pid code
wake-HasCode none t k pid code h = h
wake-HasCode (some (i, p)) t k pid code h = elim (Bool-cases (is_blocked p.state)) [
  | inl on ↦ rw on (
      HasCode-modify t.procs i k pid code (λ q. record q { state = ready; blocked_on = 0 })
        (λ q. (refl, refl)) h)
  | inr off ↦ rw off h
]

tell_parent-HasCode :
    (code : ℕ) (p : Process) (t : Table) (k : ℕ) (q : Process)
    → proc_get t.procs p.parent ≡ some (k, q)
    → HasCode (tell_parent code p t).procs k p.pid code
unfolding tell_parent sched_wakeup proc_get
tell_parent-HasCode code p t k q e =
    rw (e, tell_parent)
      (wake-HasCode _ _ k p.pid code (
        record q { wait_pid = p.pid; wait_code = code },
        get_elem?-modify_self t.procs k (λ q. record q { wait_pid = p.pid; wait_code = code })
            (find_slot-get (has_pid p.parent) t.procs k q e).0,
        refl,
        refl,
      ))

pub leave_to-HasCode :
    (next : Option ℕ) (t u : Table) (k pid code : ℕ)
    → leave_to next t ≡ some u
    → HasCode t.procs k pid code
    → HasCode u.procs k pid code
leave_to-HasCode none t u k pid code e h = absurd (ground arith)
leave_to-HasCode (some i) t u k pid code e h =
    subst (λ (v : Table). HasCode v.procs k pid code) (some-injective _ _ e)
      (HasCode-modify t.procs i k pid code (λ q. record q { state = running }) (λ q. (refl, refl))
        h)

-- `proc_exit` leaves the exit code in the slot of the parent.
pub proc_exit-HasCode :
    (code c k : ℕ) (p q : Process) (t u : Table)
    → t.current ≡ some c
    → get_elem? t.procs c ≡ some p
    → proc_get t.procs p.parent ≡ some (k, q)
    → proc_exit code t ≡ some u
    → HasCode u.procs k p.pid code
unfolding proc_exit
proc_exit-HasCode code c k p q t u cur at parent e =
    leave_to-HasCode (next_of left) left u k p.pid code
      (sym (ap (λ o. exit_current code o t) cur ∙ ap (λ o. exit_at code c o t) at) ∙ e)
      (HasCode-modify told.procs c k p.pid code
        (λ r. record r { exit_code = code; state = terminated }) (λ r. (refl, refl))
        (tell_parent-HasCode code p t k q parent))
  where
    told : Table
    told = tell_parent code p t

    left : Table
    left = end_slot code c told
