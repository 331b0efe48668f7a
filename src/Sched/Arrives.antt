-- ===== src/Sched/Arrives.antt =====
-- An exit code stays in the parent's slot while other processes run, until `proc_waitpid` of
-- kernel/proc.c takes it.
use mathlib.Core.Option.{some-injective}
use siathos.Prelude.{
  ℕ, zero, suc, ◌≡◌, ◌≢◌, inl, inr, refl, sym, subst, ap, ◌∙◌, Bool, true, false, Option, none,
  some, List, [], ◌∷◌, arith, ◌==◌, if◌then◌else◌, Bool-cases, get_elem?, modify,
  get_elem?-modify_ne, get_elem?-modify-some,
}
use siathos.Proc.{
  ProcState, ready, running, blocked, terminated, is_running, is_terminated, Process, Table,
  proc_get, set_state, find_free, make_slot, proc_create,
}
use siathos.Sched.{
  gc, gc_table, is_zombie, set_at, switch_to, set_back, next_of, yield_to, yield_when, sched_yield,
  preempt_to, preempt_when, preempt_pick, block_to, block_at, sched_block, sched_wakeup, state_at,
}
use siathos.Sched.Exit.{
  tell_at, tell_parent, end_slot, exit_at, exit_current, proc_exit, exited, Wait, wait_round,
  waitpid_kid, waitpid_me, waitpid_by, kid_of, waitpid, waitpid_again, again_at,
}
use siathos.Sched.Waiting.{
  HasCode, HasCode-modify, wake-HasCode, leave_to-HasCode, proc_exit-HasCode,
}

-- A step in which no process exits whose parent is the one of slot `k`, no new process is put into
-- that slot, and no round of `proc_waitpid` is made by that slot's process.
pub data Passes (k : ℕ) (t u : Table) : Type 0 where
  yields : (active : ℕ) → u ≡ sched_yield active t → Passes k t u
  preempts : (active : ℕ) → u ≡ (preempt_pick active t).1 → Passes k t u
  blocks : u ≡ (sched_block t).1 → Passes k t u
  wakes : (pid : ℕ) → u ≡ sched_wakeup t pid → Passes k t u
  exits :
      (code : ℕ)
      → ((c : ℕ) (p q : Process)
          → t.current ≡ some c
          → get_elem? t.procs c ≡ some p
          → proc_get t.procs p.parent ≢ some (k, q))
      → proc_exit code t ≡ some u
      → Passes k t u
  creates :
      (name : List ℕ) (rights stack cr3 : ℕ)
      → ((q : Process) → find_free t.procs ≢ some (k, q))
      → u ≡ (proc_create name rights stack cr3 t).1
      → Passes k t u
  starts : (pid : ℕ) → t.current ≢ some k → u ≡ (waitpid t pid).1 → Passes k t u
  goes_on : (pid c : ℕ) → c ≢ k → u ≡ (waitpid_again t pid c).1 → Passes k t u

pub data Later (k : ℕ) (t : Table) : Table → Type 0 where
  now : Later k t t
  step : {u v : Table} → Later k t u → Passes k u v → Later k t v

module _ (k pid code : ℕ) where
  abbrev Has : Table → Type 0
  Has t = HasCode t.procs k pid code

  set_state-Has : (t : Table) (i : ℕ) (st : ProcState) → Has t → Has (set_state t i st)
  set_state-Has t i st h =
      HasCode-modify t.procs i k pid code (λ q. record q { state = st }) (λ q. (refl, refl)) h

  set_at-Has : (o : Option ℕ) (st : ProcState) (t : Table) → Has t → Has (set_at o st t)
  set_at-Has none st t h = h
  set_at-Has (some i) st t h = set_state-Has t i st h

  switch_to-Has : (t : Table) (i : ℕ) → Has t → Has (switch_to t i)
  switch_to-Has t i h = set_state-Has t i running h

  gc-HasCode :
      (active : ℕ) (ps : List Process) (j : ℕ)
      → HasCode ps j pid code
      → HasCode (gc active ps).0 j pid code
  unfolding gc
  gc-HasCode active [] j (q, g, a, b) = absurd (ground (arith, g))
  gc-HasCode active (p ∷ ps) zero (q, g, a, b) =
      let at : p ≡ q = some-injective _ _ g in
      elim (Bool-cases (is_zombie p)) [
        | inl on ↦ rw on (
          _,
          refl,
          ap (λ (x : Process). x.wait_pid) at ∙ a,
          ap (λ (x : Process). x.wait_code) at ∙ b,
        )
        | inr off ↦ rw off (q, g, a, b)
      ]
  gc-HasCode active (p ∷ ps) (suc j) h = elim (Bool-cases (is_zombie p)) [
    | inl on ↦ rw on (gc-HasCode active ps j h)
    | inr off ↦ rw off (gc-HasCode active ps j h)
  ]

  set_back-Has : (t : Table) → Has t → Has (set_back t)
  set_back-Has t h = elim (Bool-cases (state_at t.current t.procs is_running)) [
    | inl on ↦ rw on (set_at-Has t.current ready t h)
    | inr off ↦ rw off h
  ]

  yield_to-Has : (c next : Option ℕ) (t : Table) → Has t → Has (yield_to c next t)
  yield_to-Has c none t h = set_at-Has c running t h
  yield_to-Has none (some i) t h = switch_to-Has t i h
  yield_to-Has (some c) (some i) t h = elim (Bool-cases (c == i)) [
    | inl same ↦ rw same (set_state-Has t c running h)
    | inr other ↦ rw other (switch_to-Has (set_state t c ready) i (set_state-Has t c ready h))
  ]

  yield_when-Has : (on : Bool) (t : Table) → Has t → Has (yield_when on t)
  yield_when-Has false t h = h
  yield_when-Has true t h =
      yield_to-Has (set_back t).current (next_of (set_back t)) (set_back t) (set_back-Has t h)

  sched_yield-Has : (active : ℕ) (t : Table) → Has t → Has (sched_yield active t)
  unfolding sched_yield
  sched_yield-Has active t h =
      yield_when-Has t.scheduler_running (gc_table active t) (gc-HasCode active t.procs k h)

  preempt_to-Has : (next : Option ℕ) (t : Table) → Has t → Has (preempt_to next t).1
  preempt_to-Has none t h = set_at-Has t.current running t h
  preempt_to-Has (some i) t h = elim (Bool-cases (i == t.current_index)) [
    | inl same ↦ rw same (set_at-Has t.current running t h)
    | inr other ↦ rw other (switch_to-Has t i h)
  ]

  preempt_when-Has : (on : Bool) (t : Table) → Has t → Has (preempt_when on t).1
  preempt_when-Has false t h = h
  preempt_when-Has true t h =
      let back = set_at t.current ready t in
      preempt_to-Has (next_of back) back (set_at-Has t.current ready t h)

  preempt_pick-Has : (active : ℕ) (t : Table) → Has t → Has (preempt_pick active t).1
  unfolding preempt_pick
  preempt_pick-Has active t h =
      preempt_when-Has _ (gc_table active t) (gc-HasCode active t.procs k h)

  block_to-Has : (c : ℕ) (next : Option ℕ) (t : Table) → Has t → Has (block_to c next t).1
  block_to-Has c none t h = set_state-Has t c running h
  block_to-Has c (some i) t h = switch_to-Has t i h

  block_at-Has : (c : Option ℕ) (t : Table) → Has t → Has (block_at c t).1
  block_at-Has none t h = h
  block_at-Has (some c) t h =
      let asleep = set_state t c blocked in
      block_to-Has c (next_of asleep) asleep (set_state-Has t c blocked h)

  -- A write to another slot.
  other-HasCode :
      (ps : List Process) (i : ℕ) (f : Process → Process)
      → i ≢ k
      → HasCode ps k pid code
      → HasCode (modify ps i f) k pid code
  other-HasCode ps i f ne (q, g, a, b) = (q, get_elem?-modify_ne ps i k f ne ∙ g, a, b)

  tell_at-Has :
      (o : Option (ℕ × Process)) (c : ℕ) (p : Process) (t : Table)
      → ((q : Process) → o ≢ some (k, q))
      → Has t
      → Has (tell_at o c p t)
  unfolding sched_wakeup
  tell_at-Has none c p t away h = h
  tell_at-Has (some (i, q)) c p t away h = wake-HasCode _ _ k pid code (
      other-HasCode t.procs i (λ q. record q { wait_pid = p.pid; wait_code = c })
        (λ e. away q (ap (λ j. some (j, q)) e)) h)

  exit_at-Has :
      (c i : ℕ) (o : Option Process) (t u : Table)
      → ((p q : Process) → o ≡ some p → proc_get t.procs p.parent ≢ some (k, q))
      → exit_at c i o t ≡ some u
      → Has t
      → Has u
  unfolding tell_parent
  exit_at-Has c i none t u away e h = absurd (ground (arith, e))
  exit_at-Has c i (some p) t u away e h =
      let told = tell_parent c p t in
      let left = end_slot c i told in
      leave_to-HasCode (next_of left) left u k pid code e (
        HasCode-modify told.procs i k pid code (λ r. record r { exit_code = c; state = terminated })
          (λ r. (refl, refl))
          (tell_at-Has (proc_get t.procs p.parent) c p t (λ q. away p q refl) h))

  exit_current-Has :
      (c : ℕ) (o : Option ℕ) (t u : Table)
      → ((i : ℕ) (p q : Process)
          → o ≡ some i
          → get_elem? t.procs i ≡ some p
          → proc_get t.procs p.parent ≢ some (k, q))
      → exit_current c o t ≡ some u
      → Has t
      → Has u
  exit_current-Has c none t u away e h = absurd (ground (arith, e))
  exit_current-Has c (some i) t u away e h =
      exit_at-Has c i (get_elem? t.procs i) t u (λ p q at. away i p q refl at) e h

  make_slot-Has :
      (name : List ℕ) (rights stack cr3 : ℕ) (o : Option (ℕ × Process)) (t : Table)
      → ((q : Process) → o ≢ some (k, q))
      → Has t
      → Has (make_slot name rights stack cr3 o t).1
  make_slot-Has name rights stack cr3 none t away h = h
  make_slot-Has name rights stack cr3 (some (i, p)) t away h = elim (Bool-cases (stack == 0)) [
    | inl e ↦ rw e (other-HasCode t.procs i _ (λ e. away p (ap (λ j. some (j, p)) e)) h)
    | inr e ↦ rw e (other-HasCode t.procs i _ (λ e. away p (ap (λ j. some (j, p)) e)) h)
  ]

  wait_round-Has :
      (t : Table) (n c : ℕ) (me : Process) (kid : Option Process)
      → c ≢ k
      → Has t
      → Has (wait_round t n c me kid).1
  unfolding wait_round
  wait_round-Has t n c me kid ne h = elim (Bool-cases (me.wait_pid == n)) [
    | inl on ↦ rw on (other-HasCode t.procs c (λ q. record q { wait_pid = 0 }) ne h)
    | inr off ↦ rw off (unchanged kid)
  ]
    where
      unchanged :
          (o : Option Process)
          → Has
              (elim o as (λ o. Wait × Table) [
                | none ↦ (Wait.null_read, t)
                | some q ↦ (if is_terminated q.state then Wait.refused else Wait.waits, t)
              ]).1
      unchanged none = h
      unchanged (some q) = h

  again_at-Has :
      (o : Option Process) (t : Table) (n c : ℕ) → c ≢ k → Has t → Has (again_at o t n c).1
  again_at-Has none t n c ne h = h
  again_at-Has (some me) t n c ne h = wait_round-Has t n c me (kid_of t n) ne h

  waitpid_kid-Has :
      (o : Option Process) (t : Table) (n c : ℕ) (me : Process)
      → c ≢ k
      → Has t
      → Has (waitpid_kid o t n c me).1
  waitpid_kid-Has none t n c me ne h = h
  waitpid_kid-Has (some q) t n c me ne h = elim (Bool-cases (q.parent == me.pid)) [
    | inl on ↦ rw on (wait_round-Has t n c me (some q) ne h)
    | inr off ↦ rw off h
  ]

  waitpid_me-Has :
      (o : Option Process) (t : Table) (n c : ℕ) → c ≢ k → Has t → Has (waitpid_me o t n c).1
  waitpid_me-Has none t n c ne h = h
  waitpid_me-Has (some me) t n c ne h = waitpid_kid-Has (kid_of t n) t n c me ne h

  waitpid_by-Has :
      (o : Option ℕ) (t : Table) (n : ℕ) → o ≢ some k → Has t → Has (waitpid_by o t n).1
  waitpid_by-Has none t n ne h = h
  waitpid_by-Has (some c) t n ne h =
      waitpid_me-Has (get_elem? t.procs c) t n c (λ e. ne (ap some e)) h

  Passes-Has : (t u : Table) → Passes k t u → Has t → Has u
  unfolding sched_block sched_wakeup proc_exit proc_create waitpid waitpid_again
  Passes-Has t u (yields active e) h = subst (λ v. Has v) (sym e) (sched_yield-Has active t h)
  Passes-Has t u (preempts active e) h = subst (λ v. Has v) (sym e) (preempt_pick-Has active t h)
  Passes-Has t u (blocks e) h = subst (λ v. Has v) (sym e) (block_at-Has t.current t h)
  Passes-Has t u (wakes n e) h = subst (λ v. Has v) (sym e) (wake-HasCode _ t k pid code h)
  Passes-Has t u (exits c away e) h = exit_current-Has c t.current t u away e h
  Passes-Has t u (creates name rights stack cr3 away e) h =
      subst (λ v. Has v) (sym e) (make_slot-Has name rights stack cr3 (find_free t.procs) t away h)
  Passes-Has t u (starts n ne e) h = subst (λ v. Has v) (sym e) (waitpid_by-Has t.current t n ne h)
  Passes-Has t u (goes_on n c ne e) h =
      subst (λ v. Has v) (sym e) (again_at-Has (get_elem? t.procs c) t n c ne h)

  Later-Has : (t u : Table) → Later k t u → Has t → Has u
  Later-Has t u now h = h
  Later-Has t u (step {u = v} l s) h = Passes-Has v u s (Later-Has t v l h)

-- When a process exits whose parent is found in slot `k`, and after that any yields, preemptions,
-- waits, wake-ups, exits, creations and rounds of `proc_waitpid` happen, as long as no other child of
-- the process in slot `k` exits, no new process is put into the slot, and the slot's own process makes
-- no round of `proc_waitpid`, then such a round for the child in slot `k` gives the child's exit code,
-- and leaves none to take in the slot.
pub waitpid_again-Later :
    (code c k : ℕ) (p q : Process) (t u v : Table)
    → t.current ≡ some c
    → get_elem? t.procs c ≡ some p
    → proc_get t.procs p.parent ≡ some (k, q)
    → proc_exit code t ≡ some u
    → Later k u v
    → ((waitpid_again v p.pid k).0 ≡ exited code)
      × ((r : Process) → get_elem? (waitpid_again v p.pid k).1.procs k ≡ some r → r.wait_pid ≡ 0)
unfolding waitpid_again wait_round
waitpid_again-Later code c k p q t u v cur at parent e later =
    let (me, g, pid, got) =
      Later-Has k p.pid code u v later (proc_exit-HasCode code c k p q t u cur at parent e) in
    let hit : (me.wait_pid == p.pid) ≡ true = ground arith in
    rw (g, again_at, hit)
      (
        ap exited got,
        λ r h. let (a, b, d) = get_elem?-modify-some v.procs k k _ r h in ground arith,
      )
