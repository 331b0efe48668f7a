-- ===== src/Sched/Exit.antt =====
-- `proc_exit` and `proc_waitpid` of kernel/proc.c.
use siathos.Prelude.{ℕ, Option, none, some, ◌==◌, if◌then◌else◌, get_elem?, modify}
use siathos.Proc.{terminated, is_terminated, Process, Table, proc_get}
use siathos.Sched.{next_of, switch_to, sched_wakeup}

-- The exit code goes to the parent's slot, and the parent is woken. `code` is the `int` as its bits.
abbrev pub tell_at : Option (ℕ × Process) → ℕ → Process → Table → Table
tell_at none code p t = t
tell_at (some (k, _)) code p t =
    sched_wakeup
      (record t { procs = modify t.procs k (λ q. record q { wait_pid = p.pid; wait_code = code }) })
      p.parent

unfoldable pub tell_parent : ℕ → Process → Table → Table
tell_parent code p t = tell_at (proc_get t.procs p.parent) code p t

abbrev pub leave_to : Option ℕ → Table → Option Table
leave_to none t = none
leave_to (some i) t = some (switch_to t i)

abbrev pub end_slot : ℕ → ℕ → Table → Table
end_slot code c t = record t {
  procs = modify t.procs c (λ q. record q { exit_code = code; state = terminated });
}

abbrev pub exit_at : ℕ → ℕ → Option Process → Table → Option Table
exit_at code c none t = none
exit_at code c (some p) t =
    let left = end_slot code c (tell_parent code p t) in leave_to (next_of left) left

abbrev pub exit_current : ℕ → Option ℕ → Table → Option Table
exit_current code none t = none
exit_current code (some c) t = exit_at code c (get_elem? t.procs c) t

-- `proc_exit`; `none` is the halt, with no current process or none left that is ready.
unfoldable pub proc_exit : ℕ → Table → Option Table
proc_exit code t = exit_current code t.current t

-- What a pass of `proc_waitpid` comes to: a code, the result -1, a wait in `sched_block` before the
-- next pass, or a read through the null pointer that `proc_get` gave after a wait.
pub data Wait : Type 0 where
  exited : ℕ → Wait
  refused : Wait
  waits : Wait
  null_read : Wait

abbrev pub take_code : Table → ℕ → Process → Wait × Table
take_code t c me =
    (exited me.wait_code, record t { procs = modify t.procs c (λ q. record q { wait_pid = 0 }) })

-- One round of the loop: `kid` is the pointer that the round starts with. A slot that `proc_get`
-- found is present, so `!kid->present` is false.
unfoldable pub wait_round : Table → ℕ → ℕ → Process → Option Process → Wait × Table
wait_round t pid c me kid = if me.wait_pid == pid then take_code t c me else elim kid [
  | none ↦ (null_read, t)
  | some k ↦ (if is_terminated k.state then refused else waits, t)
]

abbrev pub kid_of : Table → ℕ → Option Process
kid_of t pid = elim (proc_get t.procs pid) [ none ↦ none | some (_, k) ↦ some k ]

abbrev pub waitpid_kid : Option Process → Table → ℕ → ℕ → Process → Wait × Table
waitpid_kid none t pid c me = (refused, t)
waitpid_kid (some k) t pid c me =
    if k.parent == me.pid then wait_round t pid c me (some k) else (refused, t)

abbrev pub waitpid_me : Option Process → Table → ℕ → ℕ → Wait × Table
waitpid_me none t pid c = (refused, t)
waitpid_me (some me) t pid c = waitpid_kid (kid_of t pid) t pid c me

abbrev pub waitpid_by : Option ℕ → Table → ℕ → Wait × Table
waitpid_by none t pid = (refused, t)
waitpid_by (some c) t pid = waitpid_me (get_elem? t.procs c) t pid c

-- The start of `proc_waitpid`, and its first round.
unfoldable pub waitpid : Table → ℕ → Wait × Table
waitpid t pid = waitpid_by t.current t pid

abbrev pub again_at : Option Process → Table → ℕ → ℕ → Wait × Table
again_at none t pid c = (refused, t)
again_at (some me) t pid c = wait_round t pid c me (kid_of t pid)

-- The round after `sched_block`, when process `c` runs again.
unfoldable pub waitpid_again : Table → ℕ → ℕ → Wait × Table
waitpid_again t pid c = again_at (get_elem? t.procs c) t pid c
