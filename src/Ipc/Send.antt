-- ===== src/Ipc/Send.antt =====
-- `do_send` of kernel/ipc.c, on each of its branches.
use mathlib.Core.Option.{some-injective}
use siathos.Prelude.{
  ℕ, ◌≡◌, ◌⊎◌, inl, inr, refl, sym, ap, subst, ◌∙◌, true, false, Option, none, some, List, arith,
  if◌then◌else◌, Bool-cases, find_slot,
}
use siathos.Proc.{Process, Table}
use siathos.Sched.{sched_wakeup}
use siathos.Ipc.{
  Message, Ipc, owned, mailbox_for, push, current_of, has_ipc, Sent, sent, no_right, no_mailbox,
  message, send_in, send_by, send,
}
use siathos.Ipc.Queue.{push-IsRing, append, contents-push}
use siathos.Ipc.Route.{
  queue_of, IsReady, OthersKept, Opened, mailbox_for-cases, Opened-write, push-pid, Opened-IsRing,
}

-- A message that arrives.
pub record Delivered (to : ℕ) (m : Message) (s : Ipc) (t : Table) (u : Ipc × Table) : Type 0 where
  pub queue : queue_of u.0 to ≡ append m (queue_of s to)
  pub others : OthersKept to s u.0
  pub woken : u.1 ≡ sched_wakeup t to
  pub ready : IsReady u.0

-- No slot is left, nor one that is the process's.
abbrev pub IsShutOut : Ipc → ℕ → Type 0
IsShutOut s pid =
    (find_slot (owned pid) s.mailboxes ≡ none) × (find_slot (owned 0) s.mailboxes ≡ none)

abbrev pub SendCases : ℕ → ℕ → List ℕ → ℕ → Ipc → Table → Sent × (Ipc × Table) → Type 0
SendCases to kind bytes size s t r =
    ((r ≡ (no_right, (s, t))) × ((me : Process) → current_of t ≡ some me → has_ipc me ≡ false))
    ⊎ (((r ≡ (no_mailbox, (s, t))) × IsShutOut s to)
        ⊎ ((me : Process) × (current_of t ≡ some me)
            × (has_ipc me ≡ true)
            × (r.0 ≡ sent)
            × Delivered to (message me to kind bytes size) s t r.1))

send_in-Delivered :
    (to : ℕ) (m : Message) (s : Ipc) (t : Table) (i : ℕ) (u : Ipc)
    → Opened to s u i
    → Delivered to m s t (send_in (some i, u) m to t).1
send_in-Delivered to m s t i u o =
    let w = Opened-write to s u i (push m) (push-IsRing m) (push-pid m) o in
    record {
      queue = w.queue ∙ contents-push m o.mb (Opened-IsRing to s u i o) ∙ ap (append m) o.queue;
      others = w.others;
      woken = refl;
      ready = w.ready;
    }

send_by-cases :
    (me : Option Process) (to kind : ℕ) (bytes : List ℕ) (size : ℕ) (s : Ipc) (t : Table)
    → current_of t ≡ me
    → IsReady s
    → SendCases to kind bytes size s t (send_by me to kind bytes size s t)
send_by-cases none to kind bytes size s t at r = inl (refl, λ me e. absurd (ground (arith, at, e)))
send_by-cases (some me) to kind bytes size s t at r = elim (Bool-cases (has_ipc me)) [
  | inl can ↦ elim (mailbox_for-cases to s r) [
    | inl (none_left, no_own, no_free) ↦ inr (
        inl (
          ap (λ b. if b then there else refused) can
              ∙ ap (λ o. send_in o (message me to kind bytes size) to t) none_left,
          (no_own, no_free),
        ))
    | inr (i, u, e, o) ↦
        let to_open : send_by (some me) to kind bytes size s t ≡ send_in (some i, u) m to t =
          ap (λ b. if b then there else refused) can ∙ ap (λ o. send_in o m to t) e in
        inr (
          inr (
            me,
            at,
            can,
            ap (λ x. x.0) to_open,
            subst (Delivered to m s t) (sym (ap (λ x. x.1) to_open))
                (send_in-Delivered to m s t i u o),
          ))
  ]
  | inr cannot ↦ inl (
    ap (λ b. if b then there else refused) cannot,
    λ you e. ap has_ipc (some-injective _ _ (sym e ∙ at)) ∙ cannot,
  )
]
  where
    m : Message
    m = message me to kind bytes size

    there : Sent × (Ipc × Table)
    there = send_in (mailbox_for to s) m to t

    refused : Sent × (Ipc × Table)
    refused = (no_right, (s, t))

-- A send of ipc.c either is refused for want of `CAP_IPC` and changes nothing; or finds no mailbox,
-- since all are claimed and none by the receiver, and changes nothing; or succeeds: then the message
-- stands last in the receiver's queue unless 64 messages were waiting, the queues of all other
-- processes are the same, and the receiver is woken.
pub send-cases :
    (to kind : ℕ) (bytes : List ℕ) (size : ℕ) (s : Ipc) (t : Table)
    → IsReady s
    → SendCases to kind bytes size s t (send to kind bytes size s t)
unfolding send
send-cases to kind bytes size s t r = send_by-cases (current_of t) to kind bytes size s t refl r
