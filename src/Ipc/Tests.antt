-- ===== src/Ipc/Tests.antt =====
-- A message that goes from one process to another.
use siathos.Prelude.{
  ℕ, zero, suc, ◌≡◌, refl, true, Option, some, List, [], ◌∷◌, arith, replicate, length-replicate,
  get_elem?,
}
use siathos.Proc.{Process, Table, running}
use siathos.Sched.{sched_wakeup}
use siathos.Sched.Tests.{process}
use siathos.Ipc.{Mailbox, Ipc, blank, cap_ipc, got, send, receive, receive_round, mailbox_for, push}
use siathos.Ipc.Queue.{IsRing}
use siathos.Ipc.Route.{IsReady}
use siathos.Ipc.Send.{SendCases, send-cases}
use siathos.Ipc.Receive.{RoundCases, receive_round-cases}

abbrev mailbox : Mailbox
mailbox = record { pid = 0; msgs = replicate 64 blank; head = 0; count = 0 }

abbrev two_boxes : Ipc
two_boxes = record { mailboxes = mailbox ∷ mailbox ∷ []; ipc_ready = true }

mailbox-IsRing : IsRing mailbox
mailbox-IsRing = record {
  room = length-replicate 64 blank;
  place = omega arith;
  fits = omega arith;
}

two_boxes-IsRing : (i : ℕ) (mb : Mailbox) → get_elem? two_boxes.mailboxes i ≡ some mb → IsRing mb
two_boxes-IsRing zero mb e = ground (arith, mailbox-IsRing, e)
two_boxes-IsRing (suc zero) mb e = ground (arith, mailbox-IsRing, e)
two_boxes-IsRing (suc (suc i)) mb e = absurd (ground (arith, e))

two_boxes-IsReady : IsReady two_boxes
two_boxes-IsReady = record { on = refl; rings = two_boxes-IsRing }

abbrev child : Process
child = record (process 2 1 running) { rights = cap_ipc }

abbrev parent : Process
parent = record (process 1 0 running) { rights = cap_ipc }

-- The child runs, then the parent.
abbrev family : Option ℕ → Table
family c = record {
  procs = parent ∷ child ∷ [];
  next_pid = 3;
  current = c;
  current_index = 0;
  scheduler_running = true;
}

abbrev bytes : List ℕ
bytes = 104 ∷ 105 ∷ 33 ∷ []

abbrev after_send : Ipc
after_send = (send 1 7 bytes 3 two_boxes (family (some 1))).1.0

receive_two : (receive 2 after_send (family (some 0))).0 ≡ got 2 7 (104 ∷ 105 ∷ [])
unfolding send receive receive_round mailbox_for push sched_wakeup
receive_two = refl

send-cases_example :
    SendCases 1 7 bytes 3 two_boxes (family (some 1)) (send 1 7 bytes 3 two_boxes (family (some 1)))
send-cases_example = send-cases 1 7 bytes 3 two_boxes (family (some 1)) two_boxes-IsReady

receive_round-cases_example : RoundCases 2 512 two_boxes (receive_round 2 512 two_boxes)
receive_round-cases_example = receive_round-cases 2 512 two_boxes two_boxes-IsReady
