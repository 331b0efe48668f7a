-- ===== src/Ipc.antt =====
-- Messages between processes, kernel/ipc.c. The bytes that `data` and `buf` point to are lists, and
-- a pointer to a mailbox is its index. The blocking receive is modelled by its rounds, with
-- `sched_block` between them.
pub mod Queue
pub mod Route
pub mod Send
pub mod Receive
mod Tests
use siathos.Prelude.{
  ℕ, zero, suc, ◌+◌, ◌-◌, ◌%◌, ◌^◌, Bool, true, false, not, Option, none, some, List, [], ◌∷◌, map,
  leb, ltb, ◌==◌, ◌!=◌, if◌then◌else◌, bit_and, get_elem?, get_or, set, modify, take, find_slot,
}
use siathos.Proc.{Process, Table}
use siathos.Sched.{sched_wakeup}

abbrev pub queue_max : ℕ
queue_max = 64

abbrev pub msg_max : ℕ
msg_max = 4096

-- `CAP_IPC`
abbrev pub cap_ipc : ℕ
cap_ipc = 2 ^ 10

-- `ipc_message_t`; `payload` are the first `size` bytes of the array, whose rest is 0.
pub record Message : Type 0 where
  pub sender : ℕ
  pub receiver : ℕ
  pub kind : ℕ
  pub payload : List ℕ
  pub size : ℕ

-- `mailbox_t`
pub record Mailbox : Type 0 where
  pub pid : ℕ
  pub msgs : List Message
  pub head : ℕ
  pub count : ℕ

-- The static variables `mailboxes` and `ipc_ready`.
pub record Ipc : Type 0 where
  pub mailboxes : List Mailbox
  pub ipc_ready : Bool

-- What a read past the end of `msgs` would give; no index of the code lies there.
abbrev pub blank : Message
blank = record { sender = 0; receiver = 0; kind = 0; payload = []; size = 0 }

abbrev pub emptied : ℕ → Mailbox → Mailbox
emptied pid mb = record mb { pid = pid; head = 0; count = 0 }

pub ipc_init : Ipc → Ipc
ipc_init s = record { mailboxes = map (emptied 0) s.mailboxes; ipc_ready = true }

abbrev pub owned : ℕ → Mailbox → Bool
owned pid mb = mb.pid == pid

-- The second loop of `mailbox_for`, at the slot that it stops at.
abbrev pub claim : Option (ℕ × Mailbox) → ℕ → Ipc → Option ℕ × Ipc
claim none pid s = (none, s)
claim (some (i, _)) pid s = (some i, record s { mailboxes = modify s.mailboxes i (emptied pid) })

abbrev pub found_or_claim : Option (ℕ × Mailbox) → ℕ → Ipc → Option ℕ × Ipc
found_or_claim (some (i, _)) pid s = (some i, s)
found_or_claim none pid s = claim (find_slot (owned 0) s.mailboxes) pid s

unfoldable pub mailbox_for : ℕ → Ipc → Option ℕ × Ipc
mailbox_for pid s =
    if not s.ipc_ready then (none, s) else found_or_claim (find_slot (owned pid) s.mailboxes) pid s

pub push : Message → Mailbox → Mailbox
push m mb =
    if leb queue_max mb.count
    then mb
    else record mb { msgs = set mb.msgs ((mb.head + mb.count) % queue_max) m; count = mb.count + 1 }

-- The message that `mailbox_pop` copies out; the test of its count is `count == 0`.
abbrev pub front : Mailbox → Message
front mb = get_or mb.msgs mb.head blank

unfoldable pub pop : Mailbox → Mailbox
pop mb = record mb { head = (mb.head + 1) % queue_max; count = mb.count - 1 }

-- What `current_proc` points to.
abbrev pub current_of : Table → Option Process
current_of t = elim t.current [ none ↦ none | some c ↦ get_elem? t.procs c ]

abbrev pub has_ipc : Process → Bool
has_ipc p = bit_and p.rights cap_ipc != 0

-- The results 0, -1 and -2.
pub data Sent : Type 0 where
  sent no_right no_mailbox : Sent

abbrev pub message : Process → ℕ → ℕ → List ℕ → ℕ → Message
message me to kind bytes size =
    let n = if ltb msg_max size then msg_max else size in
    record { sender = me.pid; receiver = to; kind = kind; payload = take n bytes; size = n }

abbrev pub send_in : Option ℕ × Ipc → Message → ℕ → Table → Sent × (Ipc × Table)
send_in (none, s) m to t = (no_mailbox, (s, t))
send_in (some i, s) m to t =
    (sent, (record s { mailboxes = modify s.mailboxes i (push m) }, sched_wakeup t to))

abbrev pub send_by : Option Process → ℕ → ℕ → List ℕ → ℕ → Ipc → Table → Sent × (Ipc × Table)
send_by none to kind bytes size s t = (no_right, (s, t))
send_by (some me) to kind bytes size s t =
    if has_ipc me
    then send_in (mailbox_for to s) (message me to kind bytes size) to t
    else (no_right, (s, t))

-- `do_send`, which `ipc_send` and `ipc_reply` are. `bytes` is what lies from `data` on.
pub send : ℕ → ℕ → List ℕ → ℕ → Ipc → Table → Sent × (Ipc × Table)
unfolding mailbox_for push
send to kind bytes size s t = send_by (current_of t) to kind bytes size s t

-- `got` has the sender, the type and the bytes copied; `nothing` is an empty mailbox: -3 for
-- `ipc_try_receive`, a `sched_block` before the next round for `ipc_receive`.
pub data Received : Type 0 where
  got : ℕ → ℕ → List ℕ → Received
  nothing denied absent : Received

abbrev pub copied : Message → ℕ → List ℕ
copied m room = take (if ltb room m.size then room else m.size) m.payload

abbrev pub receive_at : ℕ → Option Mailbox → ℕ → Ipc → Received × Ipc
receive_at i none room s = (absent, s)
receive_at i (some mb) room s = if mb.count == 0 then (nothing, s) else (
  got (front mb).sender (front mb).kind (copied (front mb) room),
  record s { mailboxes = modify s.mailboxes i pop },
)

abbrev pub receive_in : Option ℕ × Ipc → ℕ → Received × Ipc
receive_in (none, s) room = (absent, s)
receive_in (some i, s) room = receive_at i (get_elem? s.mailboxes i) room s

-- A round of the loop of `ipc_receive`, for the process `me`.
unfoldable pub receive_round : ℕ → ℕ → Ipc → Received × Ipc
unfolding mailbox_for pop
receive_round me room s = receive_in (mailbox_for me s) room

abbrev pub receive_by : Option Process → ℕ → Ipc → Received × Ipc
receive_by none room s = (denied, s)
receive_by (some me) room s = if has_ipc me then receive_round me.pid room s else (denied, s)

-- `ipc_try_receive`, and `ipc_receive` up to its first `sched_block`.
unfoldable pub receive : ℕ → Ipc → Table → Received × Ipc
unfolding receive_round
receive room s t = receive_by (current_of t) room s

-- `ipc_send_blocking` up to the first `sched_block` of its receive; the reply is not kept.
pub send_blocking : ℕ → ℕ → List ℕ → ℕ → Ipc → Table → Sent × (Option Received × (Ipc × Table))
unfolding send receive
send_blocking to kind bytes size s t =
    let (r, u) = send to kind bytes size s t in
    elim r [
      | sent ↦ let (w, s') = receive msg_max u.0 u.1 in (sent, (some w, (s', u.1)))
      | no_right ↦ (no_right, (none, u))
      | no_mailbox ↦ (no_mailbox, (none, u))
    ]
