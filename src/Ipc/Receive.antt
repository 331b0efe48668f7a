-- ===== src/Ipc/Receive.antt =====
-- `ipc_try_receive` and the rounds of `ipc_receive` of kernel/ipc.c, on each of their branches.
use siathos.Prelude.{
  ℕ, ◌≤◌, ◌≡◌, ◌⊎◌, inl, inr, refl, sym, ap, subst, ◌∙◌, true, false, Option, none, some, List, [],
  ◌∷◌, arith, Bool-cases, ltb, get_elem?, length-take, ◌==◌, length, if◌then◌else◌, modify,
  find_slot-get,
}
use siathos.Proc.{Process, Table}
use siathos.Ipc.{
  Message, Mailbox, mailbox_for, Ipc, owned, front, pop, current_of, has_ipc, Received, got,
  nothing, denied, absent, copied, receive_at, receive_in, receive_round, receive_by, receive,
}
use siathos.Ipc.Queue.{contents, pop-IsRing, contents-pop, length-contents}
use siathos.Ipc.Route.{
  queue_at, queue_of, IsReady, OthersKept, Opened, mailbox_for-cases, Opened-write, pop-pid,
  Opened-IsRing,
}
use siathos.Ipc.Send.{IsShutOut}

-- What a receive hands over, from the messages that wait: the first one, cut to the room there is.
abbrev pub handed : List Message → ℕ → Received
handed [] room = nothing
handed (m ∷ ms) room = got m.sender m.kind (copied m room)

abbrev pub rest_of : List Message → List Message
rest_of [] = []
rest_of (m ∷ ms) = ms

pub record Handed (pid room : ℕ) (s : Ipc) (r : Received × Ipc) : Type 0 where
  pub result : r.0 ≡ handed (queue_of s pid) room
  pub queue : queue_of r.1 pid ≡ rest_of (queue_of s pid)
  pub others : OthersKept pid s r.1
  pub ready : IsReady r.1

abbrev pub RoundCases : ℕ → ℕ → Ipc → Received × Ipc → Type 0
RoundCases pid room s r = ((r ≡ (absent, s)) × IsShutOut s pid) ⊎ Handed pid room s r

-- The open mailbox is read.
receive_at-Handed :
    (pid room : ℕ) (s u : Ipc) (i : ℕ) (o : Opened pid s u i) (ms : List Message)
    → contents o.mb ≡ ms
    → Handed pid room s (receive_at i (some o.mb) room u)
receive_at-Handed pid room s u i o [] e =
    let empty : (o.mb.count == 0) ≡ true = ground (arith, length-contents o.mb, ap length e) in
    let same : receive_at i (some o.mb) room u ≡ (nothing, u) =
      ap (λ b. if b then (nothing, u) else taken) empty in
    subst (Handed pid room s) (sym same) (record {
      result = sym (ap (λ ms. handed ms room) (sym o.queue ∙ e));
      queue = ap queue_at o.found ∙ e ∙ sym (ap rest_of (sym o.queue ∙ e));
      others = o.others;
      ready = o.ready;
    })
  where
    taken : Received × Ipc
    taken = (
      got (front o.mb).sender (front o.mb).kind (copied (front o.mb) room),
      record u { mailboxes = modify u.mailboxes i pop },
    )
receive_at-Handed pid room s u i o (m ∷ ms) e =
    let some_left : (o.mb.count == 0) ≡ false = ground (arith, length-contents o.mb, ap length e) in
    let same : receive_at i (some o.mb) room u ≡ taken =
      ap (λ b. if b then (nothing, u) else taken) some_left in
    let w = Opened-write pid s u i pop pop-IsRing pop-pid o in
    let (first, left) = contents-pop o.mb m ms (Opened-IsRing pid s u i o) e in
    subst (Handed pid room s) (sym same) (record {
      result =
          ap (λ (x : Message). got x.sender x.kind (copied x room)) first
          ∙ sym (ap (λ ms. handed ms room) (sym o.queue ∙ e));
      queue = w.queue ∙ left ∙ sym (ap rest_of (sym o.queue ∙ e));
      others = w.others;
      ready = w.ready;
    })
  where
    taken : Received × Ipc
    taken = (
      got (front o.mb).sender (front o.mb).kind (copied (front o.mb) room),
      record u { mailboxes = modify u.mailboxes i pop },
    )

-- A round of `ipc_receive`, and `ipc_try_receive` behind its test of `CAP_IPC`, either finds no
-- mailbox and changes nothing; or hands over the first message that waits for the process, cut to
-- the buffer's size, and takes it alone from the queue, or finds the queue empty and keeps it. The
-- queues of all other processes are the same.
pub receive_round-cases :
    (me room : ℕ) (s : Ipc) → IsReady s → RoundCases me room s (receive_round me room s)
unfolding receive_round
receive_round-cases me room s r = elim (mailbox_for-cases me s r) [
  | inl (none_left, no_own, no_free) ↦
      inl (ap (λ o. receive_in o room) none_left, (no_own, no_free))
  | inr (i, u, e, o) ↦
      let (g, _) = find_slot-get (owned me) u.mailboxes i o.mb o.found in
      inr (
        subst (Handed me room s)
          (sym (ap (λ x. receive_in x room) e ∙ ap (λ x. receive_at i x room u) g))
          (receive_at-Handed me room s u i o (contents o.mb) refl))
]

-- What is copied fits the buffer.
abbrev pub Fits : ℕ → Received → Type 0
Fits room (got from kind bytes) = length bytes ≤ room
Fits room nothing = Unit {0}
Fits room denied = Unit {0}
Fits room absent = Unit {0}

copied-short : (m : Message) (room : ℕ) → length (copied m room) ≤ room
copied-short m room = elim (Bool-cases (ltb room m.size)) [
  | inl cut ↦ rw cut (omega (arith, length-take room m.payload))
  | inr whole ↦
      let small : m.size ≤ room = ground (arith, whole) in
      rw whole (omega (arith, small, length-take m.size m.payload))
]

receive_in-Fits : (o : Option ℕ × Ipc) (room : ℕ) → Fits room (receive_in o room).0
receive_in-Fits (none, s) room = tt
receive_in-Fits (some i, s) room = at (get_elem? s.mailboxes i)
  where
    at : (o : Option Mailbox) → Fits room (receive_at i o room s).0
    at none = tt
    at (some mb) = elim (Bool-cases (mb.count == 0)) [
      | inl empty ↦ rw empty tt
      | inr more ↦ rw more (copied-short (front mb) room)
    ]

pub receive-Fits : (room : ℕ) (s : Ipc) (t : Table) → Fits room (receive room s t).0
unfolding receive receive_round
receive-Fits room s t = by (current_of t)
  where
    by : (o : Option Process) → Fits room (receive_by o room s).0
    by none = tt
    by (some me) = elim (Bool-cases (has_ipc me)) [
      | inl on ↦ rw on (receive_in-Fits (mailbox_for me.pid s) room)
      | inr off ↦ rw off tt
    ]
