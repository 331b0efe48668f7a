-- ===== src/Ipc/Route.antt =====
-- Which queue a send of kernel/ipc.c adds to and a receive takes from, and that the queues of other
-- processes stay.
use siathos.Prelude.{
  ℕ, ◌≡◌, ◌≢◌, ◌⊎◌, inl, inr, refl, sym, ap, subst, ◌∙◌, true, not, Option, none, some, List, [],
  arith, ◌==◌, if◌then◌else◌, Bool-cases, Option-cases, get_elem?, modify, get_elem?-modify-some,
  find_slot, find_slot-get, find_slot-modify_found, find_slot-modify_new, find_slot-modify_other,
}
use siathos.Ipc.{
  Message, Mailbox, Ipc, emptied, owned, claim, found_or_claim, mailbox_for, push, pop,
}
use siathos.Ipc.Queue.{contents, IsRing, emptied-IsRing, contents-emptied}

abbrev pub queue_at : Option (ℕ × Mailbox) → List Message
queue_at none = []
queue_at (some (_, mb)) = contents mb

-- The messages that wait for a process.
abbrev pub queue_of : Ipc → ℕ → List Message
queue_of s pid = queue_at (find_slot (owned pid) s.mailboxes)

pub record IsReady (s : Ipc) : Type 0 where
  pub on : s.ipc_ready ≡ true
  pub rings : (i : ℕ) (mb : Mailbox) → get_elem? s.mailboxes i ≡ some mb → IsRing mb

-- The queues of all processes but `pid` are the same; pid 0 is no process's.
abbrev pub OthersKept : ℕ → Ipc → Ipc → Type 0
OthersKept pid s u = (other : ℕ) → other ≢ pid → other ≢ 0 → queue_of u other ≡ queue_of s other

-- `mailbox_for` gives slot `i`, which then holds the queue of `pid`.
pub record Opened (pid : ℕ) (s u : Ipc) (i : ℕ) : Type 0 where
  pub mb : Mailbox
  pub found : find_slot (owned pid) u.mailboxes ≡ some (i, mb)
  pub queue : contents mb ≡ queue_of s pid
  pub others : OthersKept pid s u
  pub ready : IsReady u

-- A write to the mailbox of `pid` that keeps its owner.
write-others :
    (s : Ipc) (pid i : ℕ) (mb : Mailbox) (f : Mailbox → Mailbox)
    → find_slot (owned pid) s.mailboxes ≡ some (i, mb)
    → (f mb).pid ≡ mb.pid
    → OthersKept pid s (record s { mailboxes = modify s.mailboxes i f })
write-others s pid i mb f e keep other ne nz =
    let (g, own) = find_slot-get (owned pid) s.mailboxes i mb e in
    ap queue_at
      (find_slot-modify_other (owned other) s.mailboxes i mb f g (ground arith) (ground arith))

write-IsReady :
    (s : Ipc) (i : ℕ) (f : Mailbox → Mailbox)
    → ((mb : Mailbox) → IsRing mb → IsRing (f mb))
    → IsReady s
    → IsReady (record s { mailboxes = modify s.mailboxes i f })
write-IsReady s i f keep r = record {
  on = r.on;
  rings = λ j b g.
      let (a, h, e) = get_elem?-modify-some s.mailboxes i j f b g in
      elim (Bool-cases (i == j)) [
        | inl same ↦
            subst IsRing (sym (e ∙ ap (λ c. if c then f a else a) same)) (keep a (r.rings j a h))
        | inr other ↦ subst IsRing (sym (e ∙ ap (λ c. if c then f a else a) other)) (r.rings j a h)
      ];
}

claim-Opened :
    (s : Ipc) (pid i : ℕ) (mb : Mailbox)
    → IsReady s
    → find_slot (owned pid) s.mailboxes ≡ none
    → find_slot (owned 0) s.mailboxes ≡ some (i, mb)
    → Opened pid s (record s { mailboxes = modify s.mailboxes i (emptied pid) }) i
claim-Opened s pid i mb r e e0 =
    let (g, own) = find_slot-get (owned 0) s.mailboxes i mb e0 in
    record {
      mb = emptied pid mb;
      found = find_slot-modify_new (owned pid) s.mailboxes i mb (emptied pid) e g (ground arith);
      queue = contents-emptied pid mb ∙ sym (ap queue_at e);
      others = λ other ne nz. ap queue_at (
          find_slot-modify_other (owned other) s.mailboxes i mb (emptied pid) g (ground arith)
            (ground arith));
      ready = write-IsReady s i (emptied pid) (emptied-IsRing pid) r;
    }

-- What `mailbox_for` comes to: an open mailbox, or none, where the table is full of others.
abbrev pub MailboxFor : ℕ → Ipc → Option ℕ × Ipc → Type 0
MailboxFor pid s r =
    ((r ≡ (none, s))
      × (find_slot (owned pid) s.mailboxes ≡ none)
      × (find_slot (owned 0) s.mailboxes ≡ none))
    ⊎ ((i : ℕ) × (u : Ipc) × (r ≡ (some i, u)) × Opened pid s u i)

pub mailbox_for-cases : (pid : ℕ) (s : Ipc) → IsReady s → MailboxFor pid s (mailbox_for pid s)
unfolding mailbox_for
mailbox_for-cases pid s r = elim (Option-cases (find_slot (owned pid) s.mailboxes)) [
  | inr ((i, mb), e) ↦ inr (
    i,
    s,
    on ∙ ap (λ o. found_or_claim o pid s) e,
    record {
      mb = mb;
      found = e;
      queue = sym (ap queue_at e);
      others = λ other ne nz. refl;
      ready = r;
    },
  )
  | inl e ↦ elim (Option-cases (find_slot (owned 0) s.mailboxes)) [
    | inr ((i, mb), e0) ↦ inr (
      i,
      _,
      on ∙ ap (λ o. found_or_claim o pid s) e ∙ ap (λ o. claim o pid s) e0,
      claim-Opened s pid i mb r e e0,
    )
    | inl e0 ↦ inl (on ∙ ap (λ o. found_or_claim o pid s) e ∙ ap (λ o. claim o pid s) e0, e, e0)
  ]
]
  where
    on : mailbox_for pid s ≡ found_or_claim (find_slot (owned pid) s.mailboxes) pid s
    on =
        ap
          (λ b.
            if not b then (none, s) else found_or_claim (find_slot (owned pid) s.mailboxes) pid s)
          r.on

-- A write to the open mailbox, which keeps its owner.
pub record Written (pid : ℕ) (s u : Ipc) (q : List Message) : Type 0 where
  pub queue : queue_of u pid ≡ q
  pub others : OthersKept pid s u
  pub ready : IsReady u

pub Opened-write :
    (pid : ℕ) (s u : Ipc) (i : ℕ) (f : Mailbox → Mailbox)
    → ((mb : Mailbox) → IsRing mb → IsRing (f mb))
    → ((mb : Mailbox) → (f mb).pid ≡ mb.pid)
    → (o : Opened pid s u i)
    → Written pid s (record u { mailboxes = modify u.mailboxes i f }) (contents (f o.mb))
Opened-write pid s u i f keep own o =
    let (g, mine) = find_slot-get (owned pid) u.mailboxes i o.mb o.found in
    record {
      queue = ap queue_at (
          find_slot-modify_found (owned pid) u.mailboxes i o.mb f o.found
            (ap (λ (n : ℕ). n == pid) (own o.mb) ∙ mine));
      others = λ other ne nz.
          write-others u pid i o.mb f o.found (own o.mb) other ne nz ∙ o.others other ne nz;
      ready = write-IsReady u i f keep o.ready;
    }

pub push-pid : (m : Message) (mb : Mailbox) → (push m mb).pid ≡ mb.pid
unfolding push
push-pid m mb = ground arith

pub pop-pid : (mb : Mailbox) → (pop mb).pid ≡ mb.pid
unfolding pop
pop-pid mb = refl

pub Opened-IsRing : (pid : ℕ) (s u : Ipc) (i : ℕ) (o : Opened pid s u i) → IsRing o.mb
Opened-IsRing pid s u i o =
    o.ready.rings i o.mb (find_slot-get (owned pid) u.mailboxes i o.mb o.found).0
