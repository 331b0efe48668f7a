-- ===== src/Cap/Laws.antt =====
-- What granting and revoking do to every later `cap_check` of kernel/cap.c.
use siathos.Prelude.{
  ℕ, ◌^◌, ◌<◌, ◌≡◌, ◌≢◌, refl, sym, ap, ◌∙◌, true, false, ◌||◌, some, List, arith, ◌==◌, ◌!=◌,
  modify, bit_and, bit_or, find_slot-modify, find_slot-get, touched, Option-cases, inl, inr,
}
use siathos.Bits.{complement}
use siathos.Bits.Laws.{bit_or_and_ne, bit_and_assoc, bit_and-complement_self}
use siathos.Proc.{Process, Table, proc_get, has_pid}
use siathos.Cap.{check_at, cap_check, write_at, cap_grant, cap_revoke}

-- A write to the rights of process `pid`, then a search for process `other`.
proc_get-write :
    (ps : List Process) (pid other i : ℕ) (p : Process) (f : ℕ → ℕ)
    → proc_get ps pid ≡ some (i, p)
    → proc_get (modify ps i (λ q. record q { rights = f q.rights })) other
      ≡ touched i (λ q. record q { rights = f q.rights }) (proc_get ps other)
unfolding proc_get
proc_get-write ps pid other i p f e =
    find_slot-modify (has_pid other) ps i (λ q. record q { rights = f q.rights }) (λ q. refl)

check_at-write_self :
    (t : Table) (pid i : ℕ) (p : Process) (f : ℕ → ℕ) (s : ℕ)
    → proc_get t.procs pid ≡ some (i, p)
    → cap_check (write_at (proc_get t.procs pid) f t).1 pid s ≡ (bit_and (f p.rights) s != 0)
unfolding cap_check
check_at-write_self t pid i p f s e =
    ap (λ o. cap_check (write_at o f t).1 pid s) e
    ∙ ap (λ o. check_at o s)
        (proc_get-write t.procs pid pid i p f e
          ∙ ap (touched i (λ q. record q { rights = f q.rights })) e)
    ∙ ground arith

check_at-write_ne :
    (t : Table) (pid other i : ℕ) (p : Process) (f : ℕ → ℕ) (s : ℕ)
    → proc_get t.procs pid ≡ some (i, p)
    → other ≢ pid
    → cap_check (write_at (proc_get t.procs pid) f t).1 other s ≡ cap_check t other s
unfolding cap_check proc_get
check_at-write_ne t pid other i p f s e ne =
    ap (λ o. cap_check (write_at o f t).1 other s) e
    ∙ ap (λ o. check_at o s) (proc_get-write t.procs pid other i p f e)
    ∙ elim (Option-cases (proc_get t.procs other)) [
      | inl none_there ↦ rw (none_there, touched) refl
      | inr ((j, q), there) ↦
          let (a, b) = find_slot-get (has_pid pid) t.procs i p e in
          let (c, d) = find_slot-get (has_pid other) t.procs j q there in
          let apart : (i == j) ≡ false = ground arith in rw there (rw apart refl)
    ]

-- `cap_grant` of a process in the table succeeds. After it, `cap_check` of that process passes for
-- exactly the rights it passed for before and those that share a bit with the ones granted, and
-- `cap_check` of any other pid answers as before.
cap_grant-cap_check :
    (t : Table) (pid rights i : ℕ) (p : Process)
    → proc_get t.procs pid ≡ some (i, p)
    → let (ok, u) = cap_grant t pid rights in
      (ok ≡ true)
      × ((s : ℕ) → cap_check u pid s ≡ (cap_check t pid s || (bit_and rights s != 0)))
      × ((other s : ℕ) → other ≢ pid → cap_check u other s ≡ cap_check t other s)
unfolding cap_grant cap_check
cap_grant-cap_check t pid rights i p e = (
  ap (λ o. (write_at o (λ old. bit_or old rights) t).0) e,
  λ s.
      check_at-write_self t pid i p (λ old. bit_or old rights) s e
      ∙ bit_or_and_ne p.rights rights s
      ∙ sym (ap (λ o. check_at o s || (bit_and rights s != 0)) e),
  λ other s ne. check_at-write_ne t pid other i p (λ old. bit_or old rights) s e ne,
)

-- `cap_revoke` of a process in the table succeeds. After it, `cap_check` of that process for any
-- rights answers as it did before for those of them that were not revoked, so it fails for the
-- revoked ones, and `cap_check` of any other pid answers as before.
cap_revoke-cap_check :
    (t : Table) (pid rights i : ℕ) (p : Process)
    → proc_get t.procs pid ≡ some (i, p)
    → rights < 2 ^ 64
    → let (ok, u) = cap_revoke t pid rights in
      (ok ≡ true)
      × ((s : ℕ) → cap_check u pid s ≡ cap_check t pid (bit_and (complement 64 rights) s))
      × (cap_check u pid rights ≡ false)
      × ((other s : ℕ) → other ≢ pid → cap_check u other s ≡ cap_check t other s)
unfolding cap_revoke cap_check
cap_revoke-cap_check t pid rights i p e small = (
  ap (λ o. (write_at o (λ old. bit_and old (complement 64 rights)) t).0) e,
  λ s.
      check_at-write_self t pid i p (λ old. bit_and old (complement 64 rights)) s e
      ∙ ap (λ (x : ℕ). x != 0) (bit_and_assoc p.rights (complement 64 rights) s)
      ∙ sym (ap (λ o. check_at o (bit_and (complement 64 rights) s)) e),
  check_at-write_self t pid i p (λ old. bit_and old (complement 64 rights)) rights e
      ∙ ap (λ (x : ℕ). x != 0) (bit_and-complement_self 64 p.rights rights small),
  λ other s ne.
      check_at-write_ne t pid other i p (λ old. bit_and old (complement 64 rights)) s e ne,
)

-- For a process in the table and rights of 64 bits, `cap_grant` and `cap_revoke` succeed. After
-- `cap_grant`, `cap_check` of the process passes for exactly the rights it passed for before and those
-- that share a right with the granted ones. After `cap_revoke`, it answers as it did before for those
-- that were not revoked, and fails for the revoked ones. Both leave `cap_check` of any other pid as it
-- was.
pub cap_check-granted_revoked :
    (t : Table) (pid rights i : ℕ) (p : Process)
    → proc_get t.procs pid ≡ some (i, p)
    → rights < 2 ^ 64
    → let (granted, g) = cap_grant t pid rights in
      let (revoked, r) = cap_revoke t pid rights in
      (granted ≡ true)
      × (revoked ≡ true)
      × ((s : ℕ) → cap_check g pid s ≡ (cap_check t pid s || (bit_and rights s != 0)))
      × ((s : ℕ) → cap_check r pid s ≡ cap_check t pid (bit_and (complement 64 rights) s))
      × (cap_check r pid rights ≡ false)
      × ((other s : ℕ)
          → other ≢ pid
          → (cap_check g other s ≡ cap_check t other s)
            × (cap_check r other s ≡ cap_check t other s))
cap_check-granted_revoked t pid rights i p e small =
    let (granted, more, others) = cap_grant-cap_check t pid rights i p e in
    let (revoked, fewer, gone, same) = cap_revoke-cap_check t pid rights i p e small in
    (granted, revoked, more, fewer, gone, λ other s ne. (others other s ne, same other s ne))
