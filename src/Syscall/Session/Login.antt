-- ===== src/Syscall/Session/Login.antt =====
-- What a login without a ticket asks for, kernel/syscall.c.
use siathos.Prelude.{
  ℕ, ◌^◌, ◌<◌, ◌≡◌, ◌≢◌, ◌⊎◌, inl, inr, refl, sym, ap, subst, ◌∙◌, true, false, Option, none, some,
  ◌==◌, if◌then◌else◌, get_elem?, get_elem?-modify_self, same, same_refl, same_eq, find_slot-get,
  find_slot-first, find_slot_of_first, bit_or, Text, arith, Bool-cases,
}
use siathos.Proc.{Process}
use siathos.Auth.{Account, auth_name_max, is_user, auth_find}
use siathos.Syscall.{failed, syscall_cap, user_str}
use siathos.Syscall.Rights.{HasRight, syscall_cap-HasRight, HasRight-syscall_cap, user_str-process}
use siathos.Syscall.Session.{
  account, Kernel, cap_syscall, current_proc, slot_of, with_text, accept_from, give_rights,
  login_found, sys_session_login, session_login, syscall_dispatch,
}

-- a2 is not 0, the process of slot `c` runs and may make calls, and the text at `a1` names the account `u` of slot
-- `i`, the first active one of its name.
pub record CanLogin (a1 a2 c i : ℕ) (p : Process) (u : Account) (k : Kernel) : Type 0 where
  pub wanted : a2 ≢ 0
  pub runs : k.table.current ≡ some c
  pub there : get_elem? k.table.procs c ≡ some p
  pub right : HasRight p (2 ^ 11)
  pub name : Text
  pub reads : user_str (some p) k.mem a1 32 ≡ some name
  pub owner : get_elem? k.auth.accounts i ≡ some u
  pub active : u.active ≡ true
  pub called : u.name ≡ name
  pub first :
      (j : ℕ) (v : Account)
      → j < i
      → get_elem? k.auth.accounts j ≡ some v
      → v.active ≡ true
      → v.name ≢ name

-- The account is logged in, and the caller has its rights too; accounts, tickets and memory stay.
pub record IsLoggedIn (c i : ℕ) (p : Process) (u : Account) (k k' : Kernel) : Type 0 where
  pub user : k'.user ≡ account i
  pub rights : get_elem? k'.table.procs c ≡ some (record p { rights = bit_or p.rights u.caps })
  pub auth : k'.auth ≡ k.auth
  pub mem : k'.mem ≡ k.mem

is_user-named :
    (name : Text) (u : Account) → is_user name u ≡ true → (u.active ≡ true) × (u.name ≡ name)
is_user-named name u e =
    let on : same u.name name ≡ true = ground (arith, e) in
    (ground (arith, e), same_eq u.name name on)

named-is_user :
    (name : Text) (u : Account) → u.active ≡ true → u.name ≡ name → is_user name u ≡ true
named-is_user name u on called =
    let eq : same u.name name ≡ true = ap (λ t. same t name) called ∙ same_refl name in
    ground (arith, on, eq)

not-is_user :
    (name : Text) (u : Account) → (u.active ≡ true → u.name ≢ name) → is_user name u ≡ false
not-is_user name u h = elim (Bool-cases (is_user name u)) [
  | inl on ↦ let (a, b) = is_user-named name u on in absurd (h a b)
  | inr off ↦ off
]

slot_of-current :
    (k : Kernel) (o : Option ℕ) (p : Process)
    → k.table.current ≡ o
    → slot_of o k.table ≡ some p
    → (c : ℕ) × (k.table.current ≡ some c) × (get_elem? k.table.procs c ≡ some p)
slot_of-current k none p e f = absurd (ground (arith, f))
slot_of-current k (some c) p e f = (c, e, f)

module _ (hash : Text → Text → Text) (a1 a2 : ℕ) (k : Kernel) where
  abbrev answer : ℕ × Kernel
  answer = syscall_dispatch hash (session_login a1 a2 0) k

  abbrev session : ℕ → Account → Kernel
  session i u = record k {
    pacts = accept_from 0 k.pacts.contracts k.pacts;
    user = account i;
    table = give_rights k.table.current u.caps k.table;
  }

  login : Text → ℕ × Kernel
  login n = login_found (auth_find n k.auth) a2 k

  CanLogin-answer :
      (c i : ℕ) (p : Process) (u : Account) → CanLogin a1 a2 c i p u k → answer ≡ (1, session i u)
  unfolding syscall_dispatch sys_session_login auth_find login
  CanLogin-answer c i p u l =
      ap (λ b. if b then sys_session_login a1 a2 0 k else (failed, k)) may
      ∙ (ap (λ (q : Option Process). with_text (user_str q k.mem a1 auth_name_max) k login) me
          ∙ (ap (λ (t : Option Text). with_text t k login) l.reads
              ∙ (ap (λ (o : Option (ℕ × Account)). login_found o a2 k) found
                  ∙ ap (λ b. if b then (0, k) else (1, session i u)) (nonzero a2 l.wanted))))
    where
      me : current_proc k ≡ some p
      me = ap (λ (o : Option ℕ). slot_of o k.table) l.runs ∙ l.there

      may : syscall_cap (current_proc k) cap_syscall ≡ true
      may =
          ap (λ (o : Option Process). syscall_cap o cap_syscall) me
          ∙ HasRight-syscall_cap p cap_syscall l.right

      found : auth_find l.name k.auth ≡ some (i, u)
      found =
          find_slot_of_first (is_user l.name) k.auth.accounts i u l.owner
            (named-is_user l.name u l.active l.called)
            (λ j v lt at. not-is_user l.name v (l.first j v lt at))

      nonzero : (n : ℕ) → n ≢ 0 → (n == 0) ≡ false
      nonzero n h = ground (arith, h)

  session-IsLoggedIn :
      (c i : ℕ) (p : Process) (u : Account)
      → CanLogin a1 a2 c i p u k
      → IsLoggedIn c i p u k (session i u)
  session-IsLoggedIn c i p u l = record {
    user = refl;
    rights =
        ap (λ (o : Option ℕ). get_elem? (give_rights o u.caps k.table).procs c) l.runs
        ∙ get_elem?-modify_self k.table.procs c (λ q. record q { rights = bit_or q.rights u.caps })
            l.there;
    auth = refl;
    mem = refl;
  }

  abbrev Outcome : ℕ × Kernel → Type 0
  Outcome r =
      ((r.0 ≢ 1) × (r.1 ≡ k))
      ⊎ ((c : ℕ) × ((i : ℕ) × ((p : Process) × ((u : Account) × CanLogin a1 a2 c i p u k))))

  refuses : (n : ℕ) → n ≢ 1 → Outcome (n, k)
  refuses n ne = inl (ne, refl)

  module _ (p : Process) (me : current_proc k ≡ some p) (right : HasRight p (2 ^ 11)) where
    login_found-Outcome :
        (name : Text) (o : Option (ℕ × Account))
        → user_str (some p) k.mem a1 auth_name_max ≡ some name
        → auth_find name k.auth ≡ o
        → Outcome (login_found o a2 k)
    unfolding auth_find
    login_found-Outcome name none reads at = refuses 0 (ground arith)
    login_found-Outcome name (some (i, u)) reads at = elim (Bool-cases (a2 == 0)) [
      | inl stop ↦ rw stop (refuses 0 (ground arith))
      | inr go ↦
          let (c, runs, there) = slot_of-current k k.table.current p refl me in
          let (owner, test) = find_slot-get (is_user name) k.auth.accounts i u at in
          let (active, called) = is_user-named name u test in
          inr (
            (
              c,
              (
                i,
                (
                  p,
                  (
                    u,
                    record {
                      wanted = ground (arith, go);
                      runs = runs;
                      there = there;
                      right = right;
                      name = name;
                      reads = reads;
                      owner = owner;
                      active = active;
                      called = called;
                      first = λ j v lt there' on same_name.
                          let off =
                            find_slot-first (is_user name) k.auth.accounts i u j v at lt there' in
                          absurd (ground (arith, off, named-is_user name v on same_name));
                    },
                  ),
                ),
              ),
            ))
    ]

  with_text-Outcome :
      (t : Option Text)
      → user_str (current_proc k) k.mem a1 auth_name_max ≡ t
      → syscall_cap (current_proc k) cap_syscall ≡ true
      → Outcome (with_text t k login)
  unfolding login
  with_text-Outcome none reads may = refuses failed (ground arith)
  with_text-Outcome (some name) reads may =
      let (p, me) = user_str-process (current_proc k) k.mem a1 auth_name_max name reads in
      login_found-Outcome p me
        (syscall_cap-HasRight p cap_syscall
          (sym (ap (λ (o : Option Process). syscall_cap o cap_syscall) me) ∙ may))
        name (auth_find name k.auth)
        (sym (ap (λ (o : Option Process). user_str o k.mem a1 auth_name_max) me) ∙ reads) refl

  answer-Outcome : Outcome answer
  unfolding syscall_dispatch sys_session_login login
  answer-Outcome = elim (Bool-cases (syscall_cap (current_proc k) cap_syscall)) [
    | inl may ↦
        rw may (with_text-Outcome (user_str (current_proc k) k.mem a1 auth_name_max) refl may)
    | inr off ↦ rw off (refuses failed (ground arith))
  ]

  abbrev pub IsRefused : Type 0
  IsRefused =
      (answer.0 ≢ 1)
      × (answer.1 ≡ k)
      × ((c i : ℕ) (p : Process) (u : Account) → ¬ CanLogin a1 a2 c i p u k)

  abbrev pub IsAccepted : Type 0
  IsAccepted =
      (answer.0 ≡ 1)
      × ((c : ℕ) × ((i : ℕ) × ((p : Process) × ((u : Account) × (CanLogin a1 a2 c i p u k
                  × IsLoggedIn c i p u k answer.1)))))

  -- A call of `SYS_SESSION_LOGIN` with no ticket (a3 = 0) logs an account in exactly if a2 is not 0, the
  -- running process has `CAP_SYSCALL` or all rights, and the text at a1 is the name of an active
  -- account, of which the first of the store is taken: then the result is 1, that account is the one
  -- that is logged in, its rights are added to those of the caller, and accounts, tickets and memory
  -- stay. In all other cases the result is not 1 and nothing changes.
  pub session_login-CanLogin : IsRefused ⊎ IsAccepted
  session_login-CanLogin = elim answer-Outcome [
    | inl (refused, stays) ↦ inl (
      refused,
      stays,
      λ c i p u l. refused (ap (λ (r : ℕ × Kernel). r.0) (CanLogin-answer c i p u l)),
    )
    | inr (c, (i, (p, (u, l)))) ↦
        let e = CanLogin-answer c i p u l in
        inr (
          ap (λ (r : ℕ × Kernel). r.0) e,
          (
            c,
            (
              i,
              (
                p,
                (
                  u,
                  (
                    l,
                    subst (λ (r : ℕ × Kernel). IsLoggedIn c i p u k r.1) (sym e)
                        (session-IsLoggedIn c i p u l),
                  ),
                ),
              ),
            ),
          ),
        )
  ]
