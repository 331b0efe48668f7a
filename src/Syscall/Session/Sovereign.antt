-- ===== src/Syscall/Session/Sovereign.antt =====
-- What the session calls of kernel/syscall.c leave of an administrator's account.
use siathos.Prelude.{
  ℕ, ◌≡◌, inl, inr, refl, Bool, true, false, not, ◌||◌, Option, none, some, List, [], ◌∷◌, ◌==◌,
  ◌!=◌, ltb, if◌then◌else◌, length, Text, arith, Bool-cases,
}
use siathos.Proc.{Table}
use siathos.Auth.{
  cap_all, Account, Auth, auth_name_max, auth_find, auth_ticket_issue, auth_ticket_consume,
}
use siathos.Auth.Sovereign.{
  IsSovereign, auth_create_user-IsSovereign, auth_change_password_admin-IsSovereign,
  auth_change_password-IsSovereign, auth_user_delete-IsSovereign, auth_ticket_issue-accounts,
  auth_ticket_consume-accounts, IsSovereign-accounts,
}
use siathos.Syscall.{syscall_cap, user_ptr_ok, user_str}
use siathos.Syscall.Session.{
  LoginUser, account, synthetic, Kernel, cap_user_admin, cap_syscall, current_proc, with_text,
  read_name, is_short, is_logged_in, sys_auth_count, delete_found, sys_auth_delete, enter_session,
  login_ticket, login_found, sys_session_login, ticket_out, sys_auth_ticket_issue, SessionCall,
  auth_count, auth_create, auth_check, auth_delete, auth_changepw, auth_create_volunteer,
  session_login, ticket_issue, sys_auth_create, sys_auth_verify, change_found, sys_auth_changepw,
  create_absent, sys_auth_create_user, run_call, syscall_dispatch, volunteer_caps,
}

module _ (i : ℕ) (who : Text) where
  data Kept (r : ℕ × Kernel) : Type 0 where
    kept : IsSovereign i who r.1.auth → Kept r

  out : (r : ℕ × Kernel) → Kept r → IsSovereign i who r.1.auth
  out r (kept p) = p

  either : (b : Bool) (x y : ℕ × Kernel) → Kept x → Kept y → Kept (if b then x else y)
  either true x y p q = p
  either false x y p q = q

  with_text-Kept :
      (o : Option Text) (k : Kernel) (run : Text → ℕ × Kernel)
      → IsSovereign i who k.auth
      → ((t : Text) → Kept (run t))
      → Kept (with_text o k run)
  with_text-Kept none k run p q = kept p
  with_text-Kept (some t) k run p q = q t

  read_name-Kept :
      (addr : ℕ) (k : Kernel) (run : Text → ℕ × Kernel)
      → IsSovereign i who k.auth
      → ((t : Text) → Kept (run t))
      → Kept (read_name addr k run)
  read_name-Kept addr k run p q =
      with_text-Kept (user_str (current_proc k) k.mem addr auth_name_max) k run p q

  delete_found-Kept :
      (o : Option (ℕ × Account)) (name : Text) (k : Kernel)
      → auth_find name k.auth ≡ o
      → IsSovereign i who k.auth
      → Kept (delete_found o name k)
  delete_found-Kept none name k e p = kept p
  delete_found-Kept (some (j, u)) name k e p =
      elim (Bool-cases (u.is_admin || is_logged_in k.user j)) [
        | inl stop ↦ rw stop (kept p)
        | inr go ↦
            rw go
              (kept (auth_user_delete-IsSovereign i who name j u k.auth e (ground (arith, go)) p))
      ]

  sys_auth_delete-Kept :
      (a1 : ℕ) (k : Kernel) → IsSovereign i who k.auth → Kept (sys_auth_delete a1 k)
  unfolding sys_auth_delete
  sys_auth_delete-Kept a1 k p =
      either (not (syscall_cap (current_proc k) cap_user_admin)) _ _ (kept p)
        (read_name-Kept a1 k _ p λ name. delete_found-Kept (auth_find name k.auth) name k refl p)

  enter_session-Kept :
      (user : LoginUser) (caps a2 : ℕ) (k : Kernel)
      → IsSovereign i who k.auth
      → Kept (enter_session user caps a2 k)
  enter_session-Kept user caps a2 k p = either (a2 == 0) _ _ (kept p) (kept p)

  login_found-Kept :
      (o : Option (ℕ × Account)) (a2 : ℕ) (k : Kernel)
      → IsSovereign i who k.auth
      → Kept (login_found o a2 k)
  login_found-Kept none a2 k p = kept p
  login_found-Kept (some (j, u)) a2 k p = enter_session-Kept (account j) u.caps a2 k p

  login_ticket-Kept :
      (r : Option Account × Auth) (a2 : ℕ) (k : Kernel)
      → IsSovereign i who r.1
      → Kept (login_ticket r a2 k)
  login_ticket-Kept (none, s) a2 k p = kept p
  login_ticket-Kept (some u, s) a2 k p =
      enter_session-Kept synthetic u.caps a2 (record k { auth = s }) p

  sys_session_login-Kept :
      (a1 a2 a3 : ℕ) (k : Kernel) → IsSovereign i who k.auth → Kept (sys_session_login a1 a2 a3 k)
  unfolding sys_session_login
  sys_session_login-Kept a1 a2 a3 k p = read_name-Kept a1 k _ p λ name.
      either (a3 == 0) _ _ (login_found-Kept (auth_find name k.auth) a2 k p) (
        login_ticket-Kept (auth_ticket_consume name a3 k.auth) a2 k
          (IsSovereign-accounts i who k.auth _ (auth_ticket_consume-accounts name a3 k.auth) p))

  ticket_out-Kept :
      (r : Bool × Auth) (a3 tok : ℕ) (k : Kernel)
      → IsSovereign i who r.1
      → IsSovereign i who k.auth
      → Kept (ticket_out r a3 tok k)
  ticket_out-Kept (false, s) a3 tok k p q = kept q
  ticket_out-Kept (true, s) a3 tok k p q =
      either (a3 == 0) _ _ (kept p)
        (either (not (user_ptr_ok (current_proc k) a3 8)) _ _ (kept p) (kept p))

  sys_auth_ticket_issue-Kept :
      (a1 a2 a3 tok : ℕ) (k : Kernel)
      → IsSovereign i who k.auth
      → Kept (sys_auth_ticket_issue a1 a2 a3 tok k)
  unfolding sys_auth_ticket_issue
  sys_auth_ticket_issue-Kept a1 a2 a3 tok k p =
      either (not (syscall_cap (current_proc k) cap_user_admin)) _ _ (kept p) (
        read_name-Kept a1 k _ p λ name.
          ticket_out-Kept (auth_ticket_issue name a2 tok k.auth) a3 tok k
            (IsSovereign-accounts i who k.auth _ (auth_ticket_issue-accounts name a2 tok k.auth) p)
            p)

  module _ (hash : Text → Text → Text) where
    sys_auth_create-Kept :
        (a1 a2 : ℕ) (salt : Text) (k : Kernel)
        → IsSovereign i who k.auth
        → Kept (sys_auth_create hash a1 a2 salt k)
    unfolding sys_auth_create
    sys_auth_create-Kept a1 a2 salt k p = either (length k.auth.accounts != 0) _ _ (kept p) (
        read_name-Kept a1 k _ p λ name. read_name-Kept a2 k _ p λ pass.
          either (is_short name pass) _ _ (kept p)
            (kept (auth_create_user-IsSovereign hash i who name pass salt cap_all true k.auth p)))

    sys_auth_verify-Kept :
        (a1 a2 : ℕ) (k : Kernel) → IsSovereign i who k.auth → Kept (sys_auth_verify hash a1 a2 k)
    unfolding sys_auth_verify
    sys_auth_verify-Kept a1 a2 k p =
        read_name-Kept a1 k _ p λ name. read_name-Kept a2 k _ p λ pass. kept p

    change_found-Kept :
        (o : Option (ℕ × Account)) (name old new salt : Text) (k : Kernel)
        → IsSovereign i who k.auth
        → Kept (change_found hash o name old new salt k)
    change_found-Kept none name old new salt k p = kept p
    change_found-Kept (some (j, u)) name old new salt k p =
        either (is_logged_in k.user j) _ _
          (kept (auth_change_password-IsSovereign hash i who name old new salt k.auth p))
          (either (not (syscall_cap (current_proc k) cap_user_admin)) _ _ (kept p)
            (kept (auth_change_password_admin-IsSovereign hash i who name new salt k.auth p)))

    sys_auth_changepw-Kept :
        (a1 a2 a3 : ℕ) (salt : Text) (k : Kernel)
        → IsSovereign i who k.auth
        → Kept (sys_auth_changepw hash a1 a2 a3 salt k)
    unfolding sys_auth_changepw
    sys_auth_changepw-Kept a1 a2 a3 salt k p = read_name-Kept a1 k _ p λ name.
        read_name-Kept a2 k _ p λ old. read_name-Kept a3 k _ p λ new.
          either (ltb (length new) 4) _ _ (kept p)
            (change_found-Kept (auth_find name k.auth) name old new salt k p)

    create_absent-Kept :
        (o : Option (ℕ × Account)) (name pass salt : Text) (k : Kernel)
        → IsSovereign i who k.auth
        → Kept (create_absent hash o name pass salt k)
    create_absent-Kept (some a) name pass salt k p = kept p
    create_absent-Kept none name pass salt k p =
        kept (auth_create_user-IsSovereign hash i who name pass salt volunteer_caps false k.auth p)

    sys_auth_create_user-Kept :
        (a1 a2 : ℕ) (salt : Text) (k : Kernel)
        → IsSovereign i who k.auth
        → Kept (sys_auth_create_user hash a1 a2 salt k)
    unfolding sys_auth_create_user
    sys_auth_create_user-Kept a1 a2 salt k p =
        either (not (syscall_cap (current_proc k) cap_user_admin)) _ _ (kept p) (
          read_name-Kept a1 k _ p λ name. read_name-Kept a2 k _ p λ pass.
            either (is_short name pass) _ _ (kept p)
              (create_absent-Kept (auth_find name k.auth) name pass salt k p))

    run_call-Kept :
        (c : SessionCall) (k : Kernel) → IsSovereign i who k.auth → Kept (run_call hash c k)
    unfolding sys_auth_count
    run_call-Kept auth_count k p = kept p
    run_call-Kept (auth_create a1 a2 salt) k p = sys_auth_create-Kept a1 a2 salt k p
    run_call-Kept (auth_check a1 a2) k p = sys_auth_verify-Kept a1 a2 k p
    run_call-Kept (auth_delete a1) k p = sys_auth_delete-Kept a1 k p
    run_call-Kept (auth_changepw a1 a2 a3 salt) k p = sys_auth_changepw-Kept a1 a2 a3 salt k p
    run_call-Kept (auth_create_volunteer a1 a2 salt) k p = sys_auth_create_user-Kept a1 a2 salt k p
    run_call-Kept (session_login a1 a2 a3) k p = sys_session_login-Kept a1 a2 a3 k p
    run_call-Kept (ticket_issue a1 a2 a3 tok) k p = sys_auth_ticket_issue-Kept a1 a2 a3 tok k p

    syscall_dispatch-Kept :
        (c : SessionCall) (k : Kernel) → IsSovereign i who k.auth → Kept (syscall_dispatch hash c k)
    unfolding syscall_dispatch
    syscall_dispatch-Kept c k p =
        either (syscall_cap (current_proc k) cap_syscall) _ _ (run_call-Kept c k p) (kept p)

-- A call of the current process, or time in which other processes run and write their memory.
pub data KernelEvent : Type 0 where
  calls : SessionCall → KernelEvent
  others : Table → (ℕ → ℕ) → KernelEvent

module _ (hash : Text → Text → Text) where
  pub kernel_step : KernelEvent → Kernel → Kernel
  kernel_step (calls c) k = (syscall_dispatch hash c k).1
  kernel_step (others t m) k = record k { table = t; mem = m }

  pub kernel_run : List KernelEvent → Kernel → Kernel
  kernel_run [] k = k
  kernel_run (e ∷ es) k = kernel_run es (kernel_step e k)

  -- Whatever processes do with the calls on users and sessions, in any order and with any arguments and
  -- rights, an administrator's active account stays in its slot, active, an administrator's, and with
  -- its name.
  pub kernel_run-IsSovereign :
      (es : List KernelEvent) (i : ℕ) (who : Text) (k : Kernel)
      → IsSovereign i who k.auth
      → IsSovereign i who (kernel_run es k).auth
  unfolding kernel_run kernel_step
  kernel_run-IsSovereign [] i who k v = v
  kernel_run-IsSovereign (calls c ∷ es) i who k v =
      kernel_run-IsSovereign es i who (syscall_dispatch hash c k).1
        (out i who (syscall_dispatch hash c k) (syscall_dispatch-Kept i who hash c k v))
  kernel_run-IsSovereign (others t m ∷ es) i who k v =
      kernel_run-IsSovereign es i who (record k { table = t; mem = m }) v
