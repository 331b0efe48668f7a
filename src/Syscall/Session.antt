-- ===== src/Syscall/Session.antt =====
-- The system calls of kernel/syscall.c on users and sessions. The addresses of texts are in the
-- calls; `salt` and `tok` are what `gen_salt` and `auth_ticket_token` give in the call.
pub mod Sovereign
pub mod Login
pub mod Tests
use siathos.Prelude.{
  ℕ, zero, suc, ◌+◌, ◌-◌, ◌/◌, ◌%◌, ◌^◌, Bool, true, false, not, ◌&&◌, ◌||◌, Option, none, some,
  List, [], ◌∷◌, leb, ltb, ◌==◌, ◌!=◌, if◌then◌else◌, length, get_elem?, modify, bit_and, bit_or,
  Text,
}
use siathos.Proc.{Process, Table}
use siathos.Auth.{
  cap_all, Account, Ticket, Auth, auth_name_max, auth_find, auth_verify, auth_create_user,
  auth_user_delete, auth_change_password, auth_change_password_admin, auth_ticket_issue,
  auth_ticket_consume,
}
use siathos.Synallagma.{Contract, Pacts}
use siathos.Synallagma.Guard.{consent_grant}
use siathos.Syscall.{failed, syscall_cap, user_ptr_ok, user_str}

-- `current_user`: a null pointer, an account's index, or `&synth_user`.
pub data LoginUser : Type 0 where
  nobody : LoginUser
  account : ℕ → LoginUser
  synthetic : LoginUser

pub record Kernel : Type 0 where
  pub table : Table
  pub auth : Auth
  pub user : LoginUser
  pub pacts : Pacts
  pub mem : ℕ → ℕ

abbrev pub cap_user_admin : ℕ
cap_user_admin = 2 ^ 8

abbrev pub cap_syscall : ℕ
cap_syscall = 2 ^ 11

-- `CAP_FB_DRAW|CAP_AISTHESIS|CAP_FS_READ|CAP_IDIOS_WRITE`
abbrev pub volunteer_caps : ℕ
volunteer_caps = 2 ^ 0 + 2 ^ 1 + 2 ^ 6 + 2 ^ 5

abbrev pub slot_of : Option ℕ → Table → Option Process
slot_of none t = none
slot_of (some i) t = get_elem? t.procs i

-- `current_proc`
abbrev pub current_proc : Kernel → Option Process
current_proc k = slot_of k.table.current k.table

abbrev pub with_text : Option Text → Kernel → (Text → ℕ × Kernel) → ℕ × Kernel
with_text none k run = (failed, k)
with_text (some t) k run = run t

-- `user_str` into a buffer of `AUTH_NAME_MAX` bytes, and -1 where it fails.
abbrev pub read_name : ℕ → Kernel → (Text → ℕ × Kernel) → ℕ × Kernel
read_name addr k run = with_text (user_str (current_proc k) k.mem addr auth_name_max) k run

abbrev pub truth : Bool → ℕ
truth true = 1
truth false = 0

abbrev pub answer_with : Kernel → Bool × Auth → ℕ × Kernel
answer_with k (ok, s) = (truth ok, record k { auth = s })

abbrev pub is_short : Text → Text → Bool
is_short name pass = ltb (length name) 3 || ltb (length pass) 4

abbrev pub is_logged_in : LoginUser → ℕ → Bool
is_logged_in nobody i = false
is_logged_in (account j) i = j == i
is_logged_in synthetic i = false

-- `SYS_AUTH_COUNT`
pub sys_auth_count : Kernel → ℕ × Kernel
sys_auth_count k = (length k.auth.accounts, k)

abbrev pub delete_found : Option (ℕ × Account) → Text → Kernel → ℕ × Kernel
delete_found none name k = (0, k)
delete_found (some (i, u)) name k =
    if u.is_admin || is_logged_in k.user i
    then (0, k)
    else answer_with k (auth_user_delete name k.auth)

-- `SYS_AUTH_DELETE`
pub sys_auth_delete : ℕ → Kernel → ℕ × Kernel
sys_auth_delete a1 k =
    if not (syscall_cap (current_proc k) cap_user_admin)
    then (failed, k)
    else read_name a1 k λ name. delete_found (auth_find name k.auth) name k

-- The loop over the contracts from the index `i` on.
abbrev pub accept_from : ℕ → List Contract → Pacts → Pacts
accept_from i [] s = s
accept_from i (c ∷ cs) s = accept_from (i + 1) cs (if c.ativo then consent_grant i s else s)

abbrev pub give_rights : Option ℕ → ℕ → Table → Table
give_rights none caps t = t
give_rights (some i) caps t = record t {
  procs = modify t.procs i (λ p. record p { rights = bit_or p.rights caps });
}

abbrev pub enter_session : LoginUser → ℕ → ℕ → Kernel → ℕ × Kernel
enter_session who caps a2 k = if a2 == 0 then (0, k) else (
  1,
  record k {
    pacts = accept_from 0 k.pacts.contracts k.pacts;
    user = who;
    table = give_rights k.table.current caps k.table;
  },
)

abbrev pub login_ticket : Option Account × Auth → ℕ → Kernel → ℕ × Kernel
login_ticket (none, s) a2 k = (0, record k { auth = s })
login_ticket (some u, s) a2 k = enter_session synthetic u.caps a2 (record k { auth = s })

abbrev pub login_found : Option (ℕ × Account) → ℕ → Kernel → ℕ × Kernel
login_found none a2 k = (0, k)
login_found (some (i, u)) a2 k = enter_session (account i) u.caps a2 k

-- `SYS_SESSION_LOGIN`; what `auth_find` gives is active.
pub sys_session_login : ℕ → ℕ → ℕ → Kernel → ℕ × Kernel
sys_session_login a1 a2 a3 k = read_name a1 k λ name.
    if a3 == 0
    then login_found (auth_find name k.auth) a2 k
    else login_ticket (auth_ticket_consume name a3 k.auth) a2 k

-- `*(uint64_t*)addr=v`
abbrev pub store64 : ℕ → ℕ → (ℕ → ℕ) → ℕ → ℕ
store64 addr v mem a = if leb addr a && ltb a (addr + 8) then v / 256 ^ (a - addr) % 256 else mem a

abbrev pub ticket_out : Bool × Auth → ℕ → ℕ → Kernel → ℕ × Kernel
ticket_out (false, s) a3 tok k = (failed, k)
ticket_out (true, s) a3 tok k =
    if a3 == 0
    then (0, record k { auth = s })
    else if not (user_ptr_ok (current_proc k) a3 8)
    then (failed, record k { auth = s })
    else (0, record k { auth = s; mem = store64 a3 tok k.mem })

-- `SYS_AUTH_TICKET_ISSUE`
pub sys_auth_ticket_issue : ℕ → ℕ → ℕ → ℕ → Kernel → ℕ × Kernel
sys_auth_ticket_issue a1 a2 a3 tok k =
    if not (syscall_cap (current_proc k) cap_user_admin)
    then (failed, k)
    else read_name a1 k λ name. ticket_out (auth_ticket_issue name a2 tok k.auth) a3 tok k

-- The calls with their arguments.
pub data SessionCall : Type 0 where
  auth_count : SessionCall
  auth_create : ℕ → ℕ → Text → SessionCall
  auth_check : ℕ → ℕ → SessionCall
  auth_delete : ℕ → SessionCall
  auth_changepw : ℕ → ℕ → ℕ → Text → SessionCall
  auth_create_volunteer : ℕ → ℕ → Text → SessionCall
  session_login : ℕ → ℕ → ℕ → SessionCall
  ticket_issue : ℕ → ℕ → ℕ → ℕ → SessionCall

module _ (hash : Text → Text → Text) where
  -- `SYS_AUTH_CREATE`
  pub sys_auth_create : ℕ → ℕ → Text → Kernel → ℕ × Kernel
  sys_auth_create a1 a2 salt k =
      if length k.auth.accounts != 0
      then (0, k)
      else read_name a1 k λ name. read_name a2 k λ pass.
        if is_short name pass
        then (0, k)
        else answer_with k (auth_create_user hash name pass cap_all true salt k.auth)

  -- `SYS_AUTH_VERIFY`
  pub sys_auth_verify : ℕ → ℕ → Kernel → ℕ × Kernel
  sys_auth_verify a1 a2 k =
      read_name a1 k λ name. read_name a2 k λ pass. (truth (auth_verify hash name pass k.auth), k)

  abbrev pub change_found : Option (ℕ × Account) → Text → Text → Text → Text → Kernel → ℕ × Kernel
  change_found none name old new salt k = (0, k)
  change_found (some (i, u)) name old new salt k =
      if is_logged_in k.user i
      then answer_with k (auth_change_password hash name old new salt k.auth)
      else if not (syscall_cap (current_proc k) cap_user_admin)
      then (0, k)
      else answer_with k (auth_change_password_admin hash name new salt k.auth)

  -- `SYS_AUTH_CHANGEPW`
  pub sys_auth_changepw : ℕ → ℕ → ℕ → Text → Kernel → ℕ × Kernel
  sys_auth_changepw a1 a2 a3 salt k = read_name a1 k λ name. read_name a2 k λ old.
      read_name a3 k λ new.
        if ltb (length new) 4
        then (0, k)
        else change_found (auth_find name k.auth) name old new salt k

  abbrev pub create_absent : Option (ℕ × Account) → Text → Text → Text → Kernel → ℕ × Kernel
  create_absent (some a) name pass salt k = (0, k)
  create_absent none name pass salt k =
      answer_with k (auth_create_user hash name pass volunteer_caps false salt k.auth)

  -- `SYS_AUTH_CREATE_USER`
  pub sys_auth_create_user : ℕ → ℕ → Text → Kernel → ℕ × Kernel
  sys_auth_create_user a1 a2 salt k =
      if not (syscall_cap (current_proc k) cap_user_admin)
      then (failed, k)
      else read_name a1 k λ name. read_name a2 k λ pass.
        if is_short name pass
        then (0, k)
        else create_absent (auth_find name k.auth) name pass salt k

  abbrev pub run_call : SessionCall → Kernel → ℕ × Kernel
  run_call auth_count k = sys_auth_count k
  run_call (auth_create a1 a2 salt) k = sys_auth_create a1 a2 salt k
  run_call (auth_check a1 a2) k = sys_auth_verify a1 a2 k
  run_call (auth_delete a1) k = sys_auth_delete a1 k
  run_call (auth_changepw a1 a2 a3 salt) k = sys_auth_changepw a1 a2 a3 salt k
  run_call (auth_create_volunteer a1 a2 salt) k = sys_auth_create_user a1 a2 salt k
  run_call (session_login a1 a2 a3) k = sys_session_login a1 a2 a3 k
  run_call (ticket_issue a1 a2 a3 tok) k = sys_auth_ticket_issue a1 a2 a3 tok k

  -- The test of `CAP_SYSCALL` before the `switch`.
  pub syscall_dispatch : SessionCall → Kernel → ℕ × Kernel
  syscall_dispatch c k =
      if syscall_cap (current_proc k) cap_syscall then run_call c k else (failed, k)
