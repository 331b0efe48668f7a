-- ===== src/Syscall/Session/Tests.antt =====
-- Session calls of kernel/syscall.c on a small kernel.
use siathos.Prelude.{
  ℕ, ◌-◌, ◌<◌, ◌≡◌, ◌⊎◌, refl, true, some, List, [], ◌∷◌, ◌++◌, get_or, Text, arith,
}
use siathos.Proc.{Process, running}
use siathos.Sched.Tests.{process}
use siathos.Auth.{Account, auth_find}
use siathos.Auth.Sovereign.{IsSovereign}
use siathos.Syscall.Session.Login.{IsRefused, IsAccepted, session_login-CanLogin}
use siathos.Syscall.{syscall_cap, user_ptr_ok, str_loop, user_str}
use siathos.Syscall.Pointers.{IsText, user_str-IsText}
use siathos.Syscall.Session.{
  nobody, Kernel, sys_session_login, auth_delete, session_login, syscall_dispatch,
}
use siathos.Syscall.Session.Sovereign.{KernelEvent, calls, kernel_run, kernel_run-IsSovereign}

abbrev joined_text : Text → Text → Text
joined_text a b = a ++ b

-- `ana`
abbrev sovereign_name : Text
sovereign_name = 97 ∷ 110 ∷ 97 ∷ []

abbrev sovereign : Account
sovereign = record {
  name = sovereign_name;
  hash = 1 ∷ 2 ∷ 9 ∷ [];
  salt = 9 ∷ [];
  caps = 4095;
  active = true;
  is_admin = true;
}

-- A process of ring 3 with one page and the right to make calls.
abbrev pub guest : Process
guest = record (process 1 0 running) { is_user = true; umap = (4096, 4096) ∷ []; rights = 2048 }

-- The name stands at the start of the page.
abbrev bytes : ℕ → ℕ
bytes a = get_or sovereign_name (a - 4096) 0

abbrev pub small_kernel : Kernel
small_kernel = record {
  table = record {
    procs = guest ∷ [];
    next_pid = 2;
    current = some 0;
    current_index = 0;
    scheduler_running = true;
  };
  auth = record { accounts = sovereign ∷ []; tickets = []; synth = sovereign };
  user = nobody;
  pacts = record { contracts = []; consented = [] };
  mem = bytes;
}

user_str-IsText_example :
    (user_str (some guest) bytes 4096 32 ≡ some sovereign_name
      → IsText guest.umap bytes 4096 sovereign_name × (3 < 32))
    × (IsText guest.umap bytes 4096 sovereign_name × (3 < 32)
        → user_str (some guest) bytes 4096 32 ≡ some sovereign_name)
user_str-IsText_example =
    user_str-IsText guest refl bytes 4096 32 sovereign_name (ground arith) (omega arith)
      (omega arith)

abbrev attempts : List KernelEvent
attempts = calls (auth_delete 4096) ∷ calls (session_login 4096 1 0) ∷ calls (auth_delete 4096) ∷ []

kernel_run-IsSovereign_example :
    IsSovereign 0 sovereign_name (kernel_run joined_text attempts small_kernel).auth
kernel_run-IsSovereign_example =
    kernel_run-IsSovereign joined_text attempts 0 sovereign_name small_kernel
      (record { who = sovereign; there = refl; on = refl; admin = refl; called = refl })

session_login-CanLogin_example :
    IsRefused joined_text 4096 1 small_kernel ⊎ IsAccepted joined_text 4096 1 small_kernel
session_login-CanLogin_example = session_login-CanLogin joined_text 4096 1 small_kernel

-- The guest logs in as the administrator.
login_accepted : (syscall_dispatch joined_text (session_login 4096 1 0) small_kernel).0 ≡ 1
unfolding syscall_dispatch sys_session_login user_str str_loop user_ptr_ok auth_find syscall_cap
login_accepted = refl
