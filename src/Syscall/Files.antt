-- ===== src/Syscall/Files.antt =====
-- The system calls of kernel/syscall.c that change files. `has_memory` is what `kmalloc` answers in the
-- call.
pub mod Contained
mod Tests
use siathos.Prelude.{
  ℕ, zero, suc, ◌+◌, ◌^◌, Bool, true, false, not, Option, none, some, List, [], ◌∷◌, get_elem?,
  length, ltb, ◌==◌, if◌then◌else◌, Text,
}
use siathos.Auth.{Account}
use siathos.Fs.{Kind, file, dir, Fs, name_max}
use siathos.Vfs.Access.{User, Session, cap_fs_write}
use siathos.Vfs.Calls.{Caller, vfs_create, vfs_write, vfs_remove}
use siathos.Syscall.{failed, syscall_cap, user_ptr_ok, user_str}
use siathos.Syscall.Session.{
  LoginUser, nobody, account, synthetic, Kernel, current_proc, cap_syscall,
}
use siathos.Syscall.Messages.{bytes_from}

pub record FileDesk : Type 0 where
  pub kernel : Kernel
  pub fs : Fs

abbrev pub user_of : Option Account → Option User
user_of none = none
user_of (some u) = some (record { caps = u.caps; is_admin = u.is_admin })

-- What `current_user` points to.
abbrev pub current_user : Kernel → Option User
current_user k = elim k.user [
  | nobody ↦ none
  | account i ↦ user_of (get_elem? k.auth.accounts i)
  | synthetic ↦ user_of (some k.auth.synth)
]

-- `auth_user_index_current`
abbrev pub index_of : LoginUser → List Account → ℕ
index_of nobody us = 0xff
index_of (account i) us = if ltb i (length us) then i else 0xff
index_of synthetic us = 0xff

abbrev pub caller_of : Kernel → Bool → Caller
caller_of k has_memory = record {
  session = record { user = current_user k; process = current_proc k; pacts = k.pacts };
  cwd = b'/' ∷ [];
  owner = index_of k.user k.auth.accounts;
  has_memory = has_memory;
}

abbrev pub with_path : ℕ → FileDesk → (Text → ℕ × FileDesk) → ℕ × FileDesk
with_path addr k run = elim (user_str (current_proc k.kernel) k.kernel.mem addr name_max) [
  | none ↦ (failed, k)
  | some path ↦ run path
]

abbrev pub filed : FileDesk → Bool × Fs → ℕ × FileDesk
filed k (done, s) = (if done then 0 else failed, record k { fs = s })

module _ (has_memory : Bool) where
  -- `SYS_FS_WRITE`
  pub sys_fs_write : ℕ → ℕ → ℕ → FileDesk → ℕ × FileDesk
  sys_fs_write a1 a2 a3 k =
      if not (syscall_cap (current_proc k.kernel) cap_fs_write)
      then (failed, k)
      else with_path a1 k λ path.
        if not (user_ptr_ok (current_proc k.kernel) a2 a3)
        then (failed, k)
        else filed k
            (vfs_write (caller_of k.kernel has_memory) path (bytes_from k.kernel.mem a2 a3) a3 k.fs)

  -- `SYS_FS_CREATE`
  pub sys_fs_create : ℕ → ℕ → FileDesk → ℕ × FileDesk
  sys_fs_create a1 a2 k =
      if not (syscall_cap (current_proc k.kernel) cap_fs_write)
      then (failed, k)
      else with_path a1 k λ path.
        filed k
          (vfs_create (caller_of k.kernel has_memory) path (if a2 == 1 then dir else file) k.fs)

  -- `SYS_FS_REMOVE`
  pub sys_fs_remove : ℕ → FileDesk → ℕ × FileDesk
  sys_fs_remove a1 k =
      if not (syscall_cap (current_proc k.kernel) cap_fs_write)
      then (failed, k)
      else with_path a1 k λ path. filed k (vfs_remove (caller_of k.kernel has_memory) path k.fs)

-- The calls with their arguments.
pub data FileCall : Type 0 where
  fs_write_call : ℕ → ℕ → ℕ → FileCall
  fs_create_call : ℕ → ℕ → FileCall
  fs_remove_call : ℕ → FileCall

abbrev pub run_file_call : Bool → FileCall → FileDesk → ℕ × FileDesk
run_file_call m (fs_write_call a1 a2 a3) k = sys_fs_write m a1 a2 a3 k
run_file_call m (fs_create_call a1 a2) k = sys_fs_create m a1 a2 k
run_file_call m (fs_remove_call a1) k = sys_fs_remove m a1 k

-- The test of `CAP_SYSCALL` before the `switch`.
pub file_dispatch : Bool → FileCall → FileDesk → ℕ × FileDesk
file_dispatch m c k =
    if syscall_cap (current_proc k.kernel) cap_syscall then run_file_call m c k else (failed, k)
