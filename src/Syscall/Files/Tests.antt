-- ===== src/Syscall/Files/Tests.antt =====
-- Files made and removed by system calls of kernel/syscall.c, on a file system with its root only.
use siathos.Prelude.{ℕ, ◌+◌, ◌-◌, ◌≡◌, refl, true, List, [], ◌∷◌, get_or}
use siathos.Fs.{fs_get, fs_create, parent_of}
use siathos.Fs.Tree.{IsTree}
use siathos.Fs.Tests.{bare, bare-IsTree}
use siathos.Proc.{Process}
use siathos.Synallagma.Guard.{contract_for, best_of}
use siathos.Vfs.{normalize, pieces, walk, go_up, append_piece}
use siathos.Vfs.Access.{check_cap}
use siathos.Vfs.Calls.{vfs_create}
use siathos.Vfs.Kept.{Call, run}
use siathos.Syscall.{user_ptr_ok, user_str, str_loop, syscall_cap}
use siathos.Syscall.Session.{Kernel}
use siathos.Syscall.Session.Tests.{guest, small_kernel}
use siathos.Syscall.Files.{
  fs_create_call, fs_write_call, fs_remove_call, sys_fs_create, file_dispatch,
}
use siathos.Syscall.Files.Contained.{FileEvent, file_run, Comes, file_run-vfs_run}

abbrev clerk : Process
clerk = record guest { rights = 2048 + 128 }

-- `/x` stands at the start of the page.
abbrev path_bytes : ℕ → ℕ
path_bytes a = get_or (b'/' ∷ b'x' ∷ []) (a - 4096) 0

abbrev office : Kernel
office = record small_kernel {
  table = record small_kernel.table { procs = clerk ∷ [] };
  mem = path_bytes;
}

file_made :
    (file_dispatch true (fs_create_call 4096 0) (record { kernel = office; fs = bare })).0 ≡ 0
unfolding file_dispatch sys_fs_create vfs_create user_str str_loop user_ptr_ok syscall_cap normalize
    pieces walk go_up append_piece check_cap contract_for best_of fs_create parent_of fs_get
file_made = refl

abbrev office_day : List FileEvent
office_day =
    record { has_memory = true; call = fs_create_call 4096 0; kernel = office }
    ∷ record { has_memory = true; call = fs_write_call 4096 4096 2; kernel = office }
    ∷ record { has_memory = true; call = fs_remove_call 4096; kernel = office }
    ∷ []

file_run-vfs_run_example :
    IsTree (file_run office_day bare)
    × ((ks : List Call) × (file_run office_day bare ≡ run bare ks) × Comes office_day ks)
file_run-vfs_run_example = file_run-vfs_run office_day bare bare-IsTree
