-- ===== src/Syscall/Files/Contained.antt =====
-- What the system calls of kernel/syscall.c on files can do to the files.
use siathos.Prelude.{
  ℕ, ◌^◌, ◌≡◌, ◌⊎◌, inl, inr, refl, sym, ap, subst, ◌∙◌, Bool, true, false, not, Option, none, some,
  List, [], ◌∷◌, ◌==◌, if◌then◌else◌, Text, arith, Bool-cases,
}
use siathos.Proc.{Process}
use siathos.Fs.{Fs, file, dir, name_max}
use siathos.Fs.Tree.{IsTree}
use siathos.Vfs.Access.{cap_fs_write}
use siathos.Vfs.Calls.{Caller, vfs_create, vfs_write, vfs_remove}
use siathos.Vfs.Kept.{Call, creates, writes, removes, step, run, vfs_run-IsTree}
use siathos.Syscall.{failed, syscall_cap, user_ptr_ok, user_str}
use siathos.Syscall.Rights.{HasRight, syscall_cap-HasRight, user_str-process}
use siathos.Syscall.Session.{Kernel, current_proc, cap_syscall}
use siathos.Syscall.Messages.{bytes_from}
use siathos.Syscall.Files.{
  FileDesk, caller_of, with_path, filed, sys_fs_write, sys_fs_create, sys_fs_remove, FileCall,
  fs_write_call, fs_create_call, fs_remove_call, run_file_call, file_dispatch,
}

-- A call with the state of the kernel that it finds, which other calls may have changed.
pub record FileEvent : Type 0 where
  pub has_memory : Bool
  pub call : FileCall
  pub kernel : Kernel

abbrev pub file_run : List FileEvent → Fs → Fs
file_run [] s = s
file_run (e ∷ es) s =
    file_run es (file_dispatch e.has_memory e.call (record { kernel = e.kernel; fs = s })).1.fs

-- A process runs that has `CAP_SYSCALL` and `CAP_FS_WRITE`, and the text `path` is read at the address.
pub record MayWrite (k : Kernel) (addr : ℕ) (path : Text) : Type 0 where
  pub process : Process
  pub runs : current_proc k ≡ some process
  pub calls_on : HasRight process (2 ^ 11)
  pub writes_on : HasRight process (2 ^ 7)
  pub reads : user_str (some process) k.mem addr name_max ≡ some path

-- The call of vfs.c that an event asks for.
pub data CallOf (e : FileEvent) : Call → Type 0 where
  for_write :
      (a1 a2 a3 : ℕ) (path : Text)
      → e.call ≡ fs_write_call a1 a2 a3
      → MayWrite e.kernel a1 path
      → CallOf e (writes (caller_of e.kernel e.has_memory) path (bytes_from e.kernel.mem a2 a3) a3)
  for_create :
      (a1 a2 : ℕ) (path : Text)
      → e.call ≡ fs_create_call a1 a2
      → MayWrite e.kernel a1 path
      → CallOf e (creates (caller_of e.kernel e.has_memory) path (if a2 == 1 then dir else file))
  for_remove :
      (a1 : ℕ) (path : Text)
      → e.call ≡ fs_remove_call a1
      → MayWrite e.kernel a1 path
      → CallOf e (removes (caller_of e.kernel e.has_memory) path)

-- The calls are those of some of the events, in the same order.
pub data Comes : List FileEvent → List Call → Type 0 where
  done : Comes [] []
  skips : {e : FileEvent} {es : List FileEvent} {ks : List Call} → Comes es ks → Comes (e ∷ es) ks
  does :
      {e : FileEvent} {es : List FileEvent} {c : Call} {ks : List Call}
      → CallOf e c
      → Comes es ks
      → Comes (e ∷ es) (c ∷ ks)

may_write :
    (k : Kernel) (addr : ℕ) (path : Text)
    → syscall_cap (current_proc k) cap_syscall ≡ true
    → syscall_cap (current_proc k) cap_fs_write ≡ true
    → user_str (current_proc k) k.mem addr name_max ≡ some path
    → MayWrite k addr path
may_write k addr path calls_on writes_on reads =
    let (p, at) = user_str-process (current_proc k) k.mem addr name_max path reads in
    record {
      process = p;
      runs = at;
      calls_on =
          syscall_cap-HasRight p cap_syscall
            (sym (ap (λ (o : Option Process). syscall_cap o cap_syscall) at) ∙ calls_on);
      writes_on =
          syscall_cap-HasRight p cap_fs_write
            (sym (ap (λ (o : Option Process). syscall_cap o cap_fs_write) at) ∙ writes_on);
      reads = sym (ap (λ (o : Option Process). user_str o k.mem addr name_max) at) ∙ reads;
    }

filed-fs : (k : FileDesk) (r : Bool × Fs) → (filed k r).1.fs ≡ r.1
filed-fs k (fine, s) = refl

not_of : (b : Bool) → not b ≡ false → b ≡ true
not_of b e = ground (arith, e)

module _ (e : FileEvent) (s : Fs) where
  abbrev desk : FileDesk
  desk = record { kernel = e.kernel; fs = s }

  -- The files stay, or change as by the call that the event asks for.
  abbrev IsOneCall : Fs → Type 0
  IsOneCall u = (u ≡ s) ⊎ ((c : Call) × (u ≡ step s c) × CallOf e c)

  abbrev writer : Caller
  writer = caller_of e.kernel e.has_memory

  abbrev may : Bool
  may = syscall_cap (current_proc e.kernel) cap_fs_write

  abbrev text_at : ℕ → Option Text
  text_at a1 = user_str (current_proc e.kernel) e.kernel.mem a1 name_max

  by_path :
      (a1 : ℕ) (run_with : Text → ℕ × FileDesk)
      → ((path : Text) → text_at a1 ≡ some path → IsOneCall (run_with path).1.fs)
      → IsOneCall (with_path a1 desk run_with).1.fs
  by_path a1 run_with f = go (text_at a1) refl
    where
      go :
          (t : Option Text)
          → text_at a1 ≡ t
          → IsOneCall
              (elim t as (λ t. ℕ × FileDesk) [
                | none ↦ (failed, desk)
                | some path ↦ run_with path
              ]).1.fs
      go none at = inl refl
      go (some path) at = f path at

  guarded :
      (b : Bool) (r : ℕ × FileDesk)
      → (b ≡ false → IsOneCall r.1.fs)
      → IsOneCall (if b then (failed, desk) else r).1.fs
  guarded true r f = inl refl
  guarded false r f = f refl

  module _ (syscalls : syscall_cap (current_proc e.kernel) cap_syscall ≡ true) where
    run_file_call-IsOneCall :
        (c : FileCall) → e.call ≡ c → IsOneCall (run_file_call e.has_memory c desk).1.fs
    unfolding sys_fs_write sys_fs_create sys_fs_remove step
    run_file_call-IsOneCall (fs_write_call a1 a2 a3) is =
        guarded (not may) (with_path a1 desk put) (λ on. by_path a1 put (λ path at.
          guarded (not (user_ptr_ok (current_proc e.kernel) a2 a3))
            (filed desk (vfs_write writer path bytes a3 s))
            (λ fine. inr (
              writes writer path bytes a3,
              filed-fs desk (vfs_write writer path bytes a3 s),
              for_write a1 a2 a3 path is (may_write e.kernel a1 path syscalls (not_of may on) at),
            ))))
      where
        bytes : List ℕ
        bytes = bytes_from e.kernel.mem a2 a3

        put : Text → ℕ × FileDesk
        put path =
            if not (user_ptr_ok (current_proc e.kernel) a2 a3)
            then (failed, desk)
            else filed desk (vfs_write writer path bytes a3 s)
    run_file_call-IsOneCall (fs_create_call a1 a2) is =
        guarded (not may) (with_path a1 desk put) (λ on. by_path a1 put (λ path at. inr (
          creates writer path (if a2 == 1 then dir else file),
          filed-fs desk (vfs_create writer path (if a2 == 1 then dir else file) s),
          for_create a1 a2 path is (may_write e.kernel a1 path syscalls (not_of may on) at),
        )))
      where
        put : Text → ℕ × FileDesk
        put path = filed desk (vfs_create writer path (if a2 == 1 then dir else file) s)
    run_file_call-IsOneCall (fs_remove_call a1) is =
        guarded (not may) (with_path a1 desk put) (λ on. by_path a1 put (λ path at. inr (
          removes writer path,
          filed-fs desk (vfs_remove writer path s),
          for_remove a1 path is (may_write e.kernel a1 path syscalls (not_of may on) at),
        )))
      where
        put : Text → ℕ × FileDesk
        put path = filed desk (vfs_remove writer path s)

  file_dispatch-IsOneCall : IsOneCall (file_dispatch e.has_memory e.call desk).1.fs
  unfolding file_dispatch
  file_dispatch-IsOneCall = elim (Bool-cases (syscall_cap (current_proc e.kernel) cap_syscall)) [
    | inl on ↦ rw on (run_file_call-IsOneCall on e.call refl)
    | inr no_right ↦ rw no_right (inl refl)
  ]

run-vfs_calls :
    (es : List FileEvent) (s : Fs) → (ks : List Call) × (file_run es s ≡ run s ks) × Comes es ks
unfolding run
run-vfs_calls [] s = ([], refl, done)
run-vfs_calls (e ∷ es) s = elim (file_dispatch-IsOneCall e s) [
  | inl same ↦ let (ks, eq, h) = run-vfs_calls es s in (ks, ap (file_run es) same ∙ eq, skips h)
  | inr (c, one, of) ↦
      let (ks, eq, h) = run-vfs_calls es (step s c) in
      (c ∷ ks, ap (file_run es) one ∙ eq, does of h)
]

-- Any sequence of the system calls that write, create and remove files, by any processes with any
-- arguments, and whatever else happens to the kernel between them, changes the files as a sequence of
-- calls of vfs.c does: those that some of the system calls ask for, in their order, each for the
-- process that made the system call, on the path that is read at the call's address, and each of a
-- process that has `CAP_SYSCALL` and `CAP_FS_WRITE`, or all rights. So it keeps the files a tree.
pub file_run-vfs_run :
    (es : List FileEvent) (s : Fs)
    → IsTree s
    → IsTree (file_run es s) × ((ks : List Call) × (file_run es s ≡ run s ks) × Comes es ks)
file_run-vfs_run es s t =
    let (ks, eq, h) = run-vfs_calls es s in
    (subst IsTree (sym eq) (vfs_run-IsTree s ks t), (ks, eq, h))
