-- ===== src/Lib.antt =====
-- Verification of the Siath OS kernel and its login service (kernel/, userspace/authd/ and
-- boot/thaisboot/bootinfo.h below src/).
--
-- The kernel keeps a bitmap of physical pages, a table of at most 64 processes with a round-robin
-- scheduler, rights (capabilities) per process, a mailbox per process, and a registry of services.
-- Processes reach it by system calls, in page tables of their own, and interact through the
-- process table: an exit writes to the parent's slot and wakes it, a send wakes the receiver, and
-- the scheduler's collector gives the memory of ended processes back. Files stand in a table of
-- nodes with absolute paths; calls reach them through paths made normal, and contracts and fixed
-- rules say who may read and write a folder. Users log in with a password or with a ticket.
--
-- Files, and the code that they model:
--   Prelude, Bits     C conditions, arrays, searches through a table, and masks of bits.
--   Pmm               the physical page allocator of src/kernel/util.c (`pmm_*`). Pmm/Bitmap is the
--                     word array, Pmm/Count the count of used pages, Pmm/Alloc `pmm_alloc`, Pmm/Free
--                     `pmm_free`, `pmm_reserve` and any sequence of calls. Pmm/Boot is `pmm_init`,
--                     with Pmm/Boot/Protect and Pmm/Boot/Safe for the state it leaves.
--   Proc              `process_t` of src/kernel/include/thais.h and the table of src/kernel/proc.c:
--                     `proc_get`, `find_free`, `proc_create_argv`, and `kinesis_register_only` of
--                     src/kernel/cap.c.
--   Sched             the scheduler of src/kernel/proc.c: `sched_yield`, `sched_preempt_pick`,
--                     `sched_block`, `sched_wakeup`, `sched_tick`, `sched_run_first` and
--                     `proc_gc_run`; Sched/Exit is `proc_exit` and `proc_waitpid`. Sched/Scan is the
--                     search for a ready slot; Sched/Single, Sched/Steps and Sched/Leaving follow the
--                     running process, Sched/Pids the pids, Sched/Runs whole histories, Sched/Fair
--                     the waiting time, Sched/Waiting, Sched/Arrives and Sched/Late exit codes, and
--                     Sched/Collect the collector.
--   Cap               `cap_check`, `cap_grant` and `cap_revoke` of src/kernel/cap.c.
--   Ipc               src/kernel/ipc.c: Ipc/Queue is one mailbox, Ipc/Route the mailboxes of all
--                     processes, Ipc/Send and Ipc/Receive the two operations.
--   Heap              `heap_init`, `kmalloc` and `kfree` of src/kernel/util.c; Heap/Tiling and
--                     Heap/Large are about them.
--   Fs                the memory file system of src/kernel/fs.c: nodes, search and `fs_create`;
--                     Fs/Ops has `fs_write`, `fs_read`, `fs_remove`, `fs_copy` and `fs_move`.
--                     Fs/Lookup, Fs/Cases and Fs/Finds follow single calls, Fs/Tree, Fs/Keeps and
--                     Fs/Histories whole sequences of them, and Fs/Move a move.
--   Synallagma        the contracts of src/kernel/synallagma.c and the reading of a .pacto file;
--                     Synallagma/Guard finds the contract of a path; Synallagma/Search is about
--                     its loop, Synallagma/Best says which contract that is, by the paths.
--   Vfs               `vfs_normalize` of src/kernel/vfs.c; Vfs/Access is `vfs_check_cap` and Vfs/Calls
--                     the calls. Vfs/Path, Vfs/Normal and Vfs/Fixed are about paths, Vfs/Kept,
--                     Vfs/Guarded and Vfs/Taken about what calls do to the files.
--   Svc               the service registry of src/kernel/svc.c; Svc/Registry is about it.
--   Crypto            SHA-256 of src/kernel/crypto.c; Crypto/Feed takes the data byte by byte,
--                     Crypto/Padding is about the end of a message. Crypto/Kdf is HMAC and PBKDF2,
--                     which Crypto/Kdf/Key describes as RFC 2898 does; Crypto/Kdf/Derive and
--                     Crypto/Kdf/Rounds are about the loops.
--   Auth              accounts and session tickets of src/kernel/auth.c; Auth/Accounts and Auth/Tickets
--                     are about them. Auth/Hash is the hash of a password.
--   Syscall           the checks of src/kernel/syscall.c on rights, pointers and texts, about which
--                     Syscall/Pointers is. Syscall/Session has the calls on users and sessions, with
--                     Syscall/Session/Sovereign and Syscall/Session/Login about them and
--                     Auth/Sovereign for the accounts. Syscall/Rights is about the test of a right.
--                     Syscall/Messages has those on messages and services; Syscall/Messages/Regions
--                     and Syscall/Messages/Isolated are about the memory they write. Syscall/Files
--                     has those that change files, with Syscall/Files/Contained about them.
--   Paging            page tables of src/kernel/paging.c; Paging/Levels and Paging/Walks are about their
--                     levels, Paging/Mapped and Paging/Roundtrip about `paging_map_user`.
--   Elf               `exec_elf_core` of src/kernel/elf.c up to the making of the process; Elf/Reference
--                     describes the regions without the loop, Elf/Accepted the files by their bytes.
--   Authd             the login service src/userspace/authd/authd.c, with the requests that clients
--                     pack in src/userspace/spud.h (Authd/Texts). Authd/Owned and Authd/Served are
--                     about its accounts, Authd/Packed about packed requests.
--   Hid               key reports of src/kernel/hid.c; Hid/Edges is about the keys that give a
--                     character.
-- Tests stand in the modules named Tests.
--
-- Each component's state is a record of the static variables of its file, and each function of the
-- C code is a function from the state to the new state and the result. A pointer to a slot of a
-- table is the slot's index. Loops over a range recur on the rounds left, which is the C bound; no
-- loop needs other fuel, but those over data in Crypto, whose fuel is the number of bytes, as a round
-- takes one at least, and the loop on `r` of `pbkdf2_hmac_sha256`, whose fuel is an argument: with
-- fewer than 2^32 - 1 rounds any fuel above their number is enough, with 2^32 - 1 none is. Loops that wait (`proc_waitpid`, `ipc_receive`) are modelled by one round,
-- as other processes run between two rounds. Numbers of 64 bits wrap where the code can overflow.
--
-- Not modelled: the saved registers and the switch of stacks, interrupt flags, messages on the
-- console, the release of an address space, the process made from an ELF file, the built-in files
-- and pseudo-files, the other system calls, the random numbers of authd.c, devices, the boot loader
-- and the other user space programs.
pub mod Prelude
pub mod Bits
pub mod Pmm
pub mod Proc
pub mod Sched
pub mod Cap
pub mod Ipc
pub mod Heap
pub mod Svc
pub mod Vfs
pub mod Fs
pub mod Synallagma
pub mod Elf
pub mod Paging
pub mod Auth
pub mod Authd
pub mod Crypto
pub mod Hid
pub mod Syscall
