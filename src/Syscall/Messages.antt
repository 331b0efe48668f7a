-- ===== src/Syscall/Messages.antt =====
-- The system calls of kernel/syscall.c on messages and services. What a call writes through the
-- caller's pointers is written to `mem`.
pub mod Regions
pub mod Isolated
mod Tests
use siathos.Prelude.{
  ℕ, zero, suc, ◌+◌, ◌-◌, ◌/◌, ◌%◌, ◌^◌, Bool, true, false, not, ◌&&◌, ◌||◌, Option, none, some,
  List, [], ◌∷◌, length, get_or, leb, ltb, ◌==◌, ◌!=◌, if◌then◌else◌, min, Text,
}
use siathos.Ipc.{
  msg_max, cap_ipc, Ipc, Sent, sent, no_right, no_mailbox, send, Received, got, nothing, denied,
  absent, receive,
}
use siathos.Svc.{Svc, Registered, registered, no_name, full, svc_register, svc_query}
use siathos.Syscall.{failed, syscall_cap, user_ptr_ok, user_str}
use siathos.Syscall.Session.{Kernel, current_proc, cap_syscall}

pub record Desk : Type 0 where
  pub kernel : Kernel
  pub ipc : Ipc
  pub svc : Svc

abbrev pub with_mem : (ℕ → ℕ) → Desk → Desk
with_mem mem k = record k { kernel = record k.kernel { mem = mem } }

-- The `n` bytes from `a` on.
abbrev pub bytes_from : (ℕ → ℕ) → ℕ → ℕ → List ℕ
bytes_from mem a zero = []
bytes_from mem a (suc n) = mem a ∷ bytes_from mem (a + 1) n

-- `memcpy` to the address `a`.
abbrev pub store_bytes : ℕ → List ℕ → (ℕ → ℕ) → ℕ → ℕ
store_bytes a bytes mem x =
    if leb a x && ltb x (a + length bytes) then get_or bytes (x - a) 0 else mem x

-- `*(uint32_t*)a=v`
abbrev pub store32 : ℕ → ℕ → (ℕ → ℕ) → ℕ → ℕ
store32 a v mem x = if leb a x && ltb x (a + 4) then v / 256 ^ (x - a) % 256 else mem x

-- The result of `ipc_send` as 32 bits.
abbrev pub sent_code : Sent → ℕ
sent_code sent = 0
sent_code no_right = 2 ^ 32 - 1
sent_code no_mailbox = 2 ^ 32 - 2

-- `SYS_IPC_SEND`; `SYS_IPC_REPLY` does the same by `ipc_reply`.
pub sys_ipc_send : ℕ → ℕ → ℕ → ℕ → Desk → ℕ × Desk
sys_ipc_send a1 a2 a3 a4 k =
    let bytes = bytes_from k.kernel.mem a3 (min a4 msg_max) in
    let (r, (s, t)) = send (a1 % 2 ^ 32) (a2 % 2 ^ 32) bytes a4 k.ipc k.kernel.table in
    if not (syscall_cap (current_proc k.kernel) cap_ipc)
      || (a3 != 0 && (a4 != 0 && not (user_ptr_ok (current_proc k.kernel) a3 a4)))
    then (failed, k)
    else (sent_code r, record k { ipc = s; kernel = record k.kernel { table = t } })

-- A pointer to a result of 32 bits, where it is not null; `rest` goes on behind the write.
abbrev pub out32 : ℕ → ℕ → Desk → (Desk → ℕ × Desk) → ℕ × Desk
out32 a v k rest =
    let written = rest (with_mem (store32 a v k.kernel.mem) k) in
    let unwritten = rest k in
    if a == 0
    then unwritten
    else if not (user_ptr_ok (current_proc k.kernel) a 4)
    then (failed, k)
    else written

abbrev pub received_into : Received × Ipc → ℕ → ℕ → ℕ → Desk → ℕ × Desk
received_into (got from kind bytes, s) a1 a3 a4 k =
    let k' = with_mem (store_bytes a1 bytes k.kernel.mem) (record k { ipc = s }) in
    out32 a3 from k' λ u. out32 a4 kind u λ w. (length bytes, w)
received_into (nothing, s) a1 a3 a4 k =
    out32 a3 0 (record k { ipc = s }) λ u. out32 a4 0 u λ w. (failed, w)
received_into (denied, s) a1 a3 a4 k =
    out32 a3 0 (record k { ipc = s }) λ u. out32 a4 0 u λ w. (failed, w)
received_into (absent, s) a1 a3 a4 k =
    out32 a3 0 (record k { ipc = s }) λ u. out32 a4 0 u λ w. (failed, w)

-- `SYS_IPC_RECV`
pub sys_ipc_recv : ℕ → ℕ → ℕ → ℕ → Desk → ℕ × Desk
sys_ipc_recv a1 a2 a3 a4 k =
    if not (syscall_cap (current_proc k.kernel) cap_ipc)
      || (a1 != 0 && not (user_ptr_ok (current_proc k.kernel) a1 a2))
    then (failed, k)
    else received_into (receive a2 k.ipc k.kernel.table) a1 a3 a4 k

abbrev pub with_name : Option Text → Desk → (Text → ℕ × Desk) → ℕ × Desk
with_name none k run = (failed, k)
with_name (some name) k run = run name

abbrev pub registered_code : Registered → ℕ
registered_code registered = 0
registered_code no_name = failed
registered_code full = failed

-- `SYS_SVC_REGISTER`
pub sys_svc_register : ℕ → Desk → ℕ × Desk
sys_svc_register a1 k =
    if not (syscall_cap (current_proc k.kernel) cap_ipc)
    then (failed, k)
    else with_name (user_str (current_proc k.kernel) k.kernel.mem a1 32) k λ name.
      let (r, s) = svc_register name (current_proc k.kernel) k.svc in
      (registered_code r, record k { svc = s })

abbrev pub queried_into : Option ℕ × Svc → ℕ → Desk → ℕ × Desk
queried_into (none, s) a2 k = (failed, record k { svc = s })
queried_into (some pid, s) a2 k = out32 a2 pid (record k { svc = s }) λ u. (pid, u)

-- `SYS_SVC_QUERY`
pub sys_svc_query : ℕ → ℕ → Desk → ℕ × Desk
sys_svc_query a1 a2 k =
    if a1 == 0
    then (failed, k)
    else with_name (user_str (current_proc k.kernel) k.kernel.mem a1 32) k
        λ name. queried_into (svc_query name k.kernel.table.procs k.svc) a2 k

-- The calls with their arguments.
pub data MessageCall : Type 0 where
  ipc_send ipc_reply ipc_recv : ℕ → ℕ → ℕ → ℕ → MessageCall
  service_register : ℕ → MessageCall
  service_query : ℕ → ℕ → MessageCall

abbrev pub run_message_call : MessageCall → Desk → ℕ × Desk
run_message_call (ipc_send a1 a2 a3 a4) k = sys_ipc_send a1 a2 a3 a4 k
run_message_call (ipc_reply a1 a2 a3 a4) k = sys_ipc_send a1 a2 a3 a4 k
run_message_call (ipc_recv a1 a2 a3 a4) k = sys_ipc_recv a1 a2 a3 a4 k
run_message_call (service_register a1) k = sys_svc_register a1 k
run_message_call (service_query a1 a2) k = sys_svc_query a1 a2 k

-- The test of `CAP_SYSCALL` before the `switch`.
pub message_dispatch : MessageCall → Desk → ℕ × Desk
message_dispatch c k =
    if syscall_cap (current_proc k.kernel) cap_syscall then run_message_call c k else (failed, k)
