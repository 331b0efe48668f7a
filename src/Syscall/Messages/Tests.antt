-- ===== src/Syscall/Messages/Tests.antt =====
-- A message received by a system call of kernel/syscall.c.
use siathos.Prelude.{◌+◌, ◌≡◌, refl, true, [], ◌∷◌, replicate, arith}
use siathos.Proc.{Process}
use siathos.Ipc.{Message, Mailbox, blank, receive, receive_round, mailbox_for, pop, cap_ipc}
use siathos.Syscall.{user_ptr_ok, syscall_cap}
use siathos.Syscall.Session.Tests.{guest, small_kernel}
use siathos.Syscall.Messages.{Desk, ipc_recv, sys_ipc_recv, message_dispatch}
use siathos.Syscall.Messages.Regions.{IsIsolated}
use siathos.Syscall.Messages.Isolated.{message_dispatch-IsIsolated}

abbrev talker : Process
talker = record guest { rights = 2048 + cap_ipc }

abbrev greeting : Message
greeting = record { sender = 7; receiver = 1; kind = 3; payload = b'h' ∷ b'i' ∷ []; size = 2 }

abbrev full_box : Mailbox
full_box = record { pid = 1; msgs = greeting ∷ replicate 63 blank; head = 0; count = 1 }

abbrev desk : Desk
desk = record {
  kernel = record small_kernel { table = record small_kernel.table { procs = talker ∷ [] } };
  ipc = record { mailboxes = full_box ∷ []; ipc_ready = true };
  svc = record { entries = []; count = 0 };
}

greeting_received : (message_dispatch (ipc_recv 4200 64 4300 4304) desk).0 ≡ 2
unfolding message_dispatch sys_ipc_recv receive receive_round mailbox_for pop user_ptr_ok
    syscall_cap
greeting_received = refl

greeting_stored : (message_dispatch (ipc_recv 4200 64 4300 4304) desk).1.kernel.mem 4201 ≡ b'i'
unfolding message_dispatch sys_ipc_recv receive receive_round mailbox_for pop user_ptr_ok
    syscall_cap
greeting_stored = refl

-- A null buffer with room is not refused, and the message is written to the address 0.
null_buffer_written : (message_dispatch (ipc_recv 0 64 0 0) desk).1.kernel.mem 0 ≡ b'h'
unfolding message_dispatch sys_ipc_recv receive receive_round mailbox_for pop user_ptr_ok
    syscall_cap
null_buffer_written = refl

message_dispatch-IsIsolated_example :
    IsIsolated talker desk.kernel.mem
      (message_dispatch (ipc_recv 4200 64 4300 4304) desk).1.kernel.mem
message_dispatch-IsIsolated_example =
    message_dispatch-IsIsolated talker (ipc_recv 4200 64 4300 4304) desk refl
      (omega arith, omega arith, omega arith, omega arith, omega arith) refl
