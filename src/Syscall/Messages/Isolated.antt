-- ===== src/Syscall/Messages/Isolated.antt =====
-- Which memory the calls of kernel/syscall.c on messages and services write.
use siathos.Prelude.{
  ℕ, ◌%◌, ◌^◌, ◌<◌, ◌≡◌, ◌≢◌, refl, subst, Bool, true, false, not, ◌&&◌, ◌||◌, Option, none, some,
  length, ◌==◌, ◌!=◌, if◌then◌else◌, min, Text, arith,
}
use siathos.Proc.{Process}
use siathos.Ipc.{cap_ipc, msg_max, Ipc, Received, got, nothing, denied, absent, receive, send}
use siathos.Ipc.Receive.{Fits, receive-Fits}
use siathos.Svc.{Svc, svc_register, svc_query}
use siathos.Syscall.{failed, syscall_cap, user_ptr_ok, user_str}
use siathos.Syscall.Session.{current_proc, cap_syscall}
use siathos.Syscall.Messages.{
  Desk, with_mem, bytes_from, store_bytes, store32, sys_ipc_send, sent_code, out32, received_into,
  sys_ipc_recv, with_name, registered_code, sys_svc_register, queried_into, sys_svc_query,
  MessageCall, ipc_send, ipc_reply, ipc_recv, service_register, service_query, run_message_call,
  message_dispatch,
}
use siathos.Syscall.Messages.Regions.{
  IsIsolated, trans-IsIsolated, store_bytes-IsIsolated, store32-IsIsolated,
}

-- The registers that a call's pointers and sizes stand in, and no null buffer to receive into.
abbrev pub IsProper : MessageCall → Type 0
IsProper (ipc_send a1 a2 a3 a4) = Unit {0}
IsProper (ipc_reply a1 a2 a3 a4) = Unit {0}
IsProper (ipc_recv a1 a2 a3 a4) =
    (a1 ≢ 0) × (a1 < 2 ^ 64) × (a2 < 2 ^ 64) × (a3 < 2 ^ 64) × (a4 < 2 ^ 64)
IsProper (service_register a1) = Unit {0}
IsProper (service_query a1 a2) = a2 < 2 ^ 64

module _ (p : Process) (user : p.is_user ≡ true) where
  module _ (m : ℕ → ℕ) where
    abbrev Held : Desk → Type 0
    Held k = (current_proc k.kernel ≡ some p) × IsIsolated p m k.kernel.mem

    abbrev Kept : ℕ × Desk → Type 0
    Kept r = IsIsolated p m r.1.kernel.mem

    both :
        (b : Bool) (x y : ℕ × Desk)
        → (b ≡ true → Kept x)
        → (b ≡ false → Kept y)
        → Kept (if b then x else y)
    both true x y f g = f refl
    both false x y f g = g refl

    out32-Kept :
        (a v : ℕ) (k : Desk) (rest : Desk → ℕ × Desk)
        → a < 2 ^ 64
        → Held k
        → ((u : Desk) → Held u → Kept (rest u))
        → Kept (out32 a v k rest)
    out32-Kept a v k rest al (at, iso) f =
        both (a == 0) (rest k)
          (if refused then (failed, k) else rest (with_mem (store32 a v k.kernel.mem) k))
          (λ null. f k (at, iso))
          (λ some_pointer.
            both refused (failed, k) (rest (with_mem (store32 a v k.kernel.mem) k)) (λ bad. iso)
              (λ fine. f (with_mem (store32 a v k.kernel.mem) k) (
                at,
                trans-IsIsolated p user m k.kernel.mem (store32 a v k.kernel.mem) iso
                    (store32-IsIsolated p user a v k.kernel.mem al (allowed fine)),
              )))
      where
        refused : Bool
        refused = not (user_ptr_ok (current_proc k.kernel) a 4)

        allowed : refused ≡ false → user_ptr_ok (some p) a 4 ≡ true
        allowed fine = subst (λ o. user_ptr_ok o a 4 ≡ true) at (ground (arith, fine))

    received_into-Kept :
        (r : Received) (s : Ipc) (a1 len a3 a4 : ℕ) (k : Desk)
        → a1 < 2 ^ 64
        → len < 2 ^ 64
        → a3 < 2 ^ 64
        → a4 < 2 ^ 64
        → Fits len r
        → user_ptr_ok (some p) a1 len ≡ true
        → Held k
        → Kept (received_into (r, s) a1 a3 a4 k)
    received_into-Kept (got from kind bytes) s a1 len a3 a4 k l1 l2 l3 l4 fits ok (at, iso) =
        let mem = store_bytes a1 bytes k.kernel.mem in
        out32-Kept a3 from (with_mem mem (record k { ipc = s }))
          (λ u. out32 a4 kind u λ w. (length bytes, w)) l3
          (
            at,
            trans-IsIsolated p user m k.kernel.mem mem iso
                (store_bytes-IsIsolated p user a1 len bytes k.kernel.mem l1 l2 fits ok),
          )
          (λ u h. out32-Kept a4 kind u (λ w. (length bytes, w)) l4 h (λ w g. g.1))
    received_into-Kept nothing s a1 len a3 a4 k l1 l2 l3 l4 fits ok h =
        out32-Kept a3 0 (record k { ipc = s }) (λ u. out32 a4 0 u λ w. (failed, w)) l3 h
          (λ u h. out32-Kept a4 0 u (λ w. (failed, w)) l4 h (λ w g. g.1))
    received_into-Kept denied s a1 len a3 a4 k l1 l2 l3 l4 fits ok h =
        out32-Kept a3 0 (record k { ipc = s }) (λ u. out32 a4 0 u λ w. (failed, w)) l3 h
          (λ u h. out32-Kept a4 0 u (λ w. (failed, w)) l4 h (λ w g. g.1))
    received_into-Kept absent s a1 len a3 a4 k l1 l2 l3 l4 fits ok h =
        out32-Kept a3 0 (record k { ipc = s }) (λ u. out32 a4 0 u λ w. (failed, w)) l3 h
          (λ u h. out32-Kept a4 0 u (λ w. (failed, w)) l4 h (λ w g. g.1))

    queried_into-Kept :
        (o : Option ℕ) (s : Svc) (a2 : ℕ) (k : Desk)
        → a2 < 2 ^ 64
        → Held k
        → Kept (queried_into (o, s) a2 k)
    queried_into-Kept none s a2 k l2 h = h.1
    queried_into-Kept (some pid) s a2 k l2 h =
        out32-Kept a2 pid (record k { svc = s }) (λ u. (pid, u)) l2 h (λ u g. g.1)

    with_name-Kept :
        (o : Option Text) (k : Desk) (run : Text → ℕ × Desk)
        → Held k
        → ((name : Text) → Kept (run name))
        → Kept (with_name o k run)
    with_name-Kept none k run h f = h.1
    with_name-Kept (some name) k run h f = f name

  unchanged : (mem : ℕ → ℕ) → IsIsolated p mem mem
  unchanged mem x ne = absurd (ne refl)

  sys_ipc_send-IsIsolated :
      (a1 a2 a3 a4 : ℕ) (k : Desk)
      → IsIsolated p k.kernel.mem (sys_ipc_send a1 a2 a3 a4 k).1.kernel.mem
  unfolding sys_ipc_send
  sys_ipc_send-IsIsolated a1 a2 a3 a4 k =
      let (r, (s, t)) =
        send (a1 % 2 ^ 32) (a2 % 2 ^ 32) (bytes_from k.kernel.mem a3 (min a4 msg_max)) a4 k.ipc
          k.kernel.table in
      both k.kernel.mem
        (not (syscall_cap (current_proc k.kernel) cap_ipc)
          || (a3 != 0 && (a4 != 0 && not (user_ptr_ok (current_proc k.kernel) a3 a4))))
        (failed, k) (sent_code r, record k { ipc = s; kernel = record k.kernel { table = t } })
        (λ bad. unchanged k.kernel.mem) (λ fine. unchanged k.kernel.mem)

  sys_ipc_recv-IsIsolated :
      (a1 a2 a3 a4 : ℕ) (k : Desk)
      → IsProper (ipc_recv a1 a2 a3 a4)
      → current_proc k.kernel ≡ some p
      → IsIsolated p k.kernel.mem (sys_ipc_recv a1 a2 a3 a4 k).1.kernel.mem
  unfolding sys_ipc_recv
  sys_ipc_recv-IsIsolated a1 a2 a3 a4 k (some_buffer, l1, l2, l3, l4) at =
      both k.kernel.mem (no_right || (a1 != 0 && bad_pointer (current_proc k.kernel))) (failed, k)
        (received_into (receive a2 k.ipc k.kernel.table) a1 a3 a4 k) (λ bad. unchanged k.kernel.mem)
        (λ fine.
          received_into-Kept k.kernel.mem (receive a2 k.ipc k.kernel.table).0
            (receive a2 k.ipc k.kernel.table).1 a1 a2 a3 a4 k l1 l2 l3 l4
            (receive-Fits a2 k.ipc k.kernel.table)
            (allowed (subst (λ o. (no_right || (a1 != 0 && bad_pointer o)) ≡ false) at fine))
            (at, unchanged k.kernel.mem))
    where
      no_right : Bool
      no_right = not (syscall_cap (current_proc k.kernel) cap_ipc)

      bad_pointer : Option Process → Bool
      bad_pointer o = not (user_ptr_ok o a1 a2)

      allowed :
          (no_right || (a1 != 0 && bad_pointer (some p))) ≡ false
          → user_ptr_ok (some p) a1 a2 ≡ true
      allowed fine = ground (arith, fine, some_buffer)

  sys_svc_register-IsIsolated :
      (a1 : ℕ) (k : Desk)
      → current_proc k.kernel ≡ some p
      → IsIsolated p k.kernel.mem (sys_svc_register a1 k).1.kernel.mem
  unfolding sys_svc_register
  sys_svc_register-IsIsolated a1 k at =
      both k.kernel.mem (not (syscall_cap (current_proc k.kernel) cap_ipc)) (failed, k)
        (with_name name k put) (λ bad. unchanged k.kernel.mem)
        (λ fine.
          with_name-Kept k.kernel.mem name k put (at, unchanged k.kernel.mem)
            (λ n. unchanged k.kernel.mem))
    where
      name : Option Text
      name = user_str (current_proc k.kernel) k.kernel.mem a1 32

      put : Text → ℕ × Desk
      put n =
          let (r, s) = svc_register n (current_proc k.kernel) k.svc in
          (registered_code r, record k { svc = s })

  sys_svc_query-IsIsolated :
      (a1 a2 : ℕ) (k : Desk)
      → a2 < 2 ^ 64
      → current_proc k.kernel ≡ some p
      → IsIsolated p k.kernel.mem (sys_svc_query a1 a2 k).1.kernel.mem
  unfolding sys_svc_query
  sys_svc_query-IsIsolated a1 a2 k l2 at =
      both k.kernel.mem (a1 == 0) (failed, k) (with_name name k put) (λ bad. unchanged k.kernel.mem)
        (λ fine.
          with_name-Kept k.kernel.mem name k put (at, unchanged k.kernel.mem)
            (λ n.
              queried_into-Kept k.kernel.mem (svc_query n k.kernel.table.procs k.svc).0
                (svc_query n k.kernel.table.procs k.svc).1 a2 k l2 (at, unchanged k.kernel.mem)))
    where
      name : Option Text
      name = user_str (current_proc k.kernel) k.kernel.mem a1 32

      put : Text → ℕ × Desk
      put n = queried_into (svc_query n k.kernel.table.procs k.svc) a2 k

  run_message_call-IsIsolated :
      (c : MessageCall) (k : Desk)
      → IsProper c
      → current_proc k.kernel ≡ some p
      → IsIsolated p k.kernel.mem (run_message_call c k).1.kernel.mem
  run_message_call-IsIsolated (ipc_send a1 a2 a3 a4) k w at = sys_ipc_send-IsIsolated a1 a2 a3 a4 k
  run_message_call-IsIsolated (ipc_reply a1 a2 a3 a4) k w at = sys_ipc_send-IsIsolated a1 a2 a3 a4 k
  run_message_call-IsIsolated (ipc_recv a1 a2 a3 a4) k w at =
      sys_ipc_recv-IsIsolated a1 a2 a3 a4 k w at
  run_message_call-IsIsolated (service_register a1) k w at = sys_svc_register-IsIsolated a1 k at
  run_message_call-IsIsolated (service_query a1 a2) k w at = sys_svc_query-IsIsolated a1 a2 k w at

-- A call of a ring 3 process on messages or services, with arguments of 64 bits, changes no byte of
-- memory outside the regions that the kernel gave to the process, whatever is in the queues and the
-- registry; a receive with a null pointer for its buffer is left out.
pub message_dispatch-IsIsolated :
    (p : Process) (c : MessageCall) (k : Desk)
    → p.is_user ≡ true
    → IsProper c
    → current_proc k.kernel ≡ some p
    → IsIsolated p k.kernel.mem (message_dispatch c k).1.kernel.mem
unfolding message_dispatch
message_dispatch-IsIsolated p c k user w at =
    both p user k.kernel.mem (syscall_cap (current_proc k.kernel) cap_syscall)
      (run_message_call c k) (failed, k) (λ may. run_message_call-IsIsolated p user c k w at)
      (λ not_may. unchanged p user k.kernel.mem)
