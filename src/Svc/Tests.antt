-- ===== src/Svc/Tests.antt =====
-- A service registered and looked up.
use siathos.Prelude.{◌≡◌, refl, true, false, none, some, [], ◌∷◌, Text, arith}
use siathos.Proc.{Process, proc_get, running}
use siathos.Sched.Tests.{process, three}
use siathos.Svc.{Svc, registered, is_alive, query_scan, svc_register, svc_query}
use siathos.Svc.Registry.{svc_query-svc_register}

-- `kbd`
abbrev kbd : Text
kbd = 107 ∷ 98 ∷ 100 ∷ []

abbrev child : Process
child = process 2 1 running

-- An entry of a process that is gone, and a vacant one.
abbrev stale : Svc
stale = record {
  entries =
      record { name = 97 ∷ []; pid = 9; active = true }
      ∷ record { name = []; pid = 0; active = false }
      ∷ [];
  count = 1;
}

abbrev with_kbd : Svc
with_kbd = (svc_register kbd (some child) stale).1

kbd_ok : (svc_register kbd (some child) stale).0 ≡ registered
unfolding svc_register
kbd_ok = refl

child_alive : is_alive (proc_get three.procs 2) ≡ true
unfolding proc_get
child_alive = refl

stale_gone : svc_query (97 ∷ []) three.procs stale ≡ (
  none,
  record {
    entries =
        record { name = 97 ∷ []; pid = 9; active = false }
        ∷ record { name = []; pid = 0; active = false }
        ∷ [];
    count = 0;
  },
)
unfolding svc_query query_scan proc_get
stale_gone = refl

svc_query-svc_register_example : (svc_query kbd three.procs with_kbd).0 ≡ some 2
svc_query-svc_register_example =
    svc_query-svc_register 107 (98 ∷ 100 ∷ []) child three.procs stale (omega arith) kbd_ok
      child_alive
