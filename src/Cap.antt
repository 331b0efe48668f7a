-- ===== src/Cap.antt =====
-- The capabilities of kernel/cap.c: the bits of a process's `rights`. The wrappers `kinesis_*` are
-- in Proc.antt; the messages are left out.
pub mod Laws
mod Tests
use siathos.Prelude.{ℕ, Bool, true, false, Option, none, some, ◌!=◌, modify, bit_and, bit_or}
use siathos.Bits.{complement}
use siathos.Proc.{Process, Table, proc_get}

abbrev pub check_at : Option (ℕ × Process) → ℕ → Bool
check_at none right = false
check_at (some (_, p)) right = bit_and p.rights right != 0

pub cap_check : Table → ℕ → ℕ → Bool
cap_check t pid right = check_at (proc_get t.procs pid) right

pub cap_has : Table → ℕ → ℕ → Bool
unfolding cap_check
cap_has t pid right = cap_check t pid right

-- A write to the rights of the slot found; the result is false without one.
abbrev pub write_at : Option (ℕ × Process) → (ℕ → ℕ) → Table → Bool × Table
write_at none f t = (false, t)
write_at (some (i, _)) f t =
    (true, record t { procs = modify t.procs i (λ p. record p { rights = f p.rights }) })

pub cap_grant : Table → ℕ → ℕ → Bool × Table
cap_grant t pid rights = write_at (proc_get t.procs pid) (λ old. bit_or old rights) t

pub cap_revoke : Table → ℕ → ℕ → Bool × Table
cap_revoke t pid rights =
    write_at (proc_get t.procs pid) (λ old. bit_and old (complement 64 rights)) t
