-- ===== src/Syscall/Rights.antt =====
-- What the test of rights in kernel/syscall.c says of a process, and that texts are read for one only.
use siathos.Prelude.{
  ℕ, ◌≡◌, ◌≢◌, ◌⊎◌, inl, inr, refl, true, Option, none, some, ◌==◌, bit_and, Text, arith,
  Bool-cases,
}
use siathos.Proc.{Process}
use siathos.Auth.{cap_all}
use siathos.Syscall.{syscall_cap, user_str}

-- The process has the right, or all.
abbrev pub HasRight : Process → ℕ → Type 0
HasRight p need = (p.rights ≡ cap_all) ⊎ (bit_and p.rights need ≢ 0)

pub syscall_cap-HasRight :
    (p : Process) (need : ℕ) → syscall_cap (some p) need ≡ true → HasRight p need
unfolding syscall_cap
syscall_cap-HasRight p need e = elim (Bool-cases (p.rights == cap_all)) [
  | inl all ↦ inl (ground (arith, all))
  | inr off ↦ inr (ground (arith, off, e))
]

pub HasRight-syscall_cap :
    (p : Process) (need : ℕ) → HasRight p need → syscall_cap (some p) need ≡ true
unfolding syscall_cap
HasRight-syscall_cap p need (inl all) = ground (arith, all)
HasRight-syscall_cap p need (inr one) = ground (arith, one)

pub user_str-process :
    (o : Option Process) (mem : ℕ → ℕ) (addr room : ℕ) (t : Text)
    → user_str o mem addr room ≡ some t
    → (p : Process) × (o ≡ some p)
unfolding user_str
user_str-process none mem addr room t e = absurd (ground (arith, e))
user_str-process (some p) mem addr room t e = (p, refl)
