-- ===== src/Syscall.antt =====
-- The checks of kernel/syscall.c on what a caller hands over: rights, pointers and texts. `mem` is the
-- memory that the caller's addresses reach, a byte for each address.
pub mod Pointers
pub mod Rights
pub mod Session
pub mod Messages
pub mod Files
use siathos.Prelude.{
  ℕ, zero, suc, ◌+◌, ◌-◌, ◌%◌, ◌^◌, Bool, true, false, not, ◌&&◌, ◌||◌, Option, none, some, List,
  [], ◌∷◌, leb, ltb, ◌==◌, ◌!=◌, if◌then◌else◌, bit_and, Text,
}
use siathos.Proc.{Process}
use siathos.Auth.{cap_all}

-- `0xFFFFFFFFFFFFFFFF`
abbrev pub failed : ℕ
failed = 2 ^ 64 - 1

-- The current process, none for a null pointer.
pub syscall_cap : Option Process → ℕ → Bool
syscall_cap none need = true
syscall_cap (some p) need = p.rights == cap_all || bit_and p.rights need != 0

abbrev pub in_region : ℕ → ℕ → ℕ × ℕ → Bool
in_region a len (b, sz) =
    sz != 0 && (leb b a && (ltb (a - b) sz && leb ((a - b + len) % 2 ^ 64) sz))

abbrev pub in_regions : ℕ → ℕ → List (ℕ × ℕ) → Bool
in_regions a len [] = false
in_regions a len (r ∷ rs) = in_region a len r || in_regions a len rs

abbrev pub allows : Option Process → ℕ → ℕ → Bool
allows none a len = false
allows (some p) a len = not p.is_user || in_regions a len p.umap

pub user_ptr_ok : Option Process → ℕ → ℕ → Bool
user_ptr_ok p addr len =
    if addr == 0
    then len == 0
    else if len == 0
    then true
    else if ltb ((addr + len) % 2 ^ 64) addr
    then false
    else allows p addr len

abbrev pub prepend : ℕ → Option Text → Option Text
prepend c none = none
prepend c (some t) = some (c ∷ t)

-- The loop of `user_str` with `room` bytes of `dst` left: it ends at the latest when one is left.
pub str_loop : Option Process → (ℕ → ℕ) → ℕ → ℕ → Option Text
str_loop p mem zero addr = none
str_loop p mem (suc room) addr =
    let rest = str_loop p mem room ((addr + 1) % 2 ^ 64) in
    if not (user_ptr_ok p addr 1)
    then none
    else if mem addr == 0
    then some []
    else if room == 0
    then none
    else prepend (mem addr) rest

abbrev pub is_running_in : Option Process → Bool
is_running_in none = false
is_running_in (some p) = true

-- The text that is copied, where the result is true.
pub user_str : Option Process → (ℕ → ℕ) → ℕ → ℕ → Option Text
unfolding str_loop
user_str p mem src dst_max =
    if src == 0 || dst_max == 0 || not (is_running_in p) then none else str_loop p mem dst_max src
