-- ===== src/Vfs/Access.antt =====
-- `vfs_check_cap` of kernel/vfs.c. What it reads of the session is one record: the user that
-- `login_result_user` gives, the current process, and the contracts.
use siathos.Prelude.{
  ℕ, ◌+◌, ◌^◌, Bool, true, false, not, ◌&&◌, ◌||◌, Option, none, some, [], ◌∷◌, ◌==◌, ◌!=◌,
  if◌then◌else◌, bit_and, Text, after,
}
use siathos.Proc.{Process}
use siathos.Fs.{slash}
use siathos.Synallagma.{Contract, Pacts}
use siathos.Synallagma.Guard.{contract_for, consented_to}

-- The fields of `auth_user_t` that are read.
pub record User : Type 0 where
  pub caps : ℕ
  pub is_admin : Bool

pub record Session : Type 0 where
  pub user : Option User
  pub process : Option Process
  pub pacts : Pacts

-- `CAP_FS_READ` and `CAP_FS_WRITE`
abbrev pub cap_fs_read : ℕ
cap_fs_read = 2 ^ 6

abbrev pub cap_fs_write : ℕ
cap_fs_write = 2 ^ 7

-- `CAP_FS_WRITE|CAP_IDIOS_WRITE|CAP_NOMOS_WRITE`
abbrev pub write_caps : ℕ
write_caps = 2 ^ 7 + 2 ^ 5 + 2 ^ 3

abbrev pub is_write : ℕ → Bool
is_write need = bit_and need write_caps != 0

abbrev pub is_admin_of : Option User → Bool
is_admin_of none = false
is_admin_of (some u) = u.is_admin

abbrev pub user_has : Option User → ℕ → Bool
user_has none need = false
user_has (some u) need = bit_and u.caps need != 0

abbrev pub process_has : Option Process → ℕ → Bool
process_has none need = false
process_has (some p) need = bit_and p.rights need != 0

-- The path is the folder, or goes on behind it with a slash.
abbrev pub at_or_below : Option Text → Bool
at_or_below none = false
at_or_below (some []) = true
at_or_below (some (c ∷ cs)) = c == slash

-- `/oikos` and `/synallagma`
abbrev pub oikos : Text
oikos = 47 ∷ 111 ∷ 105 ∷ 107 ∷ 111 ∷ 115 ∷ []

abbrev pub synallagma : Text
synallagma = 47 ∷ 115 ∷ 121 ∷ 110 ∷ 97 ∷ 108 ∷ 108 ∷ 97 ∷ 103 ∷ 109 ∷ 97 ∷ []

abbrev pub check_contract : Contract → ℕ → Session → Bool
check_contract c need s =
    if not (consented_to c.caminho s.pacts)
    then false
    else (if is_write need && not c.escrita
        then false
        else (if not (is_write need) && (not c.leitura && not c.execucao)
            then false
            else not (
                (c.caps_req != 0)
                && (not (is_admin_of s.user)
                    && (not (user_has s.user c.caps_req) && not (process_has s.process need))))))

abbrev pub check_plain : Text → ℕ → Session → Bool
check_plain path need s =
    if at_or_below (after oikos path)
    then not (is_write need)
    else (if at_or_below (after synallagma path)
        then (if is_write need
            then is_admin_of s.user || (user_has s.user need || process_has s.process need)
            else true)
        else true)

abbrev pub check_found : Option Contract → Text → ℕ → Session → Bool
check_found (some c) path need s = check_contract c need s
check_found none path need s = check_plain path need s

unfoldable pub check_cap : Text → ℕ → Session → Bool
check_cap path need s = check_found (contract_for path s.pacts) path need s
