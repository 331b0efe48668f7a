-- ===== src/Auth.antt =====
-- Users and session tickets of kernel/auth.c. `hash` is what `auth_hash_password` computes of a
-- password and a salt; salts and tokens, which the clock and `rand64` give, are arguments.
pub mod Tickets
pub mod Accounts
pub mod Hash
pub mod Sovereign
mod Tests
use siathos.Prelude.{
  ℕ, zero, suc, ◌+◌, ◌-◌, ◌^◌, Bool, true, false, not, ◌&&◌, ◌||◌, Option, none, some, List, [],
  ◌∷◌, ◌++◌, map, leb, ◌==◌, if◌then◌else◌, length, take, modify, Text, same, find_slot,
}

abbrev pub user_max : ℕ
user_max = 16

abbrev pub auth_name_max : ℕ
auth_name_max = 32

abbrev pub ticket_max : ℕ
ticket_max = 16

-- `CAP_ALL`
abbrev pub cap_all : ℕ
cap_all = 2 ^ 64 - 1

-- `auth_user_t`
pub record Account : Type 0 where
  pub name : Text
  pub hash : Text
  pub salt : Text
  pub caps : ℕ
  pub active : Bool
  pub is_admin : Bool

-- `auth_ticket_t`
pub record Ticket : Type 0 where
  pub name : Text
  pub caps : ℕ
  pub tok : ℕ
  pub used : Bool

-- The first `account_count` accounts, the first `ticket_count` tickets, and `synth_user`.
pub record Auth : Type 0 where
  pub accounts : List Account
  pub tickets : List Ticket
  pub synth : Account

pub auth_init : Auth → Auth
auth_init s = record s { accounts = [] }

abbrev pub is_named : Text → Account → Bool
is_named name u = same u.name name

abbrev pub is_user : Text → Account → Bool
is_user name u = u.active && same u.name name

unfoldable pub auth_find : Text → Auth → Option (ℕ × Account)
auth_find name s = find_slot (is_user name) s.accounts

abbrev pub is_taken : Option (ℕ × Account) → Bool
is_taken none = false
is_taken (some a) = true

abbrev pub delete_at : Option (ℕ × Account) → Auth → Bool × Auth
delete_at none s = (false, s)
delete_at (some (i, _)) s =
    (true, record s { accounts = modify s.accounts i (λ u. record u { active = false }) })

pub auth_user_delete : Text → Auth → Bool × Auth
unfolding auth_find
auth_user_delete name s = delete_at (auth_find name s) s

module _ (hash : Text → Text → Text) where
  abbrev pub new_account : Text → Text → ℕ → Bool → Text → Account
  new_account name password caps admin salt = record {
    name = take (auth_name_max - 1) name;
    hash = hash password salt;
    salt = salt;
    caps = caps;
    active = true;
    is_admin = admin;
  }

  -- A name is refused even where its account was deleted.
  pub auth_create_user : Text → Text → ℕ → Bool → Text → Auth → Bool × Auth
  auth_create_user name password caps admin salt s =
      if leb user_max (length s.accounts) || is_taken (find_slot (is_named name) s.accounts)
      then (false, s)
      else (
        true,
        record s { accounts = s.accounts ++ (new_account name password caps admin salt ∷ []) },
      )

  abbrev pub verify_at : Option (ℕ × Account) → Text → Bool
  verify_at none password = false
  verify_at (some (_, u)) password = same (hash password u.salt) u.hash

  pub auth_verify : Text → Text → Auth → Bool
  unfolding auth_find
  auth_verify name password s = verify_at (auth_find name s) password

  abbrev pub with_password : Text → Text → Account → Account
  with_password password salt u = record u { salt = salt; hash = hash password salt }

  abbrev pub set_password : Option (ℕ × Account) → Text → Text → Auth → Bool × Auth
  set_password none password salt s = (false, s)
  set_password (some (i, _)) password salt s =
      (true, record s { accounts = modify s.accounts i (with_password password salt) })

  pub auth_change_password_admin : Text → Text → Text → Auth → Bool × Auth
  unfolding auth_find
  auth_change_password_admin name new salt s = set_password (auth_find name s) new salt s

  pub auth_change_password : Text → Text → Text → Text → Auth → Bool × Auth
  unfolding auth_find auth_verify
  auth_change_password name old new salt s =
      if auth_verify name old s then set_password (auth_find name s) new salt s else (false, s)

-- A ticket that was not used and is of the same name is used up by a new one.
abbrev pub expire : Text → Ticket → Ticket
expire name t = if not t.used && same t.name name then record t { used = true } else t

abbrev pub new_ticket : Text → ℕ → ℕ → Ticket
new_ticket name caps tok = record {
  name = take (auth_name_max - 1) name;
  caps = caps;
  tok = tok;
  used = false;
}

-- `tok` is what `auth_ticket_token` gives.
pub auth_ticket_issue : Text → ℕ → ℕ → Auth → Bool × Auth
auth_ticket_issue [] caps tok s = (false, s)
auth_ticket_issue (c ∷ cs) caps tok s = if leb ticket_max (length s.tickets) then (false, s) else (
  true,
  record s { tickets = map (expire (c ∷ cs)) s.tickets ++ (new_ticket (c ∷ cs) caps tok ∷ []) },
)

abbrev pub opens : Text → ℕ → Ticket → Bool
opens name tok t = not t.used && (same t.name name && t.tok == tok)

abbrev pub ticket_user : Text → Ticket → Account
ticket_user name t = record {
  name = take (auth_name_max - 1) name;
  hash = [];
  salt = [];
  caps = t.caps;
  active = true;
  is_admin = t.caps == cap_all;
}

abbrev pub consume_at : Option (ℕ × Ticket) → Text → Auth → Option Account × Auth
consume_at none name s = (none, s)
consume_at (some (i, t)) name s = (
  some (ticket_user name t),
  record s {
    tickets = modify s.tickets i (λ x. record x { used = true });
    synth = ticket_user name t;
  },
)

-- `auth_ticket_consume`, with what the pointer that it returns points to.
pub auth_ticket_consume : Text → ℕ → Auth → Option Account × Auth
auth_ticket_consume name tok s = consume_at (find_slot (opens name tok) s.tickets) name s
