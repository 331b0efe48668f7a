-- ===== src/Auth/Tests.antt =====
-- Users and tickets of kernel/auth.c on small tables.
use siathos.Prelude.{◌≡◌, ◌≢◌, refl, true, false, none, [], ◌∷◌, ◌++◌, Text, arith}
use siathos.Auth.{
  Account, Auth, auth_create_user, auth_user_delete, auth_verify, auth_change_password, auth_find,
  auth_ticket_issue, auth_ticket_consume,
}
use siathos.Auth.Tickets.{OpensOnce, auth_ticket_issue-OpensOnce}
use siathos.Auth.Accounts.{auth_create_user-auth_verify}

abbrev joined : Text → Text → Text
joined password salt = password ++ salt

-- `ana`, `rui`
abbrev ana : Text
ana = 97 ∷ 110 ∷ 97 ∷ []

abbrev rui : Text
rui = 114 ∷ 117 ∷ 105 ∷ []

abbrev ana_account : Account
ana_account = record {
  name = ana;
  hash = 1 ∷ 2 ∷ 9 ∷ [];
  salt = 9 ∷ [];
  caps = 3;
  active = true;
  is_admin = false;
}

-- One account, and an old ticket of it.
abbrev one_user : Auth
one_user = record {
  accounts = ana_account ∷ [];
  tickets = record { name = ana; caps = 3; tok = 7; used = false } ∷ [];
  synth = ana_account;
}

issue_ok : (auth_ticket_issue ana 3 8 one_user).0 ≡ true
unfolding auth_ticket_issue
issue_ok = refl

create_ok : (auth_create_user joined rui (5 ∷ []) 1 false (4 ∷ []) one_user).0 ≡ true
unfolding auth_create_user
create_ok = refl

-- A deleted user cannot log in, and the name is not given again.
deleted_shut : auth_verify joined ana (1 ∷ 2 ∷ []) (auth_user_delete ana one_user).1 ≡ false
unfolding auth_verify auth_find auth_user_delete
deleted_shut = refl

deleted_taken :
    (auth_create_user joined ana (5 ∷ []) 1 false (4 ∷ []) (auth_user_delete ana one_user).1).0
    ≡ false
unfolding auth_create_user auth_find auth_user_delete
deleted_taken = refl

changed :
    auth_verify joined ana
      (5 ∷ [])
      (auth_change_password joined ana (1 ∷ 2 ∷ []) (5 ∷ []) (6 ∷ []) one_user).1
    ≡ true
unfolding auth_verify auth_find auth_change_password
changed = refl

-- The old ticket is used up by a new one.
old_ticket : (auth_ticket_consume ana 7 (auth_ticket_issue ana 3 8 one_user).1).0 ≡ none
unfolding auth_ticket_issue auth_ticket_consume
old_ticket = refl

auth_ticket_issue-OpensOnce_example : OpensOnce ana 3 8 (auth_ticket_issue ana 3 8 one_user).1
auth_ticket_issue-OpensOnce_example =
    auth_ticket_issue-OpensOnce ana 3 8 one_user (ground arith) issue_ok

auth_create_user-auth_verify_example :
    let u = (auth_create_user joined rui (5 ∷ []) 1 false (4 ∷ []) one_user).1 in
    (auth_verify joined rui (5 ∷ []) u ≡ true)
    × ((other pw : Text)
        → other ≢ rui
        → auth_verify joined other pw u ≡ auth_verify joined other pw one_user)
auth_create_user-auth_verify_example =
    auth_create_user-auth_verify joined rui (5 ∷ []) 1 false (4 ∷ []) one_user (ground arith)
      create_ok
