-- ===== src/Authd/Tests.antt =====
-- Small runs of userspace/authd/authd.c. The hash is the password behind the salt.
use siathos.Prelude.{
  ℕ, ◌≡◌, refl, Bool, true, false, some, List, [], ◌∷◌, ◌++◌, replicate, Text, arith,
}
use siathos.Authd.{
  Authd, Acct, Outside, Request, serve, refusal, request_login, auth_create_type, auth_login_type,
  auth_delete_type, auth_changepw_type, auth_create_user_type, authd_handler, spud_auth_pack,
  fields, create, verify, change_password, dec_str, cap_api_all, cap_user_default,
}
use siathos.Authd.Owned.{IsOwned}
use siathos.Authd.Served.{serve-IsOwned}
use siathos.Authd.Packed.{authd_handler-spud_auth_pack}

abbrev behind_salt : Text → Text → Text
behind_salt password salt = salt ++ password

abbrev outside : Outside
outside = record { salt = 1 ∷ []; next_salt = 2 ∷ []; issue = λ name caps. some 0xbeef }

abbrev no_accts : Authd
no_accts = record { accts = []; admin_authed = false }

abbrev pass : Text
pass = b'p' ∷ b'a' ∷ b's' ∷ b's' ∷ []

-- A name of 31 bytes, one byte that is skipped, and a password, without a terminator.
abbrev long_request : Text
long_request = replicate 31 b'a' ++ (b'x' ∷ pass)

abbrev second_request : Text
second_request = replicate 31 b'b' ++ (b'x' ∷ pass)

abbrev session : List Request
session =
    record { type = auth_create_type; bytes = long_request; out = outside }
    ∷ record { type = auth_create_user_type; bytes = second_request; out = outside }
    ∷ record { type = auth_login_type; bytes = long_request; out = outside }
    ∷ record { type = auth_create_user_type; bytes = second_request; out = outside }
    ∷ record { type = auth_delete_type; bytes = replicate 31 b'b'; out = outside }
    ∷ record { type = auth_delete_type; bytes = replicate 31 b'a'; out = outside }
    ∷ []

-- The first account of the session stays, the second one is deleted.
abbrev states : List Acct → List (Bool × ℕ)
states [] = []
states (u ∷ us) = (u.active, u.caps) ∷ states us

session_accounts :
    states (serve behind_salt session no_accts).accts
    ≡ (true, cap_api_all) ∷ (false, cap_user_default) ∷ []
unfolding authd_handler fields create verify change_password
session_accounts = refl

serve-IsOwned_example : IsOwned (serve behind_salt session no_accts)
serve-IsOwned_example = serve-IsOwned behind_salt session no_accts refl

abbrev ana : Text
ana = b'a' ∷ b'n' ∷ b'a' ∷ []

authd_handler-spud_auth_pack_example :
    let req = spud_auth_pack 127 (ana ∷ pass ∷ []) in
    (authd_handler behind_salt auth_create_type req outside no_accts ≡ (refusal, no_accts))
    × (authd_handler behind_salt auth_create_user_type req outside no_accts ≡ (refusal, no_accts))
    × (authd_handler behind_salt auth_changepw_type req outside no_accts ≡ (refusal, no_accts))
    × (authd_handler behind_salt auth_login_type req outside no_accts
        ≡ request_login behind_salt ana [] outside no_accts)
authd_handler-spud_auth_pack_example =
    authd_handler-spud_auth_pack behind_salt 127 ana (pass ∷ []) outside no_accts
      (omega arith, (omega arith, (omega arith, tt))) (omega arith) (omega arith)

count_text : dec_str 16 ≡ b'1' ∷ b'6' ∷ []
count_text = refl
