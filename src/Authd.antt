-- ===== src/Authd.antt =====
-- The login service of userspace/authd/authd.c and the requests that userspace/spud.h sends it. A
-- request is the list of the bytes received, before the terminator that `spud_svc_serve` writes, and
-- an answer the bytes sent back. `hash` is what the call SYS_AUTH_HASH gives for a password and a
-- salt, empty where it fails.
pub mod Texts
pub mod Packed
pub mod Owned
pub mod Served
mod Tests
use siathos.Prelude.{
  ℕ, zero, suc, ◌+◌, ◌-◌, ◌*◌, ◌/◌, ◌%◌, ◌^◌, Bool, true, false, not, ◌&&◌, ◌||◌, Option, none,
  some, List, [], ◌∷◌, ◌++◌, length, take, modify, leb, ltb, ◌==◌, if◌then◌else◌, Text, same,
  find_slot,
}
unfoldable pub use Texts.*
use siathos.Auth.Hash.{hex_word}

abbrev pub auth_max : ℕ
auth_max = 16

abbrev pub name_size : ℕ
name_size = 32

abbrev pub cap_api_all : ℕ
cap_api_all = 2 ^ 64 - 1

-- `CAP_FB_DRAW`, `CAP_AISTHESIS`, `CAP_FS_READ` and `CAP_IDIOS_WRITE`
abbrev pub cap_user_default : ℕ
cap_user_default = 2 ^ 0 + 2 ^ 1 + 2 ^ 6 + 2 ^ 5

abbrev pub ping_type : ℕ
ping_type = 1

abbrev pub auth_count_type : ℕ
auth_count_type = 20

abbrev pub auth_create_type : ℕ
auth_create_type = 21

abbrev pub auth_login_type : ℕ
auth_login_type = 22

abbrev pub auth_list_type : ℕ
auth_list_type = 23

abbrev pub auth_delete_type : ℕ
auth_delete_type = 24

abbrev pub auth_changepw_type : ℕ
auth_changepw_type = 25

abbrev pub auth_create_user_type : ℕ
auth_create_user_type = 26

-- The first `acct_n` of `accts`, and `admin_authed`.
pub record Authd : Type 0 where
  pub accts : List Acct
  pub admin_authed : Bool

-- What the service gets from outside while it answers a request: the salts that `gen_salt` makes, and
-- the ticket that SYS_AUTH_TICKET_ISSUE gives for a name and rights, if it gives one other than 0.
pub record Outside : Type 0 where
  pub salt : Text
  pub next_salt : Text
  pub issue : Text → ℕ → Option ℕ

abbrev pub is_empty : Text → Bool
is_empty [] = true
is_empty (c ∷ cs) = false

abbrev pub is_acct : Text → Acct → Bool
is_acct name u = u.active && same u.name name

abbrev pub find : Text → Authd → Option (ℕ × Acct)
find name s = find_slot (is_acct name) s.accts

abbrev pub is_found : Option (ℕ × Acct) → Bool
is_found none = false
is_found (some a) = true

abbrev pub refusal : Text
refusal = b'0' ∷ []

abbrev pub consent : Text
consent = b'1' ∷ []

abbrev pub reply_of : Bool → Text
reply_of done = if done then consent else refusal

abbrev pub answer_of : Bool × Authd → Text × Authd
answer_of (done, s) = (reply_of done, s)

abbrev pub issue_ticket : Option ℕ → Bool → Authd → Text × Authd
issue_ticket none admin s = (refusal, s)
issue_ticket (some tok) admin s =
    (hex_word 16 tok, record s { admin_authed = admin || s.admin_authed })

abbrev pub login_acct : Option (ℕ × Acct) → Outside → Authd → Text × Authd
login_acct none out s = (refusal, s)
login_acct (some (i, u)) out s = issue_ticket (out.issue u.name u.caps) u.is_admin s

abbrev pub delete_acct : Option (ℕ × Acct) → Authd → Text × Authd
delete_acct none s = (refusal, s)
delete_acct (some (i, u)) s =
    if u.is_admin || not s.admin_authed
    then (refusal, s)
    else (consent, record s { accts = modify s.accts i (λ a. record a { active = false }) })

-- A request: its type, its bytes, and what the service gets from outside meanwhile.
pub record Request : Type 0 where
  pub type : ℕ
  pub bytes : List ℕ
  pub out : Outside

module _ (hash : Text → Text → Text) where
  abbrev pub authd_hash : Text → Text → Text
  authd_hash password salt = hash (take 63 password) salt

  abbrev pub new_acct : Text → Text → ℕ → Bool → Text → Acct
  new_acct name password caps admin salt = record {
    name = take (name_size - 1) name;
    hash = authd_hash password salt;
    salt = salt;
    caps = caps;
    active = true;
    is_admin = admin;
  }

  pub create : Text → Text → ℕ → Bool → Text → Authd → Bool × Authd
  create name password caps admin salt s =
      if leb auth_max (length s.accts) || is_found (find name s)
      then (false, s)
      else if is_empty (authd_hash password salt)
      then (false, s)
      else (true, record s { accts = s.accts ++ (new_acct name password caps admin salt ∷ []) })

  abbrev pub verify_found : Option (ℕ × Acct) → Text → Bool
  verify_found none password = false
  verify_found (some (i, u)) password =
      let test = authd_hash password u.salt in not (is_empty test) && same test u.hash

  pub verify : Text → Text → Authd → Bool
  verify name password s = verify_found (find name s) password

  abbrev pub with_hash : Text → Text → Acct → Acct
  with_hash password salt u = record u { salt = salt; hash = authd_hash password salt }

  -- `gen_salt` and `authd_hash` into the account, and whether the hash was made.
  abbrev pub rehash : Option (ℕ × Acct) → Text → Text → Authd → Bool × Authd
  rehash none password salt s = (false, s)
  rehash (some (i, u)) password salt s = (
    not (is_empty (authd_hash password salt)),
    record s { accts = modify s.accts i (with_hash password salt) },
  )

  pub change_password : Text → Text → Text → Text → Authd → Bool × Authd
  change_password name old new salt s =
      if ltb (length new) 4 || not (verify name old s)
      then (false, s)
      else rehash (find name s) new salt s

  abbrev pub request_create : Text → Text → Outside → Authd → Text × Authd
  request_create f1 f2 out s =
      if length s.accts == 0 && not (ltb (length f1) 3 || ltb (length f2) 4)
      then answer_of (create f1 f2 cap_api_all true out.salt s)
      else (refusal, s)

  abbrev pub request_login : Text → Text → Outside → Authd → Text × Authd
  request_login f1 f2 out s = if verify f1 f2 s then login_acct (find f1 s) out s else (refusal, s)

  -- The second try of AUTH_CHANGEPW, for whoever asks once an administrator has logged in.
  abbrev pub admin_change : Text → Text → Outside → Bool × Authd → Text × Authd
  admin_change f1 f3 out (true, s) = (consent, s)
  admin_change f1 f3 out (false, s) =
      if s.admin_authed then answer_of (rehash (find f1 s) f3 out.next_salt s) else (refusal, s)

  abbrev pub request_changepw : Text → Text → Text → Outside → Authd → Text × Authd
  request_changepw f1 f2 f3 out s =
      if ltb (length f3) 4
      then (refusal, s)
      else admin_change f1 f3 out (change_password f1 f2 f3 out.salt s)

  abbrev pub request_create_user : Text → Text → Outside → Authd → Text × Authd
  request_create_user f1 f2 out s =
      if not s.admin_authed || ltb (length f1) 3 || ltb (length f2) 4
      then (refusal, s)
      else answer_of (create f1 f2 cap_user_default false out.salt s)

  -- The requests with fields.
  abbrev pub serve_fields : ℕ → Text × Text × Text → Outside → Authd → Text × Authd
  serve_fields type (f1, f2, f3) out s =
      if type == auth_create_type
      then request_create f1 f2 out s
      else if type == auth_login_type
      then request_login f1 f2 out s
      else if type == auth_delete_type
      then delete_acct (find f1 s) s
      else if type == auth_changepw_type
      then request_changepw f1 f2 f3 out s
      else if type == auth_create_user_type
      then request_create_user f1 f2 out s
      else (b'?' ∷ [], s)

  pub authd_handler : ℕ → List ℕ → Outside → Authd → Text × Authd
  authd_handler type req out s =
      if type == ping_type
      then (b'p' ∷ b'o' ∷ b'n' ∷ b'g' ∷ [], s)
      else if type == auth_count_type
      then (dec_str (length s.accts), s)
      else if type == auth_list_type
      then (list_text s.accts, s)
      else serve_fields type (fields req) out s

  -- The loop of `spud_svc_serve` over the requests that come.
  abbrev pub serve : List Request → Authd → Authd
  serve [] s = s
  serve (r ∷ rs) s = serve rs (authd_handler r.type r.bytes r.out s).1
