-- ===== src/Authd/Served.antt =====
-- All requests of userspace/authd/authd.c, one after the other.
use siathos.Prelude.{
  ℕ, ◌≡◌, refl, true, false, not, ◌&&◌, ◌||◌, some, List, [], ◌∷◌, length, get_elem?, ltb, ◌==◌,
  if◌then◌else◌, find_slot-get, Text, arith,
}
use siathos.Authd.{
  Request, serve, Acct, Authd, Outside, cap_api_all, cap_user_default, auth_create_type,
  auth_login_type, auth_delete_type, auth_changepw_type, auth_create_user_type, ping_type,
  auth_count_type, auth_list_type, fields, find, is_acct, create, verify, change_password,
  request_create, login_acct, request_login, delete_acct, admin_change, request_changepw,
  request_create_user, answer_of, refusal, dec_str, list_text, serve_fields, authd_handler,
}
use siathos.Authd.Owned.{
  IsOwned, either, change_password-IsOwned, admin_change-IsOwned, create-IsOwned, first-AreOwned,
  more-AreOwned, login_acct-IsOwned, delete_acct-IsOwned,
}

module _ (hash : Text → Text → Text) where
  serve_fields-IsOwned :
      (type : ℕ) (f : Text × Text × Text) (out : Outside) (s : Authd)
      → IsOwned s
      → IsOwned (serve_fields hash type f out s).1
  serve_fields-IsOwned type (f1, f2, f3) out s own =
      either (type == auth_create_type) (request_create hash f1 f2 out s) from_login (λ e. created)
        (λ e.
          either (type == auth_login_type) (request_login hash f1 f2 out s) from_delete
            (λ e. logged_in)
            (λ e.
              either (type == auth_delete_type) (delete_acct (find f1 s) s) from_change
                (λ e. deleted)
                (λ e.
                  either (type == auth_changepw_type) (request_changepw hash f1 f2 f3 out s)
                    from_user (λ e. changed)
                    (λ e.
                      either (type == auth_create_user_type) (request_create_user hash f1 f2 out s)
                        unknown (λ e. user_created) (λ e. own)))))
    where
      unknown : Text × Authd
      unknown = (b'?' ∷ [], s)

      from_user : Text × Authd
      from_user =
          if type == auth_create_user_type then request_create_user hash f1 f2 out s else unknown

      from_change : Text × Authd
      from_change =
          if type == auth_changepw_type then request_changepw hash f1 f2 f3 out s else from_user

      from_delete : Text × Authd
      from_delete = if type == auth_delete_type then delete_acct (find f1 s) s else from_change

      from_login : Text × Authd
      from_login = if type == auth_login_type then request_login hash f1 f2 out s else from_delete

      at : (i : ℕ) (u : Acct) → find f1 s ≡ some (i, u) → get_elem? s.accts i ≡ some u
      at i u e = (find_slot-get (is_acct f1) s.accts i u e).0

      created : IsOwned (request_create hash f1 f2 out s).1
      created =
          either (length s.accts == 0 && not (ltb (length f1) 3 || ltb (length f2) 4))
            (answer_of (create hash f1 f2 cap_api_all true out.salt s)) (refusal, s)
            (λ e.
              create-IsOwned hash f1 f2 out.salt cap_api_all true s
                (first-AreOwned s.accts _ s.admin_authed (ground (arith, e)) (refl, refl, refl, tt))
                own)
            (λ e. own)

      logged_in : IsOwned (request_login hash f1 f2 out s).1
      logged_in =
          either (verify hash f1 f2 s) (login_acct (find f1 s) out s) (refusal, s)
            (λ e. login_acct-IsOwned (find f1 s) out s at own) (λ e. own)

      deleted : IsOwned (delete_acct (find f1 s) s).1
      deleted = delete_acct-IsOwned (find f1 s) s at own

      changed : IsOwned (request_changepw hash f1 f2 f3 out s).1
      changed =
          either (ltb (length f3) 4) (refusal, s)
            (admin_change hash f1 f3 out (change_password hash f1 f2 f3 out.salt s)) (λ e. own)
            (λ e.
              admin_change-IsOwned hash f1 f3 out (change_password hash f1 f2 f3 out.salt s)
                (change_password-IsOwned hash f1 f2 f3 out.salt s own))

      user_created : IsOwned (request_create_user hash f1 f2 out s).1
      user_created =
          either (not s.admin_authed || ltb (length f1) 3 || ltb (length f2) 4) (refusal, s)
            (answer_of (create hash f1 f2 cap_user_default false out.salt s)) (λ e. own)
            (λ e.
              create-IsOwned hash f1 f2 out.salt cap_user_default false s
                (more-AreOwned s.accts _ s.admin_authed (ground (arith, e)) (refl, refl) own) own)

  authd_handler-IsOwned :
      (type : ℕ) (req : List ℕ) (out : Outside) (s : Authd)
      → IsOwned s
      → IsOwned (authd_handler hash type req out s).1
  unfolding authd_handler
  authd_handler-IsOwned type req out s own =
      either (type == ping_type) (pong, s) from_count (λ e. own)
        (λ e.
          either (type == auth_count_type) (dec_str (length s.accts), s) from_list (λ e. own)
            (λ e.
              either (type == auth_list_type) (list_text s.accts, s) from_fields (λ e. own)
                (λ e. serve_fields-IsOwned type (fields req) out s own)))
    where
      pong : Text
      pong = b'p' ∷ b'o' ∷ b'n' ∷ b'g' ∷ []

      from_fields : Text × Authd
      from_fields = serve_fields hash type (fields req) out s

      from_list : Text × Authd
      from_list = if type == auth_list_type then (list_text s.accts, s) else from_fields

      from_count : Text × Authd
      from_count = if type == auth_count_type then (dec_str (length s.accts), s) else from_list

  -- Whatever requests come from whomever: while there is an account, the first one is active, is the
  -- one administrator and has all rights, and every other account has the rights of a user; before
  -- there is one, no administrator counts as logged in.
  pub serve-IsOwned : (rs : List Request) (s : Authd) → IsOwned s → IsOwned (serve hash rs s)
  serve-IsOwned [] s own = own
  serve-IsOwned (r ∷ rs) s own =
      serve-IsOwned rs (authd_handler hash r.type r.bytes r.out s).1
        (authd_handler-IsOwned r.type r.bytes r.out s own)
