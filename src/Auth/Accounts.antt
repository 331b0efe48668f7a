-- ===== src/Auth/Accounts.antt =====
-- A user that kernel/auth.c creates can log in, and the other users are as before.
use siathos.Prelude.{
  ℕ, ◌-◌, ◌<◌, ◌≡◌, ◌≢◌, inl, inr, refl, sym, ap, subst, ◌∙◌, Bool, true, false, ◌||◌, none, some,
  List, [], ◌∷◌, ◌++◌, leb, if◌then◌else◌, length, take, Text, same, same_refl, same_ne, find_slot,
  arith, Bool-cases, Option-cases,
}
use siathos.Fs.Lookup.{take_all}
use siathos.Auth.{
  Account, Auth, auth_name_max, user_max, is_named, is_user, auth_find, is_taken, new_account,
  auth_create_user, verify_at, auth_verify,
}

-- A search that finds no account of a name goes on to the account behind.
find_slot-new :
    (name : Text) (us : List Account) (n : Account)
    → find_slot (is_named name) us ≡ none
    → is_user name n ≡ true
    → find_slot (is_user name) (us ++ (n ∷ [])) ≡ some (length us, n)
find_slot-new name [] n e on = rw on refl
find_slot-new name (u ∷ us) n e on = elim (Bool-cases (is_named name u)) [
  | inl bad ↦ absurd (ground (arith, bad, e))
  | inr off ↦
      let rest : find_slot (is_named name) us ≡ none = ground (arith, off, e) in
      ground (arith, off, find_slot-new name us n rest on)
]

find_slot-old :
    (other : Text) (us : List Account) (n : Account)
    → is_user other n ≡ false
    → find_slot (is_user other) (us ++ (n ∷ [])) ≡ find_slot (is_user other) us
find_slot-old other [] n off = rw off refl
find_slot-old other (u ∷ us) n off = ground (arith, find_slot-old other us n off)

module _ (hash : Text → Text → Text) where
  created-verify :
      (name password : Text) (caps : ℕ) (admin : Bool) (salt : Text) (s : Auth)
      → length name < auth_name_max
      → find_slot (is_named name) s.accounts ≡ none
      → let u = record s {
        accounts = s.accounts ++ (new_account hash name password caps admin salt ∷ []);
      } in
        (auth_verify hash name password u ≡ true)
        × ((other pw : Text)
            → other ≢ name
            → auth_verify hash other pw u ≡ auth_verify hash other pw s)
  unfolding auth_verify auth_find
  created-verify name password caps admin salt s short free = (
    ap (λ o. verify_at hash o password)
          (find_slot-new name s.accounts n free (ap (λ p. same p name) whole ∙ same_refl name))
        ∙ same_refl (hash password salt),
    λ other pw ne.
        ap (λ o. verify_at hash o pw)
          (find_slot-old other s.accounts n
            (ap (λ p. same p other) whole ∙ same_ne name other (λ e. ne (sym e)))),
  )
    where
      n : Account
      n = new_account hash name password caps admin salt

      whole : take (auth_name_max - 1) name ≡ name
      whole = take_all (auth_name_max - 1) name (omega arith)

  -- Whatever the hash: after `auth_create_user` of a name shorter than 32 bytes succeeds, `auth_verify` accepts the name
  -- with its password, and answers for every other name as before.
  pub auth_create_user-auth_verify :
      (name password : Text) (caps : ℕ) (admin : Bool) (salt : Text) (s : Auth)
      → length name < auth_name_max
      → (auth_create_user hash name password caps admin salt s).0 ≡ true
      → let u = (auth_create_user hash name password caps admin salt s).1 in
        (auth_verify hash name password u ≡ true)
        × ((other pw : Text)
            → other ≢ name
            → auth_verify hash other pw u ≡ auth_verify hash other pw s)
  unfolding auth_create_user
  auth_create_user-auth_verify name password caps admin salt s short ok =
      elim (Bool-cases
        (leb user_max (length s.accounts) || is_taken (find_slot (is_named name) s.accounts))) [
          | inl bad ↦ absurd (
              ground (
                arith,
                sym ok
                    ∙ ap (λ (r : Bool × Auth). r.0)
                        (ap (λ b. if b then (false, s) else (true, made)) bad),
              ))
          | inr fine ↦
              subst
                (λ (r : Bool × Auth).
                  (auth_verify hash name password r.1 ≡ true)
                  × ((other pw : Text)
                      → other ≢ name
                      → auth_verify hash other pw r.1 ≡ auth_verify hash other pw s))
                (sym (ap (λ b. if b then (false, s) else (true, made)) fine))
                (created-verify name password caps admin salt s short (free fine))
        ]
    where
      made : Auth
      made = record s {
        accounts = s.accounts ++ (new_account hash name password caps admin salt ∷ []);
      }

      free :
          (leb user_max (length s.accounts) || is_taken (find_slot (is_named name) s.accounts))
            ≡ false
          → find_slot (is_named name) s.accounts ≡ none
      free fine = elim (Option-cases (find_slot (is_named name) s.accounts)) [
        | inl e ↦ e
        | inr (a, e) ↦ absurd (ground (arith, fine, ap is_taken e))
      ]
