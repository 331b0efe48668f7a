-- ===== src/Authd/Owned.antt =====
-- Who holds which rights in the accounts of userspace/authd/authd.c, whatever requests come.
use siathos.Prelude.{
  ℕ, zero, suc, ◌≡◌, refl, sym, ap, ◌∙◌, Bool, true, false, not, ◌||◌, Option, none, some, List, [],
  ◌∷◌, ◌++◌, length, get_elem?, modify, ltb, leb, ◌==◌, if◌then◌else◌, All, All-append, Text, arith,
}
use siathos.Authd.{
  Acct, Authd, Outside, cap_api_all, cap_user_default, auth_max, find, is_found, is_empty,
  authd_hash, new_acct, create, verify, change_password, with_hash, rehash, issue_ticket,
  login_acct, delete_acct, admin_change, answer_of, refusal, consent,
}

-- An account other than the first: no administrator, with a user's rights.
abbrev pub IsCommon : Acct → Type 0
IsCommon u = (u.is_admin ≡ false) × (u.caps ≡ cap_user_default)

-- The first account is the active administrator with all rights, and the only one; without an
-- account, `admin_authed` is not set.
abbrev pub AreOwned : List Acct → Bool → Type 0
AreOwned [] authed = authed ≡ false
AreOwned (u ∷ us) authed =
    (u.is_admin ≡ true) × (u.active ≡ true) × (u.caps ≡ cap_api_all) × All (λ a. IsCommon a) us

abbrev pub IsOwned : Authd → Type 0
IsOwned s = AreOwned s.accts s.admin_authed

pub either {ℓ} :
    {A : Type ℓ} (b : Bool) (x y : A × Authd)
    → (b ≡ true → IsOwned x.1)
    → (b ≡ false → IsOwned y.1)
    → IsOwned (if b then x else y).1
either true x y f g = f refl
either false x y f g = g refl

module _ (f : Acct → Acct) (kept : (u : Acct) → IsCommon u → IsCommon (f u)) where
  modify-AreCommon :
      (us : List Acct) (i : ℕ) → All (λ a. IsCommon a) us → All (λ a. IsCommon a) (modify us i f)
  modify-AreCommon [] i all = tt
  modify-AreCommon (u ∷ us) zero (c, all) = (kept u c, all)
  modify-AreCommon (u ∷ us) (suc i) (c, all) = (c, modify-AreCommon us i all)

module _ (hash : Text → Text → Text) where
  rehash-AreOwned :
      (us : List Acct) (i : ℕ) (password salt : Text) (authed : Bool)
      → AreOwned us authed
      → AreOwned (modify us i (with_hash hash password salt)) authed
  rehash-AreOwned [] i password salt authed own = own
  rehash-AreOwned (u ∷ us) zero password salt authed own = own
  rehash-AreOwned (u ∷ us) (suc i) password salt authed (admin, on, caps, all) =
      (admin, on, caps, modify-AreCommon (with_hash hash password salt) (λ v c. c) us i all)

  rehash-IsOwned :
      (o : Option (ℕ × Acct)) (password salt : Text) (s : Authd)
      → IsOwned s
      → IsOwned (rehash hash o password salt s).1
  rehash-IsOwned none password salt s own = own
  rehash-IsOwned (some (i, a)) password salt s own =
      rehash-AreOwned s.accts i password salt s.admin_authed own

  pub change_password-IsOwned :
      (name old new salt : Text) (s : Authd)
      → IsOwned s
      → IsOwned (change_password hash name old new salt s).1
  unfolding change_password
  change_password-IsOwned name old new salt s own =
      either (ltb (length new) 4 || not (verify hash name old s)) (false, s)
        (rehash hash (find name s) new salt s) (λ b. own)
        (λ g. rehash-IsOwned (find name s) new salt s own)

  pub admin_change-IsOwned :
      (f1 f3 : Text) (out : Outside) (r : Bool × Authd)
      → IsOwned r.1
      → IsOwned (admin_change hash f1 f3 out r).1
  admin_change-IsOwned f1 f3 out (true, s) own = own
  admin_change-IsOwned f1 f3 out (false, s) own =
      either s.admin_authed (answer_of (rehash hash (find f1 s) f3 out.next_salt s)) (refusal, s)
        (λ on. rehash-IsOwned (find f1 s) f3 out.next_salt s own) (λ off. own)

  pub create-IsOwned :
      (name password salt : Text) (caps : ℕ) (admin : Bool) (s : Authd)
      → AreOwned (s.accts ++ (new_acct hash name password caps admin salt ∷ [])) s.admin_authed
      → IsOwned s
      → IsOwned (create hash name password caps admin salt s).1
  unfolding create
  create-IsOwned name password salt caps admin s grown own =
      either (leb auth_max (length s.accts) || is_found (find name s)) (false, s) made (λ b. own)
        (λ g.
          either (is_empty (authd_hash hash password salt)) (false, s) (true, after) (λ b. own)
            (λ h. grown))
    where
      after : Authd
      after = record s { accts = s.accts ++ (new_acct hash name password caps admin salt ∷ []) }

      made : Bool × Authd
      made = if is_empty (authd_hash hash password salt) then (false, s) else (true, after)

pub first-AreOwned :
    (us : List Acct) (u : Acct) (authed : Bool)
    → (length us == 0) ≡ true
    → AreOwned (u ∷ []) authed
    → AreOwned (us ++ (u ∷ [])) authed
first-AreOwned [] u authed e own = own
first-AreOwned (x ∷ xs) u authed e own = absurd (ground (arith, e))

pub more-AreOwned :
    (us : List Acct) (u : Acct) (authed : Bool)
    → authed ≡ true
    → IsCommon u
    → AreOwned us authed
    → AreOwned (us ++ (u ∷ [])) authed
more-AreOwned [] u authed on c own = absurd (ground (arith, on, own))
more-AreOwned (x ∷ xs) u authed on c (admin, active, caps, all) =
    (admin, active, caps, All-append (λ a. IsCommon a) xs (u ∷ []) all (c, tt))

login-AreOwned :
    (us : List Acct) (i : ℕ) (u : Acct) (old new : Bool)
    → get_elem? us i ≡ some u
    → AreOwned us old
    → AreOwned us new
login-AreOwned [] i u old new at own = absurd (ground (arith, at))
login-AreOwned (x ∷ xs) i u old new at own = own

abbrev admin_of : Option Acct → Bool
admin_of none = false
admin_of (some u) = u.is_admin

delete-AreOwned :
    (us : List Acct) (i : ℕ) (u : Acct) (authed : Bool)
    → get_elem? us i ≡ some u
    → u.is_admin ≡ false
    → AreOwned us authed
    → AreOwned (modify us i (λ a. record a { active = false })) authed
delete-AreOwned [] i u authed at common own = own
delete-AreOwned (x ∷ xs) zero u authed at common (admin, on, caps, all) =
    absurd (ground (arith, sym admin ∙ (ap (λ (o : Option Acct). admin_of o) at ∙ common)))
delete-AreOwned (x ∷ xs) (suc i) u authed at common (admin, on, caps, all) =
    (admin, on, caps, modify-AreCommon (λ a. record a { active = false }) (λ v c. c) xs i all)

pub login_acct-IsOwned :
    (o : Option (ℕ × Acct)) (out : Outside) (s : Authd)
    → ((i : ℕ) (u : Acct) → o ≡ some (i, u) → get_elem? s.accts i ≡ some u)
    → IsOwned s
    → IsOwned (login_acct o out s).1
login_acct-IsOwned none out s at own = own
login_acct-IsOwned (some (i, u)) out s at own = ticket (out.issue u.name u.caps)
  where
    ticket : (t : Option ℕ) → IsOwned (issue_ticket t u.is_admin s).1
    ticket none = own
    ticket (some tok) =
        login-AreOwned s.accts i u s.admin_authed (u.is_admin || s.admin_authed) (at i u refl) own

pub delete_acct-IsOwned :
    (o : Option (ℕ × Acct)) (s : Authd)
    → ((i : ℕ) (u : Acct) → o ≡ some (i, u) → get_elem? s.accts i ≡ some u)
    → IsOwned s
    → IsOwned (delete_acct o s).1
delete_acct-IsOwned none s at own = own
delete_acct-IsOwned (some (i, u)) s at own =
    either (u.is_admin || not s.admin_authed) (refusal, s)
      (consent, record s { accts = modify s.accts i (λ a. record a { active = false }) }) (λ b. own)
      (λ fine.
        delete-AreOwned s.accts i u s.admin_authed (at i u refl) (common u.is_admin fine) own)
  where
    common : (b : Bool) → (b || not s.admin_authed) ≡ false → b ≡ false
    common b e = ground (arith, e)
