-- ===== src/Auth/Sovereign.antt =====
-- An administrator's account of kernel/auth.c under the operations on accounts and tickets.
use siathos.Prelude.{
  ℕ, zero, suc, ◌≡◌, inl, inr, refl, sym, ap, subst, ◌∙◌, Bool, true, false, ◌||◌, Option, none,
  some, List, [], ◌∷◌, ◌++◌, leb, length, get_elem?, get_elem?-modify_self, get_elem?-modify_ne,
  ℕ_discrete, find_slot, find_slot-get, Text, arith, Bool-cases,
}
use siathos.Auth.{
  Account, Auth, user_max, is_named, is_user, auth_find, is_taken, auth_create_user, delete_at,
  auth_user_delete, auth_verify, with_password, set_password, auth_change_password_admin,
  auth_change_password, auth_ticket_issue, auth_ticket_consume, consume_at, opens, Ticket,
}

-- Slot `i` is the active account of the administrator `name`.
pub record IsSovereign (i : ℕ) (name : Text) (s : Auth) : Type 0 where
  pub who : Account
  pub there : get_elem? s.accounts i ≡ some who
  pub on : who.active ≡ true
  pub admin : who.is_admin ≡ true
  pub called : who.name ≡ name

get_elem?-append :
    (xs ys : List Account) (i : ℕ) (a : Account)
    → get_elem? xs i ≡ some a
    → get_elem? (xs ++ ys) i ≡ some a
get_elem?-append [] ys i a e = absurd (ground (arith, e))
get_elem?-append (x ∷ xs) ys zero a e = e
get_elem?-append (x ∷ xs) ys (suc i) a e = get_elem?-append xs ys i a e

pub auth_create_user-IsSovereign :
    (hash : Text → Text → Text) (i : ℕ) (who name pass salt : Text) (caps : ℕ) (admin : Bool)
    (s : Auth)
    → IsSovereign i who s
    → IsSovereign i who (auth_create_user hash name pass caps admin salt s).1
unfolding auth_create_user
auth_create_user-IsSovereign hash i who name pass salt caps admin s v =
    elim (Bool-cases
      (leb user_max (length s.accounts) || is_taken (find_slot (is_named name) s.accounts))) [
        | inl bad ↦ rw bad v
        | inr fine ↦ rw fine (record {
          who = v.who;
          there = get_elem?-append s.accounts _ i v.who v.there;
          on = v.on;
          admin = v.admin;
          called = v.called;
        })
      ]

set_password-IsSovereign :
    (hash : Text → Text → Text) (i : ℕ) (who new salt : Text) (o : Option (ℕ × Account)) (s : Auth)
    → IsSovereign i who s
    → IsSovereign i who (set_password hash o new salt s).1
set_password-IsSovereign hash i who new salt none s v = v
set_password-IsSovereign hash i who new salt (some (j, _)) s v = elim (ℕ_discrete j i) [
  | yes e ↦ record {
    who = with_password hash new salt v.who;
    there = rw e (get_elem?-modify_self s.accounts i (with_password hash new salt) v.there);
    on = v.on;
    admin = v.admin;
    called = v.called;
  }
  | no e ↦ record {
    who = v.who;
    there = get_elem?-modify_ne s.accounts j i (with_password hash new salt) e ∙ v.there;
    on = v.on;
    admin = v.admin;
    called = v.called;
  }
]

pub auth_change_password_admin-IsSovereign :
    (hash : Text → Text → Text) (i : ℕ) (who name new salt : Text) (s : Auth)
    → IsSovereign i who s
    → IsSovereign i who (auth_change_password_admin hash name new salt s).1
unfolding auth_change_password_admin
auth_change_password_admin-IsSovereign hash i who name new salt s v =
    set_password-IsSovereign hash i who new salt (auth_find name s) s v

pub auth_change_password-IsSovereign :
    (hash : Text → Text → Text) (i : ℕ) (who name old new salt : Text) (s : Auth)
    → IsSovereign i who s
    → IsSovereign i who (auth_change_password hash name old new salt s).1
unfolding auth_change_password
auth_change_password-IsSovereign hash i who name old new salt s v =
    elim (Bool-cases (auth_verify hash name old s)) [
      | inl ok ↦ rw ok (set_password-IsSovereign hash i who new salt (auth_find name s) s v)
      | inr bad ↦ rw bad v
    ]

delete_at-IsSovereign :
    (i : ℕ) (who : Text) (j : ℕ) (u : Account) (s : Auth)
    → get_elem? s.accounts j ≡ some u
    → u.is_admin ≡ false
    → IsSovereign i who s
    → IsSovereign i who (delete_at (some (j, u)) s).1
delete_at-IsSovereign i who j u s at plain v = elim (ℕ_discrete j i) [
  | yes e ↦ absurd (ground (arith, at, plain, v.there, v.admin, ap (get_elem? s.accounts) e))
  | no e ↦ record {
    who = v.who;
    there = get_elem?-modify_ne s.accounts j i (λ a. record a { active = false }) e ∙ v.there;
    on = v.on;
    admin = v.admin;
    called = v.called;
  }
]

-- Where the account found is no administrator's.
pub auth_user_delete-IsSovereign :
    (i : ℕ) (who name : Text) (j : ℕ) (u : Account) (s : Auth)
    → auth_find name s ≡ some (j, u)
    → u.is_admin ≡ false
    → IsSovereign i who s
    → IsSovereign i who (auth_user_delete name s).1
unfolding auth_user_delete auth_find
auth_user_delete-IsSovereign i who name j u s found plain v =
    subst (λ (o : Option (ℕ × Account)). IsSovereign i who (delete_at o s).1) (sym found)
      (delete_at-IsSovereign i who j u s (find_slot-get (is_user name) s.accounts j u found).0 plain
        v)

pub auth_ticket_issue-accounts :
    (name : Text) (caps tok : ℕ) (s : Auth)
    → (auth_ticket_issue name caps tok s).1.accounts ≡ s.accounts
unfolding auth_ticket_issue
auth_ticket_issue-accounts [] caps tok s = refl
auth_ticket_issue-accounts (c ∷ cs) caps tok s = ground arith

consume_at-accounts :
    (o : Option (ℕ × Ticket)) (name : Text) (s : Auth)
    → (consume_at o name s).1.accounts ≡ s.accounts
consume_at-accounts none name s = refl
consume_at-accounts (some (i, t)) name s = refl

pub auth_ticket_consume-accounts :
    (name : Text) (tok : ℕ) (s : Auth) → (auth_ticket_consume name tok s).1.accounts ≡ s.accounts
unfolding auth_ticket_consume
auth_ticket_consume-accounts name tok s =
    consume_at-accounts (find_slot (opens name tok) s.tickets) name s

-- The accounts are all that counts.
pub IsSovereign-accounts :
    (i : ℕ) (who : Text) (s t : Auth)
    → t.accounts ≡ s.accounts
    → IsSovereign i who s
    → IsSovereign i who t
IsSovereign-accounts i who s t e v = record {
  who = v.who;
  there = ap (λ (xs : List Account). get_elem? xs i) e ∙ v.there;
  on = v.on;
  admin = v.admin;
  called = v.called;
}
