-- ===== src/Authd/Packed.antt =====
-- Requests as userspace/spud.h packs them, and what userspace/authd/authd.c reads of them.
use siathos.Prelude.{
  ℕ, zero, suc, ◌-◌, ◌≤◌, ◌≡◌, ◌≢◌, refl, ap, ◌∙◌, Bool, true, false, not, ◌&&◌, ◌||◌, List, [],
  ◌∷◌, ◌++◌, length, take_all, ltb, ◌==◌, if◌then◌else◌, All, Text, arith,
}
use siathos.Authd.{
  Authd, Outside, copy_field, skip_one, fields, refusal, answer_of, cap_api_all, cap_user_default,
  create, request_login, auth_create_type, auth_login_type, auth_changepw_type,
  auth_create_user_type, serve_fields, authd_handler, spud_auth_pack,
}

-- The bytes behind a name's own terminator.
abbrev Ends : List ℕ → Type 0
Ends [] = Unit {0}
Ends (c ∷ cs) = c ≡ 0

copy_field_end : (room : ℕ) (rest : List ℕ) → Ends rest → copy_field room rest ≡ ([], rest)
copy_field_end zero [] end = refl
copy_field_end (suc room) [] end = refl
copy_field_end zero (c ∷ cs) end = refl
copy_field_end (suc room) (c ∷ cs) end =
    let null : (c == 0) ≡ true = ground (arith, end) in rw null refl

copy_field-append :
    (room : ℕ) (name rest : List ℕ)
    → All (λ c. c ≢ 0) name
    → length name ≤ room
    → Ends rest
    → copy_field room (name ++ rest) ≡ (name, rest)
copy_field-append room [] rest all le end = copy_field_end room rest end
copy_field-append zero (c ∷ name) rest all le end = absurd (omega (arith, le))
copy_field-append (suc room) (c ∷ name) rest (ne, all) le end =
    let some_byte : (c == 0) ≡ false = ground (arith, ne) in
    rw some_byte (
      ap (λ (q : Text × List ℕ). (c ∷ q.0, q.1))
        (copy_field-append room name rest all (omega (arith, le)) end))

skip_one_end : (rest : List ℕ) → Ends rest → skip_one rest ≡ rest
skip_one_end [] end = refl
skip_one_end (c ∷ cs) end = let null : (c == 0) ≡ true = ground (arith, end) in rw null refl

-- A terminator behind the first field hides the others.
fields-append :
    (name rest : List ℕ)
    → All (λ c. c ≢ 0) name
    → length name ≤ 31
    → Ends rest
    → fields (name ++ rest) ≡ (name, [], [])
unfolding fields
fields-append name rest all le end = rw (copy_field-append 31 name rest all le end) (
    rw (skip_one_end rest end) (
      rw (copy_field_end 63 rest end)
        (rw (skip_one_end rest end) (rw (copy_field_end 63 rest end) refl))))

fields-spud_auth_pack :
    (room : ℕ) (name : Text) (rest : List Text)
    → All (λ c. c ≢ 0) name
    → length name ≤ 31
    → length name ≤ room
    → fields (spud_auth_pack room (name ∷ rest)) ≡ (name, [], [])
unfolding spud_auth_pack
fields-spud_auth_pack room name rest all short fits =
    ap (λ t. fields (t ++ behind)) (take_all room name fits)
    ∙ fields-append name behind all short (ends (ltb (length name) room))
  where
    more : List ℕ
    more = spud_auth_pack (room - length name - 1) rest

    behind : List ℕ
    behind = if ltb (length name) room then 0 ∷ more else []

    ends : (b : Bool) → Ends (if b then 0 ∷ more else [])
    ends true = refl
    ends false = tt

-- Of a request that `spud_auth_pack` makes of a name of at most 31 bytes, which the buffer has room
-- for, and of whatever follows it, the service reads the name only: it refuses to create the first
-- account or another one and to change a password, and a login is tried with an empty password.
pub authd_handler-spud_auth_pack :
    (hash : Text → Text → Text) (room : ℕ) (name : Text) (rest : List Text) (out : Outside)
    (s : Authd)
    → All (λ c. c ≢ 0) name
    → length name ≤ 31
    → length name ≤ room
    → let req = spud_auth_pack room (name ∷ rest) in
      (authd_handler hash auth_create_type req out s ≡ (refusal, s))
      × (authd_handler hash auth_create_user_type req out s ≡ (refusal, s))
      × (authd_handler hash auth_changepw_type req out s ≡ (refusal, s))
      × (authd_handler hash auth_login_type req out s ≡ request_login hash name [] out s)
unfolding authd_handler
authd_handler-spud_auth_pack hash room name rest out s all short fits =
    let e = fields-spud_auth_pack room name rest all short fits in
    (
      ap (λ f. serve_fields hash auth_create_type f out s) e
          ∙ ap
              (λ b.
                if b
                then answer_of (create hash name [] cap_api_all true out.salt s)
                else (refusal, s))
              (never (length s.accts == 0) (ltb (length name) 3)),
      ap (λ f. serve_fields hash auth_create_user_type f out s) e
          ∙ ap
              (λ b.
                if b
                then (refusal, s)
                else answer_of (create hash name [] cap_user_default false out.salt s))
              (always (not s.admin_authed) (ltb (length name) 3)),
      ap (λ f. serve_fields hash auth_changepw_type f out s) e,
      ap (λ f. serve_fields hash auth_login_type f out s) e,
    )
  where
    always : (a b : Bool) → (a || b || true) ≡ true
    always true b = refl
    always false true = refl
    always false false = refl

    never : (a b : Bool) → (a && not (b || true)) ≡ false
    never true true = refl
    never true false = refl
    never false b = refl
