-- ===== src/Authd/Texts.antt =====
-- Texts of userspace/authd/authd.c: numbers, the fields of a request, the listing; and the packing
-- of a request in userspace/spud.h.
use siathos.Prelude.{
  ℕ, zero, suc, ◌+◌, ◌-◌, ◌/◌, ◌%◌, Bool, not, List, [], ◌∷◌, ◌++◌, length, take, ltb, ◌==◌,
  if◌then◌else◌, Text,
}

-- `acct_t`
pub record Acct : Type 0 where
  pub name : Text
  pub hash : Text
  pub salt : Text
  pub caps : ℕ
  pub active : Bool
  pub is_admin : Bool

-- The loop of `dec_str` over the digits of `v`, the last one first.
abbrev pub digits : ℕ → ℕ → Text → Text
digits zero v out = out
digits (suc left) v out =
    let more = digits left (v / 10) ((b'0' + v % 10) ∷ out) in if v == 0 then out else more

abbrev pub dec_str : ℕ → Text
dec_str v = if v == 0 then b'0' ∷ [] else digits 15 v []

-- One field: the text copied before the terminator or the last byte of the room, and what is left.
abbrev pub copy_field : ℕ → List ℕ → Text × List ℕ
copy_field room [] = ([], [])
copy_field zero (c ∷ cs) = ([], c ∷ cs)
copy_field (suc room) (c ∷ cs) =
    let rest = copy_field room cs in if c == 0 then ([], c ∷ cs) else (c ∷ rest.0, rest.1)

-- `if(*p) p++`
abbrev pub skip_one : List ℕ → List ℕ
skip_one [] = []
skip_one (c ∷ cs) = if c == 0 then c ∷ cs else cs

unfoldable pub fields : List ℕ → Text × Text × Text
fields req =
    let a = copy_field 31 req in
    let b = copy_field 63 (skip_one a.1) in let c = copy_field 63 (skip_one b.1) in (a.0, b.0, c.0)

-- The lines of the listing.
abbrev pub soberano : Text
soberano = b' ' ∷ b'(' ∷ b's' ∷ b'o' ∷ b'b' ∷ b'e' ∷ b'r' ∷ b'a' ∷ b'n' ∷ b'o' ∷ b')' ∷ 10 ∷ []

abbrev pub voluntario : Text
voluntario =
    b' ' ∷ b'(' ∷ b'v' ∷ b'o' ∷ b'l' ∷ b'u' ∷ b'n' ∷ b't' ∷ b'a' ∷ b'r' ∷ b'i' ∷ b'o' ∷ b')' ∷ 10
    ∷ []

abbrev pub line_of : Acct → Text
line_of u = take 95 (b' ' ∷ b' ' ∷ (u.name ++ (if u.is_admin then soberano else voluntario)))

abbrev pub list_loop : ℕ → List Acct → Text → Text
list_loop room [] out = out
list_loop room (u ∷ us) out =
    let kept = list_loop room us out in
    let added = list_loop room us (out ++ line_of u) in
    if not u.active
    then kept
    else if ltb (length out + length (line_of u)) room
    then added
    else kept

abbrev pub no_users : Text
no_users =
    b'(' ∷ b'n' ∷ b'e' ∷ b'n' ∷ b'h' ∷ b'u' ∷ b'm' ∷ b' ' ∷ b'u' ∷ b's' ∷ b'u' ∷ b'a' ∷ b'r' ∷ b'i'
    ∷ b'o' ∷ b')' ∷ 10 ∷ []

abbrev pub list_text : List Acct → Text
list_text [] = no_users
list_text (u ∷ us) = list_loop 4096 (u ∷ us) []

-- The loop of `spud_auth_pack` from one field on; `room` is `req_max-1-n`.
unfoldable pub spud_auth_pack : ℕ → List Text → List ℕ
spud_auth_pack room [] = []
spud_auth_pack room (f ∷ fs) =
    let rest = spud_auth_pack (room - length f - 1) fs in
    take room f ++ (if ltb (length f) room then 0 ∷ rest else [])
