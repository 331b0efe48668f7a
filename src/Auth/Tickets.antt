-- ===== src/Auth/Tickets.antt =====
-- A session ticket of kernel/auth.c opens one session.
use siathos.Prelude.{
  ℕ, ◌-◌, ◌<◌, ◌≡◌, ◌≢◌, inl, inr, refl, sym, ap, subst, ◌∙◌, Bool, true, false, not, ◌&&◌, none,
  some, List, [], ◌∷◌, ◌++◌, map, leb, ◌==◌, if◌then◌else◌, length, modify, Text, same, same_refl,
  find_slot, arith, Bool-cases,
}
use siathos.Fs.Lookup.{take_all}
use siathos.Auth.{
  Account, Ticket, Auth, auth_name_max, ticket_max, cap_all, expire, new_ticket, auth_ticket_issue,
  opens, ticket_user, consume_at, auth_ticket_consume,
}

-- After the expiry no old ticket of the name opens a session.
expired : (name : Text) (tok : ℕ) (t : Ticket) → opens name tok (expire name t) ≡ false
expired name tok t = elim (Bool-cases (not t.used && same t.name name)) [
  | inl on ↦ ap (λ b. opens name tok (if b then record t { used = true } else t)) on
  | inr off ↦
      ap (λ b. opens name tok (if b then record t { used = true } else t)) off ∙ ground (arith, off)
]

-- The search passes over the expired tickets to the new one.
find_slot-expired :
    (name : Text) (tok : ℕ) (ts : List Ticket) (n : Ticket)
    → find_slot (opens name tok) (map (expire name) ts ++ (n ∷ []))
      ≡ (if opens name tok n then some (length ts, n) else none)
find_slot-expired name tok [] n = elim (Bool-cases (opens name tok n)) [
  | inl on ↦ rw on refl
  | inr off ↦ rw off refl
]
find_slot-expired name tok (t ∷ ts) n = elim (Bool-cases (opens name tok n)) [
  | inl on ↦ ground (arith, on, expired name tok t, find_slot-expired name tok ts n)
  | inr off ↦ ground (arith, off, expired name tok t, find_slot-expired name tok ts n)
]

-- And once that one is used, nothing is left.
find_slot-spent :
    (name : Text) (tok : ℕ) (ts : List Ticket) (n : Ticket)
    → find_slot
        (opens name tok)
        (modify (map (expire name) ts ++ (n ∷ [])) (length ts) (λ x. record x { used = true }))
      ≡ none
find_slot-spent name tok [] n = refl
find_slot-spent name tok (t ∷ ts) n =
    ground (arith, expired name tok t, find_slot-spent name tok ts n)

-- What a ticket is worth, from its issue to its use.
pub record OpensOnce (name : Text) (caps tok : ℕ) (u : Auth) : Type 0 where
  pub account : Account
  pub first : (auth_ticket_consume name tok u).0 ≡ some account
  pub rights : account.caps ≡ caps
  pub sovereign : account.is_admin ≡ (caps == cap_all)
  pub spent :
      (other : ℕ) → (auth_ticket_consume name other (auth_ticket_consume name tok u).1).0 ≡ none
  pub guessed : (other : ℕ) → other ≢ tok → (auth_ticket_consume name other u).0 ≡ none

consume-none :
    (name : Text) (tok : ℕ) (s : Auth)
    → find_slot (opens name tok) s.tickets ≡ none
    → (auth_ticket_consume name tok s).0 ≡ none
unfolding auth_ticket_consume
consume-none name tok s e = ap (λ o. (consume_at o name s).0) e

issued-OpensOnce :
    (name : Text) (caps tok : ℕ) (s : Auth)
    → length name < auth_name_max
    → OpensOnce name caps tok
        (record s { tickets = map (expire name) s.tickets ++ (new_ticket name caps tok ∷ []) })
unfolding auth_ticket_consume
issued-OpensOnce name caps tok s short = record {
  account = ticket_user name n;
  first = ap (λ o. (consume_at o name u).0) found;
  rights = refl;
  sovereign = refl;
  spent = λ other. consume-none name other (auth_ticket_consume name tok u).1 (
      ap (λ o. find_slot (opens name other) (consume_at o name u).1.tickets) found
      ∙ find_slot-spent name other s.tickets n);
  guessed = λ other ne. consume-none name other u (
      find_slot-expired name other s.tickets n
      ∙ ap (λ b. if b then some (length s.tickets, n) else none) (shut other ne));
}
  where
    n : Ticket
    n = new_ticket name caps tok

    u : Auth
    u = record s { tickets = map (expire name) s.tickets ++ (n ∷ []) }

    named : same n.name name ≡ true
    named = ap (λ p. same p name) (take_all (auth_name_max - 1) name (omega arith)) ∙ same_refl name

    open_to : (other : ℕ) → tok ≡ other → opens name other n ≡ true
    open_to other e = ground (arith, named, e)

    found : find_slot (opens name tok) u.tickets ≡ some (length s.tickets, n)
    found =
        find_slot-expired name tok s.tickets n
        ∙ ap (λ b. if b then some (length s.tickets, n) else none) (open_to tok refl)

    shut : (other : ℕ) → other ≢ tok → opens name other n ≡ false
    shut other ne = ground (arith, named, ne)

-- A ticket that `auth_ticket_issue` gives for a name of 1 to 31 bytes opens one session: its token
-- gives an account with the rights of the ticket, which is a sovereign exactly if those are all
-- rights; after that no token opens a session for the name, and before that no other token does,
-- whatever tickets were issued earlier.
pub auth_ticket_issue-OpensOnce :
    (name : Text) (caps tok : ℕ) (s : Auth)
    → length name < auth_name_max
    → (auth_ticket_issue name caps tok s).0 ≡ true
    → OpensOnce name caps tok (auth_ticket_issue name caps tok s).1
unfolding auth_ticket_issue
auth_ticket_issue-OpensOnce [] caps tok s short ok = absurd (ground arith)
auth_ticket_issue-OpensOnce (c ∷ cs) caps tok s short ok =
    elim (Bool-cases (leb ticket_max (length s.tickets))) [
      | inl full ↦ absurd (
          ground (
            arith,
            sym ok
                ∙ ap (λ (r : Bool × Auth). r.0)
                    (ap (λ b. if b then (false, s) else (true, issued)) full),
          ))
      | inr free ↦
          subst (λ (r : Bool × Auth). OpensOnce (c ∷ cs) caps tok r.1)
            (sym (ap (λ b. if b then (false, s) else (true, issued)) free))
            (issued-OpensOnce (c ∷ cs) caps tok s short)
    ]
  where
    issued : Auth
    issued = record s {
      tickets = map (expire (c ∷ cs)) s.tickets ++ (new_ticket (c ∷ cs) caps tok ∷ []);
    }
