-- ===== src/Svc/Registry.antt =====
-- A service that is registered is found, as long as its process lives, in kernel/svc.c.
use siathos.Prelude.{
  ℕ, zero, suc, ◌≤◌, ◌≡◌, ◌≢◌, ◌⊎◌, inl, inr, refl, ap, ◌∙◌, true, false, Option, none, some, List,
  [], ◌∷◌, take, length, Text, same, same_refl, arith, find_slot, find_slot-modify_new,
  find_slot-modify_found, find_slot-get,
}
use siathos.Proc.{Process, proc_get}
use siathos.Fs.Lookup.{take_all}
use siathos.Svc.{
  Entry, Svc, svc_name_max, Registered, registered, offers, is_vacant, register_new, register_over,
  svc_register, is_alive, query_round, query_scan, svc_query,
}

-- The scan stops at the first entry of the name whose process lives, if it is the first of the name.
query_scan-first :
    (name : Text) (ps : List Process) (es : List Entry) (i : ℕ) (e : Entry)
    → find_slot (offers name) es ≡ some (i, e)
    → is_alive (proc_get ps e.pid) ≡ true
    → query_scan name ps es ≡ (some e.pid, (es, 0))
unfolding query_scan
query_scan-first name ps [] i e f alive = absurd (ground arith)
query_scan-first name ps (x ∷ es) zero e f alive =
    let on : (offers name x ≡ true) × (x ≡ e) = ground (arith, f) in
    ap (λ b. query_round b (is_alive (proc_get ps x.pid)) x es (query_scan name ps es)) on.0
    ∙ ap (λ b. query_round true b x es (query_scan name ps es))
        (ap (λ (y : Entry). is_alive (proc_get ps y.pid)) on.1 ∙ alive)
    ∙ ap (λ (n : ℕ). (some n, (x ∷ es, 0))) (ap (λ (y : Entry). y.pid) on.1)
query_scan-first name ps (x ∷ es) (suc i) e f alive =
    let off : (offers name x ≡ false) × (find_slot (offers name) es ≡ some (i, e)) =
      ground (arith, f) in
    ap (λ b. query_round b (is_alive (proc_get ps x.pid)) x es (query_scan name ps es)) off.0
    ∙ ap (λ r. query_round false (is_alive (proc_get ps x.pid)) x es r)
        (query_scan-first name ps es i e off.1 alive)

-- The first entry of a name, after the name was registered.
abbrev Offered : Text → ℕ → Registered × Svc → Type 0
Offered name pid r =
    (r.0 ≢ registered)
    ⊎ ((i : ℕ) × (e : Entry) × (find_slot (offers name) r.1.entries ≡ some (i, e)) × (e.pid ≡ pid))

register_new-Offered :
    (o : Option (ℕ × Entry)) (name : Text) (pid : ℕ) (s : Svc)
    → find_slot is_vacant s.entries ≡ o
    → find_slot (offers name) s.entries ≡ none
    → length name ≤ svc_name_max
    → Offered name pid (register_new o name pid s)
register_new-Offered none name pid s at missing short = inl (λ e. ground (arith, e))
register_new-Offered (some (i, e)) name pid s at missing short = inr (
  i,
  record { name = take svc_name_max name; pid = pid; active = true },
  find_slot-modify_new (offers name) s.entries i e
      (λ _. record { name = take svc_name_max name; pid = pid; active = true }) missing
      (find_slot-get is_vacant s.entries i e at).0
      (ap (λ n. same n name) (take_all svc_name_max name short) ∙ same_refl name),
  refl,
)

register_over-Offered :
    (o : Option (ℕ × Entry)) (name : Text) (pid : ℕ) (s : Svc)
    → find_slot (offers name) s.entries ≡ o
    → length name ≤ svc_name_max
    → Offered name pid (register_over o name pid s)
register_over-Offered none name pid s at short =
    register_new-Offered (find_slot is_vacant s.entries) name pid s refl at short
register_over-Offered (some (i, e)) name pid s at short = inr (
  i,
  record e { pid = pid },
  find_slot-modify_found (offers name) s.entries i e (λ x. record x { pid = pid }) at
      (find_slot-get (offers name) s.entries i e at).1,
  refl,
)

-- After a process registers a name of 1 to 31 bytes with success, `svc_query` of the name gives its
-- pid, as long as that process is in the table and has not ended.
pub svc_query-svc_register :
    (c : ℕ) (cs : Text) (me : Process) (ps : List Process) (s : Svc)
    → length (c ∷ cs) ≤ svc_name_max
    → (svc_register (c ∷ cs) (some me) s).0 ≡ registered
    → is_alive (proc_get ps me.pid) ≡ true
    → (svc_query (c ∷ cs) ps (svc_register (c ∷ cs) (some me) s).1).0 ≡ some me.pid
unfolding svc_register svc_query
svc_query-svc_register c cs me ps s short ok alive =
    elim (register_over-Offered (find_slot (offers (c ∷ cs)) s.entries) (c ∷ cs) me.pid s refl
      short) [
        | inl bad ↦ absurd (bad ok)
        | inr (i, e, found, mine) ↦
            ap (λ r. r.0)
              (query_scan-first (c ∷ cs) ps (svc_register (c ∷ cs) (some me) s).1.entries i e found
                (ap (λ (n : ℕ). is_alive (proc_get ps n)) mine ∙ alive))
            ∙ ap some mine
      ]
