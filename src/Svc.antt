-- ===== src/Svc.antt =====
-- The service registry of kernel/svc.c: names of services and the processes that offer them.
-- Messages are left out.
pub mod Registry
mod Tests
use siathos.Prelude.{
  ℕ, zero, suc, ◌+◌, ◌-◌, Bool, true, false, not, ◌&&◌, ◌||◌, Option, none, some, List, [], ◌∷◌,
  map, if◌then◌else◌, take, modify, Text, same, find_slot,
}
use siathos.Proc.{Process, is_terminated, proc_get}

-- `svc_entry_t`
pub record Entry : Type 0 where
  pub name : Text
  pub pid : ℕ
  pub active : Bool

-- `svc_table` and `svc_count`.
pub record Svc : Type 0 where
  pub entries : List Entry
  pub count : ℕ

abbrev pub svc_name_max : ℕ
svc_name_max = 31

abbrev vacant : Entry
vacant = record { name = []; pid = 0; active = false }

pub svc_init : Svc → Svc
svc_init s = record { entries = map (λ e. vacant) s.entries; count = 0 }

-- The results 0, -1 and -2.
pub data Registered : Type 0 where
  registered no_name full : Registered

abbrev pub offers : Text → Entry → Bool
offers name e = e.active && same e.name name

abbrev pub is_vacant : Entry → Bool
is_vacant e = not e.active

abbrev pub register_new : Option (ℕ × Entry) → Text → ℕ → Svc → Registered × Svc
register_new none name pid s = (full, s)
register_new (some (i, _)) name pid s = (
  registered,
  record {
    entries =
        modify s.entries i
          (λ e. record { name = take svc_name_max name; pid = pid; active = true });
    count = s.count + 1;
  },
)

abbrev pub register_over : Option (ℕ × Entry) → Text → ℕ → Svc → Registered × Svc
register_over none name pid s = register_new (find_slot is_vacant s.entries) name pid s
register_over (some (i, _)) name pid s =
    (registered, record s { entries = modify s.entries i (λ e. record e { pid = pid }) })

-- `svc_register`, with the current process.
pub svc_register : Text → Option Process → Svc → Registered × Svc
svc_register [] me s = (no_name, s)
svc_register (c ∷ cs) none s = (no_name, s)
svc_register (c ∷ cs) (some me) s =
    register_over (find_slot (offers (c ∷ cs)) s.entries) (c ∷ cs) me.pid s

abbrev pub is_alive : Option (ℕ × Process) → Bool
is_alive none = false
is_alive (some (_, p)) = not (is_terminated p.state)

-- One round of the loop of `svc_query`, before what the further rounds give: the pid found, the
-- entries, and how many were emptied.
abbrev pub query_round :
    Bool → Bool → Entry → List Entry → Option ℕ × (List Entry × ℕ) → Option ℕ × (List Entry × ℕ)
query_round false alive e es r = (r.0, (e ∷ r.1.0, r.1.1))
query_round true true e es r = (some e.pid, (e ∷ es, 0))
query_round true false e es r = (r.0, (record e { active = false } ∷ r.1.0, r.1.1 + 1))

pub query_scan : Text → List Process → List Entry → Option ℕ × (List Entry × ℕ)
query_scan name ps [] = (none, ([], 0))
query_scan name ps (e ∷ es) =
    query_round (offers name e) (is_alive (proc_get ps e.pid)) e es (query_scan name ps es)

abbrev pub query_done : Option ℕ × (List Entry × ℕ) → Svc → Option ℕ × Svc
query_done r s = (r.0, record { entries = r.1.0; count = s.count - r.1.1 })

-- `svc_query`; `none` stands for -1 and -2.
pub svc_query : Text → List Process → Svc → Option ℕ × Svc
unfolding query_scan
svc_query [] ps s = (none, s)
svc_query (c ∷ cs) ps s = query_done (query_scan (c ∷ cs) ps s.entries) s
