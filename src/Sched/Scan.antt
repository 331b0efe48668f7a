-- ===== src/Sched/Scan.antt =====
-- `next_ready_from` finds the first ready slot in cyclic order.
use siathos.Prelude.{
  ℕ, zero, suc, ◌+◌, ◌-◌, ◌%◌, ◌≤◌, ◌<◌, ◌≡◌, inl, inr, true, false, none, some, List, arith,
  Bool-cases, get_elem?, ℕ_discrete,
}
use siathos.Proc.{Process, max_procs, ready}
use siathos.Sched.{slot_ready, ready_scan, next_ready_from}

-- `i` is the first ready slot at or after `start`, `c` places on.
pub record FirstReady (ps : List Process) (start c i : ℕ) : Type 0 where
  pub near : c < max_procs
  pub place : i ≡ (start + c) % max_procs
  pub is_on : slot_ready ps i ≡ true
  pub skips : (d : ℕ) → d < c → slot_ready ps ((start + d) % max_procs) ≡ false

scan-some :
    (ps : List Process) (start c n i : ℕ)
    → c + n ≤ max_procs
    → ((d : ℕ) → d < c → slot_ready ps ((start + d) % max_procs) ≡ false)
    → ready_scan ps start c n ≡ some i
    → (k : ℕ) × FirstReady ps start k i
unfolding ready_scan
scan-some ps start c zero i h skip e = absurd (ground arith)
scan-some ps start c (suc n) i h skip e =
    elim (Bool-cases (slot_ready ps ((start + c) % max_procs))) [
      | inl on ↦
          let same : (start + c) % max_procs ≡ i = ground arith in
          (
            c,
            record { near = omega arith; place = omega arith; is_on = rw same at on; skips = skip },
          )
      | inr off ↦
          scan-some ps start (c + 1) n i (omega arith)
            (λ d lt. elim (ℕ_discrete d c) [
              | yes same ↦ rw same off
              | no other ↦ skip d (omega arith)
            ])
            (ground arith)
    ]

scan-none :
    (ps : List Process) (start c n : ℕ)
    → ready_scan ps start c n ≡ none
    → (d : ℕ) → c ≤ d
    → d < c + n
    → slot_ready ps ((start + d) % max_procs) ≡ false
unfolding ready_scan
scan-none ps start c zero e d lo hi = absurd (omega arith)
scan-none ps start c (suc n) e d lo hi = elim (ℕ_discrete c d) [
  | yes same ↦ rw (← same) (ground arith)
  | no other ↦ scan-none ps start (c + 1) n (ground arith) d (omega arith) (omega arith)
]

pub next_ready-some :
    (ps : List Process) (start i : ℕ)
    → next_ready_from ps start ≡ some i
    → (k : ℕ) × FirstReady ps start k i
unfolding next_ready_from
next_ready-some ps start i e =
    scan-some ps start 0 max_procs i (omega arith) (λ d lt. absurd (omega arith)) e

pub next_ready-none :
    (ps : List Process) (start i : ℕ)
    → next_ready_from ps start ≡ none
    → i < max_procs
    → slot_ready ps i ≡ false
unfolding next_ready_from
next_ready-none ps start i e lt =
    let d = (i + 64 - start % 64) % 64 in
    let at : (start + d) % max_procs ≡ i = omega arith in
    rw at at (scan-none ps start 0 max_procs e d (omega arith) (omega arith))

pub slot_ready-some :
    (ps : List Process) (i : ℕ)
    → slot_ready ps i ≡ true
    → (p : Process) × (get_elem? ps i ≡ some p) × (p.present ≡ true) × (p.state ≡ ready)
slot_ready-some ps i e = ground arith
