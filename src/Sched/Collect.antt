-- ===== src/Sched/Collect.antt =====
-- `proc_gc_run` empties the slots of ended processes, and only those.
use siathos.Prelude.{
  ℕ, zero, suc, ◌≡◌, ◌≢◌, refl, false, some, List, [], ◌∷◌, ◌++◌, arith, if◌then◌else◌, Bool-cases,
  inl, inr, get_elem?, length, ap, ◌∙◌, All, All-append,
}
use siathos.Proc.{Process}
use siathos.Sched.{
  Release, address_space, elf_releases, stack_release, space_release, releases, is_zombie,
  collected, gc, slot_ready,
}

pub gc-get :
    (active : ℕ) (ps : List Process) (j : ℕ) (q : Process)
    → get_elem? (gc active ps).0 j ≡ some q
    → (p : Process) × (get_elem? ps j ≡ some p)
      × (q ≡ (if is_zombie p then collected active p else p))
unfolding gc
gc-get active [] j q e = absurd (ground arith)
gc-get active (p ∷ ps) zero q e = (p, refl, ground arith)
gc-get active (p ∷ ps) (suc j) q e = elim (Bool-cases (is_zombie p)) [
  | inl z ↦ gc-get active ps j q (ground arith)
  | inr z ↦ gc-get active ps j q (ground arith)
]

pub get-gc :
    (active : ℕ) (ps : List Process) (j : ℕ) (p : Process)
    → get_elem? ps j ≡ some p
    → get_elem? (gc active ps).0 j ≡ some (if is_zombie p then collected active p else p)
unfolding gc
get-gc active [] j p e = absurd (ground arith)
get-gc active (x ∷ ps) zero p e = ground arith
get-gc active (x ∷ ps) (suc j) p e = ground (arith, get-gc active ps j p e)

pub length-gc : (active : ℕ) (ps : List Process) → length (gc active ps).0 ≡ length ps
unfolding gc
length-gc active [] = refl
length-gc active (p ∷ ps) = ground (arith, length-gc active ps)

pub slot_ready-gc :
    (active : ℕ) (ps : List Process) (j : ℕ) → slot_ready (gc active ps).0 j ≡ slot_ready ps j
unfolding gc
slot_ready-gc active [] j = refl
slot_ready-gc active (p ∷ ps) zero = ground arith
slot_ready-gc active (p ∷ ps) (suc j) = ground (arith, slot_ready-gc active ps j)

-- No address space is given back that is null or that the processor is using.
abbrev pub IsSpare : ℕ → Release → Type 0
IsSpare active (address_space c) = (c ≢ 0) × (c ≢ active)
IsSpare active _ = Unit

elf_releases-IsSpare : (active : ℕ) (rs : List (ℕ × ℕ)) → All (IsSpare active) (elf_releases rs)
unfolding elf_releases
elf_releases-IsSpare active [] = tt
elf_releases-IsSpare active ((base, n) ∷ rs) = ground (arith, elf_releases-IsSpare active rs)

releases-IsSpare : (active : ℕ) (p : Process) → All (IsSpare active) (releases active p)
unfolding releases
releases-IsSpare active p =
    All-append (IsSpare active) (stack_release p) (space_release active p ++ elf_releases p.elf)
      (ground arith)
      (All-append (IsSpare active) (space_release active p) (elf_releases p.elf) (ground arith)
        (elf_releases-IsSpare active p.elf))

gc-IsSpare : (active : ℕ) (ps : List Process) → All (IsSpare active) (gc active ps).1
unfolding gc
gc-IsSpare active [] = tt
gc-IsSpare active (p ∷ ps) = elim (Bool-cases (is_zombie p)) [
  | inl z ↦
      rw (z, gc)
        (All-append (IsSpare active) (releases active p) (gc active ps).1
          (releases-IsSpare active p) (gc-IsSpare active ps))
  | inr z ↦ rw (z, gc) (gc-IsSpare active ps)
]

gc-not_zombie :
    (active : ℕ) (ps : List Process) (j : ℕ) (q : Process)
    → get_elem? (gc active ps).0 j ≡ some q
    → is_zombie q ≡ false
gc-not_zombie active ps j q e =
    let (p, g, h) = gc-get active ps j q e in
    elim (Bool-cases (is_zombie p)) [
      | inl z ↦ ap is_zombie (h ∙ ap (λ b. if b then collected active p else p) z)
      | inr z ↦ ap is_zombie (h ∙ ap (λ b. if b then collected active p else p) z) ∙ z
    ]

-- `proc_gc_run` leaves no slot with an ended process, changes no other slot, and gives back no
-- address space that is null or that the processor is using.
pub gc-collects :
    (active : ℕ) (ps : List Process)
    → ((j : ℕ) (q : Process) → get_elem? (gc active ps).0 j ≡ some q → is_zombie q ≡ false)
      × ((j : ℕ) (p : Process)
          → get_elem? ps j ≡ some p
          → is_zombie p ≡ false
          → get_elem? (gc active ps).0 j ≡ some p)
      × All (IsSpare active) (gc active ps).1
gc-collects active ps = (
  gc-not_zombie active ps,
  λ j p g z. get-gc active ps j p g ∙ ap (λ b. some (if b then collected active p else p)) z,
  gc-IsSpare active ps,
)
