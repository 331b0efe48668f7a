-- ===== src/Paging/Levels.antt =====
-- Page tables of kernel/paging.c as a graph in which each table has a level, and what
-- `paging_ensure_table` does to it.
use siathos.Prelude.{
  ℕ, suc, ◌+◌, ◌-◌, ◌%◌, ◌^◌, ◌<◌, ◌≤◌, ◌≡◌, ◌≢◌, inl, inr, refl, sym, ap, subst, ◌∙◌, true, false,
  ◌&&◌, List, [], ◌∷◌, leb, ltb, ◌==◌, if◌then◌else◌, All, ℕ_discrete, arith, Bool-cases,
}
use siathos.Paging.{
  Memory, page_size, is_present, is_huge, addr_of, entry_at, store, clear_page, new_table,
  paging_ensure_table,
}

abbrev pub IsPage : ℕ → Type 0
IsPage p = (p % page_size ≡ 0) × (p ≢ 0) × (p < 2 ^ 52)

-- The pages that `pmm_alloc` gives are at level 0, whole, and each once.
abbrev pub AreFree : (ℕ → ℕ) → List ℕ → Type 0
AreFree level [] = Unit {0}
AreFree level (p ∷ ps) = IsPage p × (level p ≡ 0) × All (λ q. q ≢ p) ps × AreFree level ps

-- A present entry of a table of a level above 1, unless it maps a large page, points to a table of the
-- level below.
pub record IsLevelled (level : ℕ → ℕ) (s : Memory) : Type 0 where
  pub points :
      (t i : ℕ)
      → t % page_size ≡ 0
      → i < 512
      → 2 ≤ level t
      → is_present (s.mem (entry_at t i)) ≡ true
      → is_huge (s.mem (entry_at t i)) ≡ false
      → suc (level (addr_of (s.mem (entry_at t i)))) ≡ level t
  pub fresh : AreFree level s.pages

-- Entries of different tables, or of different places, are at different addresses.
pub entry_ne :
    (t i u j : ℕ)
    → t % page_size ≡ 0
    → u % page_size ≡ 0
    → i < 512
    → j < 512
    → t ≢ u
    → entry_at t i ≢ entry_at u j
entry_ne t i u j tp up il jl ne e = ne (omega (arith, tp, up, il, jl, e))

pub entry_outside :
    (t i p : ℕ)
    → t % page_size ≡ 0
    → p % page_size ≡ 0
    → i < 512
    → t ≢ p
    → (mem : ℕ → ℕ) → clear_page p mem (entry_at t i) ≡ mem (entry_at t i)
entry_outside t i p tp pp il ne mem =
    elim (Bool-cases (leb p (entry_at t i) && ltb (entry_at t i) (p + page_size))) [
      | inl on ↦ absurd (ne (ground (arith, on, tp, pp, il)))
      | inr off ↦ rw off refl
    ]

-- What a step down through the entry `i` of the table `t` to the table `r` leaves.
pub record Descends (level : ℕ → ℕ) (s : Memory) (t i r : ℕ) (after : Memory) : Type 0 where
  pub level' : ℕ → ℕ
  pub levels : IsLevelled level' after
  pub keeps : (u : ℕ) → 1 ≤ level u → level' u ≡ level u
  pub below : suc (level' r) ≡ level t
  pub page : IsPage r
  pub same :
      (u j : ℕ)
      → u % page_size ≡ 0
      → j < 512
      → 1 ≤ level u
      → u ≢ t
      → after.mem (entry_at u j) ≡ s.mem (entry_at u j)
  pub present : is_present (after.mem (entry_at t i)) ≡ true
  pub small : is_huge (after.mem (entry_at t i)) ≡ false
  pub leads : addr_of (after.mem (entry_at t i)) ≡ r

abbrev raised : ℕ → ℕ → (ℕ → ℕ) → ℕ → ℕ
raised p n level q = if q == p then n else level q

raised_ne : (p n : ℕ) (level : ℕ → ℕ) (q : ℕ) → q ≢ p → raised p n level q ≡ level q
raised_ne p n level q ne = ground (arith, ne)

raised_self : (p n : ℕ) (level : ℕ → ℕ) → raised p n level p ≡ n
raised_self p n level = ground arith

AreFree-raised :
    (level : ℕ → ℕ) (p n : ℕ) (ps : List ℕ)
    → All (λ q. q ≢ p) ps
    → AreFree level ps
    → AreFree (raised p n level) ps
AreFree-raised level p n [] ne f = tt
AreFree-raised level p n (q ∷ ps) (ne, more) (page, zero_level, others, f) =
    (page, raised_ne p n level q ne ∙ zero_level, others, AreFree-raised level p n ps more f)

-- The entry that a new table gets.
new_entry :
    (p : ℕ)
    → IsPage p
    → (is_present (addr_of p + 7) ≡ true)
      × (is_huge (addr_of p + 7) ≡ false)
      × (addr_of (addr_of p + 7) ≡ p)
new_entry p (al, ne, lt) =
    let whole : addr_of p ≡ p = omega (arith, al, lt) in
    (ground (arith, whole, al), ground (arith, whole, al), omega (arith, whole, al, lt))

-- The memory after a new table `p` stands at the entry `i` of `t`.
abbrev with_table : ℕ → ℕ → (ℕ → ℕ) → ℕ → ℕ
with_table p entry mem = store entry (addr_of p + 7) (clear_page p mem)

with_table_self : (p e : ℕ) (mem : ℕ → ℕ) → with_table p e mem e ≡ addr_of p + 7
with_table_self p e mem = ground arith

with_table_ne : (p e x : ℕ) (mem : ℕ → ℕ) → x ≢ e → with_table p e mem x ≡ clear_page p mem x
with_table_ne p e x mem ne = ground (arith, ne)

cleared_inside : (p i : ℕ) (mem : ℕ → ℕ) → i < 512 → clear_page p mem (entry_at p i) ≡ 0
cleared_inside p i mem lt = ground arith

module _ (level : ℕ → ℕ) (s : Memory) (t i n p : ℕ) (ps : List ℕ) (lv : IsLevelled level s)
    (at : level t ≡ suc n) (deep : 1 ≤ n) (al : t % page_size ≡ 0) (il : i < 512) (page : IsPage p)
    (free : level p ≡ 0) (others : All (λ q. q ≢ p) ps) (rest : AreFree level ps) where
  used_ne : (u : ℕ) → 1 ≤ level u → u ≢ p
  used_ne u pos e = absurd (omega (arith, ap level e, free, pos))

  abbrev after_new : Memory
  after_new = record { mem = with_table p (entry_at t i) s.mem; pages = ps }

  new_same :
      (u j : ℕ)
      → u % page_size ≡ 0
      → j < 512
      → u ≢ p
      → entry_at u j ≢ entry_at t i
      → with_table p (entry_at t i) s.mem (entry_at u j) ≡ s.mem (entry_at u j)
  new_same u j ua jl up ne =
      with_table_ne p (entry_at t i) (entry_at u j) s.mem ne
      ∙ entry_outside u j p ua page.0 jl up s.mem

  new_points :
      (u j : ℕ)
      → u % page_size ≡ 0
      → j < 512
      → 2 ≤ raised p n level u
      → is_present (with_table p (entry_at t i) s.mem (entry_at u j)) ≡ true
      → is_huge (with_table p (entry_at t i) s.mem (entry_at u j)) ≡ false
      → suc (raised p n level (addr_of (with_table p (entry_at t i) s.mem (entry_at u j))))
        ≡ raised p n level u
  new_points u j ua jl deep_u on no_huge = elim (ℕ_discrete u p) [
    | yes e ↦
        let apart : entry_at u j ≢ entry_at t i =
          entry_ne u j t i ua al jl il (λ q. used_ne t (omega (arith, at)) (sym q ∙ e)) in
        absurd (
          absent _
            (with_table_ne p (entry_at t i) (entry_at u j) s.mem apart
              ∙ subst (λ q. clear_page p s.mem (entry_at q j) ≡ 0) (sym e)
                  (cleared_inside p j s.mem jl))
            on)
    | no up ↦ elim (ℕ_discrete (entry_at u j) (entry_at t i)) [
      | yes e ↦
          let v : with_table p (entry_at t i) s.mem (entry_at u j) ≡ addr_of p + 7 =
            ap (with_table p (entry_at t i) s.mem) e ∙ with_table_self p (entry_at t i) s.mem in
          ap (λ w. suc (raised p n level (addr_of w))) v
          ∙ (ap (λ w. suc (raised p n level w)) (new_entry p page).2
              ∙ (ap suc (raised_self p n level)
                  ∙ (sym at
                      ∙ (ap level (same_table u j ua jl e) ∙ sym (raised_ne p n level u up)))))
      | no ne ↦
          let v = new_same u j ua jl up ne in
          let old =
            lv.points u j ua jl (subst (λ k. 2 ≤ k) (raised_ne p n level u up) deep_u)
              (sym (ap is_present v) ∙ on) (sym (ap is_huge v) ∙ no_huge) in
          ap (λ w. suc (raised p n level (addr_of w))) v
          ∙ (ap suc (
                raised_ne p n level (addr_of (s.mem (entry_at u j))) (
                  used_ne (addr_of (s.mem (entry_at u j)))
                    (omega (arith, old, subst (λ k. 2 ≤ k) (raised_ne p n level u up) deep_u))))
              ∙ (old ∙ sym (raised_ne p n level u up)))
    ]
  ]
    where
      absent : (v : ℕ) → v ≡ 0 → is_present v ≡ true → ⊥
      absent v z h = ground (arith, z, h)

      same_table : (w k : ℕ) → w % page_size ≡ 0 → k < 512 → entry_at w k ≡ entry_at t i → t ≡ w
      same_table w k wa kl e = omega (arith, wa, kl, e, al, il)

  new_Descends : Descends level s t i p after_new
  new_Descends = record {
    level' = raised p n level;
    levels = record { points = new_points; fresh = AreFree-raised level p n ps others rest };
    keeps = λ u pos. raised_ne p n level u (used_ne u pos);
    below = ap suc (raised_self p n level) ∙ sym at;
    page = page;
    same = λ u j ua jl pos ut. new_same u j ua jl (used_ne u pos) (entry_ne u j t i ua al jl il ut);
    present = ap is_present (with_table_self p (entry_at t i) s.mem) ∙ (new_entry p page).0;
    small = ap is_huge (with_table_self p (entry_at t i) s.mem) ∙ (new_entry p page).1;
    leads = ap addr_of (with_table_self p (entry_at t i) s.mem) ∙ (new_entry p page).2;
  }

old_Descends :
    (level : ℕ → ℕ) (s : Memory) (t i : ℕ)
    → IsLevelled level s
    → 2 ≤ level t
    → t % page_size ≡ 0
    → i < 512
    → is_present (s.mem (entry_at t i)) ≡ true
    → is_huge (s.mem (entry_at t i)) ≡ false
    → addr_of (s.mem (entry_at t i)) ≢ 0
    → Descends level s t i (addr_of (s.mem (entry_at t i))) s
old_Descends level s t i lv deep al il on small ne = record {
  level' = level;
  levels = lv;
  keeps = λ u pos. refl;
  below = lv.points t i al il deep on small;
  page = (omega arith, ne, omega arith);
  same = λ u j ua jl pos ut. refl;
  present = on;
  small = small;
  leads = refl;
}

module _ (level : ℕ → ℕ) (s : Memory) (t i : ℕ) (lv : IsLevelled level s) (deep : 2 ≤ level t)
    (al : t % page_size ≡ 0) (il : i < 512) where
  abbrev StepsDown : ℕ × Memory → Type 0
  StepsDown (r, u) = r ≢ 0 → Descends level s t i r u

  new_StepsDown : (ps : List ℕ) → AreFree level ps → StepsDown (new_table ps (entry_at t i) true s)
  new_StepsDown [] f = λ ne. absurd (ne refl)
  new_StepsDown (p ∷ ps) (page, free, others, rest) =
      subst StepsDown
        (sym (ap (λ b. if b then (0, record s { pages = ps }) else made) (whole p page.1)))
        (λ ne.
          new_Descends level s t i (level t - 1) p ps lv (omega (arith, deep)) (omega (arith, deep))
            al il page free others rest)
    where
      made : ℕ × Memory
      made = (p, record { mem = with_table p (entry_at t i) s.mem; pages = ps })

      whole : (q : ℕ) → q ≢ 0 → (q == 0) ≡ false
      whole q ne = ground (arith, ne)

  -- A call that does not fail steps down one level.
  pub paging_ensure_table-StepsDown : StepsDown (paging_ensure_table (entry_at t i) true s)
  unfolding paging_ensure_table
  paging_ensure_table-StepsDown = elim (Bool-cases (is_present e)) [
    | inl on ↦ elim (Bool-cases (is_huge e)) [
      | inl huge ↦
          subst StepsDown
            (sym (
              ap (λ b. if b then found else fresh) on
              ∙ ap (λ b. (if b then 0 else addr_of e, s)) huge))
            (λ ne. absurd (ne refl))
      | inr small ↦
          subst StepsDown
            (sym (
              ap (λ b. if b then found else fresh) on
              ∙ ap (λ b. (if b then 0 else addr_of e, s)) small))
            (λ ne. old_Descends level s t i lv deep al il on small ne)
    ]
    | inr off ↦
        subst StepsDown (sym (ap (λ b. if b then found else fresh) off))
          (new_StepsDown s.pages lv.fresh)
  ]
    where
      e : ℕ
      e = s.mem (entry_at t i)

      found : ℕ × Memory
      found = (if is_huge e then 0 else addr_of e, s)

      fresh : ℕ × Memory
      fresh = new_table s.pages (entry_at t i) true s
