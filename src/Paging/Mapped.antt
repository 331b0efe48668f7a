-- ===== src/Paging/Mapped.antt =====
-- What `paging_map_user` of kernel/paging.c writes: the tables it goes through and the leaf.
use siathos.Prelude.{
  ℕ, ◌+◌, ◌%◌, ◌^◌, ◌<◌, ◌≡◌, ◌≢◌, inl, inr, refl, sym, ap, subst, ◌∙◌, Bool, true, ◌||◌, ◌==◌,
  ◌!=◌, if◌then◌else◌, arith, Bool-cases,
}
use siathos.Paging.{
  Memory, page_size, is_present, addr_of, idx_l4, idx_l3, idx_l2, idx_l1, entry_at, store,
  paging_ensure_table, set_leaf, descend, paging_map_user,
}
use siathos.Paging.Levels.{IsLevelled, paging_ensure_table-StepsDown}
use siathos.Paging.Walks.{WalksTo}

descend_ok :
    (r : ℕ × Memory) (i : ℕ) (rest : ℕ × Memory → ℕ × Memory)
    → (descend r i rest).0 ≡ 1
    → (r.0 ≢ 0) × (descend r i rest ≡ rest (paging_ensure_table (entry_at r.0 i) true r.1))
descend_ok (t, s) i rest e = elim (Bool-cases (t == 0)) [
  | inl null ↦ absurd (ground (arith, e, null))
  | inr go ↦ (ground (arith, go), rw go refl)
]

set_leaf_ok :
    (r : ℕ × Memory) (virt phys flags : ℕ)
    → (set_leaf r virt phys flags).0 ≡ 1
    → (r.0 ≢ 0)
      × (set_leaf r virt phys flags ≡ (
        1,
        record r.1 { mem = store (entry_at r.0 (idx_l1 virt)) (addr_of phys + flags) r.1.mem },
      ))
set_leaf_ok (l1, s) virt phys flags e = elim (Bool-cases (l1 == 0)) [
  | inl null ↦ absurd (ground (arith, e, null))
  | inr go ↦ (ground (arith, go), rw go refl)
]

-- The tables that a mapping that succeeds goes through, and the memory before it writes the leaf.
pub record Tables (pml4 virt phys flags : ℕ) (s after : Memory) : Type 0 where
  pub r3 : ℕ
  pub r2 : ℕ
  pub r1 : ℕ
  pub before : Memory
  pub al3 : r3 % page_size ≡ 0
  pub al2 : r2 % page_size ≡ 0
  pub al1 : r1 % page_size ≡ 0
  pub n4 : pml4 ≢ r1
  pub n3 : r3 ≢ r1
  pub n2 : r2 ≢ r1
  pub walks : WalksTo pml4 virt r3 r2 r1 before.mem
  pub wrote : after.mem ≡ store (entry_at r1 (idx_l1 virt)) (addr_of phys + flags) before.mem

module _ (level : ℕ → ℕ) (pml4 virt phys flags : ℕ) (s : Memory) (lv : IsLevelled level s)
    (top : level pml4 ≡ 4) (al4 : pml4 % page_size ≡ 0) where
  abbrev t3 : ℕ × Memory
  t3 = paging_ensure_table (entry_at pml4 (idx_l4 virt)) true s

  abbrev t2 : ℕ × Memory
  t2 = paging_ensure_table (entry_at t3.0 (idx_l3 virt)) true t3.1

  abbrev t1 : ℕ × Memory
  t1 = paging_ensure_table (entry_at t2.0 (idx_l2 virt)) true t2.1

  tables :
      t3.0 ≢ 0
      → t2.0 ≢ 0
      → t1.0 ≢ 0
      → Tables pml4 virt phys flags s (record t1.1 {
        mem = store (entry_at t1.0 (idx_l1 virt)) (addr_of phys + flags) t1.1.mem;
      })
  tables ne3 ne2 ne1 =
      let d3 =
        paging_ensure_table-StepsDown level s pml4 (idx_l4 virt) lv (omega (arith, top)) al4
          (omega arith) ne3 in
      let l3 : d3.level' t3.0 ≡ 3 = omega (arith, d3.below, top) in
      let d2 =
        paging_ensure_table-StepsDown d3.level' t3.1 t3.0 (idx_l3 virt) d3.levels
          (omega (arith, l3)) d3.page.0 (omega arith) ne2 in
      let l2 : d2.level' t2.0 ≡ 2 = omega (arith, d2.below, l3) in
      let d1 =
        paging_ensure_table-StepsDown d2.level' t2.1 t2.0 (idx_l2 virt) d2.levels
          (omega (arith, l2)) d2.page.0 (omega arith) ne1 in
      let l1 : d1.level' t1.0 ≡ 1 = omega (arith, d1.below, l2) in
      let p3 : d3.level' pml4 ≡ 4 = d3.keeps pml4 (omega (arith, top)) ∙ top in
      let p2 : d2.level' pml4 ≡ 4 = d2.keeps pml4 (omega (arith, p3)) ∙ p3 in
      let p1 : d1.level' pml4 ≡ 4 = d1.keeps pml4 (omega (arith, p2)) ∙ p2 in
      let q2 : d2.level' t3.0 ≡ 3 = d2.keeps t3.0 (omega (arith, l3)) ∙ l3 in
      let q1 : d1.level' t3.0 ≡ 3 = d1.keeps t3.0 (omega (arith, q2)) ∙ q2 in
      let w1 : d1.level' t2.0 ≡ 2 = d1.keeps t2.0 (omega (arith, l2)) ∙ l2 in
      let e4 : t1.1.mem (entry_at pml4 (idx_l4 virt)) ≡ t3.1.mem (entry_at pml4 (idx_l4 virt)) =
        d1.same pml4 (idx_l4 virt) al4 (omega arith) (omega (arith, p2))
          (differ d2.level' pml4 t2.0 4 2 p2 l2 (omega arith))
        ∙ d2.same pml4 (idx_l4 virt) al4 (omega arith) (omega (arith, p3))
            (differ d3.level' pml4 t3.0 4 3 p3 l3 (omega arith)) in
      let e3 : t1.1.mem (entry_at t3.0 (idx_l3 virt)) ≡ t2.1.mem (entry_at t3.0 (idx_l3 virt)) =
        d1.same t3.0 (idx_l3 virt) d3.page.0 (omega arith) (omega (arith, q2))
          (differ d2.level' t3.0 t2.0 3 2 q2 l2 (omega arith)) in
      record {
        r3 = t3.0;
        r2 = t2.0;
        r1 = t1.0;
        before = t1.1;
        al3 = d3.page.0;
        al2 = d2.page.0;
        al1 = d1.page.0;
        n4 = differ d1.level' pml4 t1.0 4 1 p1 l1 (omega arith);
        n3 = differ d1.level' t3.0 t1.0 3 1 q1 l1 (omega arith);
        n2 = differ d1.level' t2.0 t1.0 2 1 w1 l1 (omega arith);
        walks = record {
          on4 = ap is_present e4 ∙ d3.present;
          to3 = ap addr_of e4 ∙ d3.leads;
          on3 = ap is_present e3 ∙ d2.present;
          to2 = ap addr_of e3 ∙ d2.leads;
          on2 = d1.present;
          small2 = d1.small;
          to1 = d1.leads;
        };
        wrote = refl;
      }
    where
      differ : (l : ℕ → ℕ) (u v m n : ℕ) → l u ≡ m → l v ≡ n → n < m → u ≢ v
      differ l u v m n lu lw lt e = absurd (omega (arith, lu, lw, lt, ap l e))

  pub map_Tables :
      (paging_map_user pml4 virt phys flags s).0 ≡ 1
      → Tables pml4 virt phys flags s (paging_map_user pml4 virt phys flags s).1
  unfolding paging_map_user
  map_Tables = elim (Bool-cases (pml4 == 0 || virt % 2 ^ 12 != 0 || phys % 2 ^ 12 != 0)) [
    | inl bad ↦ λ ok. absurd (omega (arith, sym (ap (λ b. (guarded b).0) bad) ∙ ok))
    | inr go ↦ λ ok. past (ap guarded go) (sym (ap (λ b. (guarded b).0) go) ∙ ok)
  ]
    where
      leaf : ℕ × Memory → ℕ × Memory
      leaf r = set_leaf r virt phys flags

      from2 : ℕ × Memory → ℕ × Memory
      from2 r = descend r (idx_l2 virt) leaf

      from3 : ℕ × Memory → ℕ × Memory
      from3 r = descend r (idx_l3 virt) from2

      mapped : ℕ × Memory
      mapped = descend (pml4, s) (idx_l4 virt) from3

      guarded : Bool → ℕ × Memory
      guarded b = if b then (0, s) else mapped

      past : {r : ℕ × Memory} → r ≡ mapped → mapped.0 ≡ 1 → Tables pml4 virt phys flags s r.1
      past e ok =
          let (n4, e4) = descend_ok (pml4, s) (idx_l4 virt) from3 ok in
          let (n3, e3) = descend_ok t3 (idx_l3 virt) from2 (ap (λ r. r.0) (sym e4) ∙ ok) in
          let (n2, e2) = descend_ok t2 (idx_l2 virt) leaf (ap (λ r. r.0) (sym (e4 ∙ e3)) ∙ ok) in
          let (n1, e1) =
            set_leaf_ok t1 virt phys flags (ap (λ r. r.0) (sym (e4 ∙ (e3 ∙ e2))) ∙ ok) in
          subst (λ r. Tables pml4 virt phys flags s r.1) (sym (e ∙ (e4 ∙ (e3 ∙ (e2 ∙ e1)))))
            (tables n3 n2 n1)
