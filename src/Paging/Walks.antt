-- ===== src/Paging/Walks.antt =====
-- The walk of kernel/paging.c to the entry of a page: `paging_unmap_user`, `paging_phys_of_user`.
use siathos.Prelude.{
  ℕ, ◌+◌, ◌%◌, ◌<◌, ◌≡◌, ◌≢◌, ap, ◌∙◌, Bool, true, false, not, ◌&&◌, ◌||◌, Option, none, some,
  if◌then◌else◌, arith,
}
use siathos.Paging.{
  page_size, is_present, is_huge, addr_of, idx_l4, idx_l3, idx_l2, idx_l1, entry_at, store, leaf_in,
  walk_tables, leaf_of,
}
use siathos.Paging.Levels.{entry_ne}

-- The walk for `virt` goes through the tables `r3`, `r2` and `r1`.
pub record WalksTo (pml4 virt r3 r2 r1 : ℕ) (mem : ℕ → ℕ) : Type 0 where
  pub on4 : is_present (mem (entry_at pml4 (idx_l4 virt))) ≡ true
  pub to3 : addr_of (mem (entry_at pml4 (idx_l4 virt))) ≡ r3
  pub on3 : is_present (mem (entry_at r3 (idx_l3 virt))) ≡ true
  pub to2 : addr_of (mem (entry_at r3 (idx_l3 virt))) ≡ r2
  pub on2 : is_present (mem (entry_at r2 (idx_l2 virt))) ≡ true
  pub small2 : is_huge (mem (entry_at r2 (idx_l2 virt))) ≡ false
  pub to1 : addr_of (mem (entry_at r2 (idx_l2 virt))) ≡ r1

abbrev pub leaf_if : ℕ → (ℕ → ℕ) → Option ℕ
leaf_if l mem = if is_present (mem l) then some l else none

pub leaf_of-WalksTo :
    (pml4 virt r3 r2 r1 : ℕ) (mem : ℕ → ℕ)
    → WalksTo pml4 virt r3 r2 r1 mem
    → leaf_of pml4 virt mem ≡ leaf_if (entry_at r1 (idx_l1 virt)) mem
unfolding leaf_of
leaf_of-WalksTo pml4 virt r3 r2 r1 mem w =
    ap (λ n. from3 (is_present e4) n) w.to3
    ∙ (ap (λ b. from3 b r3) w.on4
        ∙ (ap (λ n. from2 (is_present e3) n) w.to2
            ∙ (ap (λ b. from2 b r2) w.on3
                ∙ (ap (λ n. from1 (is_present e2) (is_huge e2) n) w.to1
                    ∙ (ap (λ b. from1 b (is_huge e2) r1) w.on2
                        ∙ ap (λ b. from1 true b r1) w.small2)))))
  where
    e4 : ℕ
    e4 = mem (entry_at pml4 (idx_l4 virt))

    e3 : ℕ
    e3 = mem (entry_at r3 (idx_l3 virt))

    e2 : ℕ
    e2 = mem (entry_at r2 (idx_l2 virt))

    from1 : Bool → Bool → ℕ → Option ℕ
    from1 p h n = if not p || h then none else leaf_if (entry_at n (idx_l1 virt)) mem

    from2 : Bool → ℕ → Option ℕ
    from2 p n = if p then leaf_in (mem (entry_at n (idx_l2 virt))) (idx_l1 virt) mem else none

    from3 : Bool → ℕ → Option ℕ
    from3 p n =
        let e = mem (entry_at n (idx_l3 virt)) in
        if p && is_present e
        then leaf_in (mem (entry_at (addr_of e) (idx_l2 virt))) (idx_l1 virt) mem
        else none

-- The address of a byte in a page goes through the same entries as the page's.
pub leaf_of_page :
    (pml4 virt off : ℕ) (mem : ℕ → ℕ)
    → virt % page_size ≡ 0
    → off < page_size
    → leaf_of pml4 (virt + off) mem ≡ leaf_of pml4 virt mem
unfolding leaf_of
leaf_of_page pml4 virt off mem al lt =
    let i4 : idx_l4 (virt + off) ≡ idx_l4 virt = omega arith in
    let i3 : idx_l3 (virt + off) ≡ idx_l3 virt = omega arith in
    let i2 : idx_l2 (virt + off) ≡ idx_l2 virt = omega arith in
    let i1 : idx_l1 (virt + off) ≡ idx_l1 virt = omega arith in
    ap
      (λ i.
        walk_tables pml4 i (idx_l3 (virt + off)) (idx_l2 (virt + off)) (idx_l1 (virt + off)) mem)
      i4
    ∙ (ap (λ i. walk_tables pml4 (idx_l4 virt) i (idx_l2 (virt + off)) (idx_l1 (virt + off)) mem) i3
        ∙ (ap (λ i. walk_tables pml4 (idx_l4 virt) (idx_l3 virt) i (idx_l1 (virt + off)) mem) i2
            ∙ ap (λ i. walk_tables pml4 (idx_l4 virt) (idx_l3 virt) (idx_l2 virt) i mem) i1))

-- A write to an entry of the lowest table changes no other step of the walk.
pub WalksTo-store :
    (pml4 virt r3 r2 r1 v : ℕ) (mem : ℕ → ℕ)
    → pml4 % page_size ≡ 0
    → r3 % page_size ≡ 0
    → r2 % page_size ≡ 0
    → r1 % page_size ≡ 0
    → pml4 ≢ r1
    → r3 ≢ r1
    → r2 ≢ r1
    → WalksTo pml4 virt r3 r2 r1 mem
    → WalksTo pml4 virt r3 r2 r1 (store (entry_at r1 (idx_l1 virt)) v mem)
WalksTo-store pml4 virt r3 r2 r1 v mem a4 a3 a2 a1 n4 n3 n2 w = record {
  on4 = ap is_present (kept pml4 (idx_l4 virt) a4 (omega arith) n4) ∙ w.on4;
  to3 = ap addr_of (kept pml4 (idx_l4 virt) a4 (omega arith) n4) ∙ w.to3;
  on3 = ap is_present (kept r3 (idx_l3 virt) a3 (omega arith) n3) ∙ w.on3;
  to2 = ap addr_of (kept r3 (idx_l3 virt) a3 (omega arith) n3) ∙ w.to2;
  on2 = ap is_present (kept r2 (idx_l2 virt) a2 (omega arith) n2) ∙ w.on2;
  small2 = ap is_huge (kept r2 (idx_l2 virt) a2 (omega arith) n2) ∙ w.small2;
  to1 = ap addr_of (kept r2 (idx_l2 virt) a2 (omega arith) n2) ∙ w.to1;
}
  where
    l : ℕ
    l = entry_at r1 (idx_l1 virt)

    elsewhere : (x : ℕ) → x ≢ l → store l v mem x ≡ mem x
    elsewhere x ne = ground (arith, ne)

    kept :
        (t i : ℕ)
        → t % page_size ≡ 0
        → i < 512
        → t ≢ r1
        → store l v mem (entry_at t i) ≡ mem (entry_at t i)
    kept t i al il ne =
        elsewhere (entry_at t i) (entry_ne t i r1 (idx_l1 virt) al a1 il (omega arith) ne)
