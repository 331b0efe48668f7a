-- ===== src/Paging/Roundtrip.antt =====
-- The callers' view of kernel/paging.c: what `paging_map_user` maps, `paging_phys_of_user` finds and
-- `paging_unmap_user` takes away.
use siathos.Prelude.{
  ℕ, ◌+◌, ◌%◌, ◌^◌, ◌<◌, ◌≡◌, ◌≢◌, inl, inr, refl, sym, ap, subst, ◌∙◌, true, ◌||◌, none, some, ltb,
  ◌==◌, ◌!=◌, if◌then◌else◌, arith, Bool-cases,
}
use siathos.Paging.{
  Memory, page_size, addr_of, is_present, idx_l1, entry_at, store, paging_map_user, leaf_of,
  unmap_leaf, paging_unmap_user, phys_at, paging_phys_of_user,
}
use siathos.Paging.Levels.{IsLevelled}
use siathos.Paging.Walks.{WalksTo, leaf_if, leaf_of_page, leaf_of-WalksTo, WalksTo-store}
use siathos.Paging.Mapped.{Tables, map_Tables}

-- A page of a process: a page below 2^47, a physical page, and flags in the low 12 bits and in the
-- bits from 52 on, of which the lowest says that the page is present.
pub record IsMapping (virt phys flags : ℕ) : Type 0 where
  pub low : virt < 2 ^ 47
  pub whole : virt % page_size ≡ 0
  pub frame : phys % page_size ≡ 0
  pub physical : phys < 2 ^ 52
  pub flag_bits : flags % 2 ^ 52 < 2 ^ 12
  pub present : flags % 2 ≡ 1

-- The page `virt` of the space `pml4` is the physical page `phys`, and nothing once it is unmapped.
pub record IsMapped (pml4 virt phys : ℕ) (s : Memory) : Type 0 where
  pub finds : (off : ℕ) → off < page_size → paging_phys_of_user pml4 (virt + off) s.mem ≡ phys + off
  pub gives : (paging_unmap_user pml4 virt s).0 ≡ phys
  pub gone :
      (off : ℕ)
      → off < page_size
      → paging_phys_of_user pml4 (virt + off) (paging_unmap_user pml4 virt s).1.mem ≡ 0

phys_of_leaf :
    (pml4 virt off : ℕ) (mem : ℕ → ℕ)
    → pml4 ≢ 0
    → virt < 2 ^ 47
    → virt % page_size ≡ 0
    → off < page_size
    → paging_phys_of_user pml4 (virt + off) mem ≡ phys_at (leaf_of pml4 virt mem) (virt + off) mem
unfolding paging_phys_of_user
phys_of_leaf pml4 virt off mem ne low al lt =
    elim (Bool-cases (pml4 == 0 || ltb 0x00007fffffffffff (virt + off))) [
      | inl bad ↦ absurd (ground (arith, bad, ne, low, al, lt))
      | inr go ↦ rw go (ap (λ l. phys_at l (virt + off) mem) (leaf_of_page pml4 virt off mem al lt))
    ]

unmap_of_leaf :
    (pml4 virt : ℕ) (s : Memory)
    → pml4 ≢ 0
    → virt % page_size ≡ 0
    → paging_unmap_user pml4 virt s ≡ unmap_leaf (leaf_of pml4 virt s.mem) s
unfolding paging_unmap_user
unmap_of_leaf pml4 virt s ne al = elim (Bool-cases (pml4 == 0 || virt % 2 ^ 12 != 0)) [
  | inl bad ↦ absurd (ground (arith, bad, ne, al))
  | inr go ↦ rw go refl
]

map_ne :
    (pml4 virt phys flags : ℕ) (s : Memory)
    → (paging_map_user pml4 virt phys flags s).0 ≡ 1
    → pml4 ≢ 0
unfolding paging_map_user
map_ne pml4 virt phys flags s ok null =
    omega (arith, sym (ap (λ p. (paging_map_user p virt phys flags s).0) null) ∙ ok)

store_self : (l v : ℕ) (mem : ℕ → ℕ) → store l v mem l ≡ v
store_self l v mem = ground arith

leaf_if_on : (l v : ℕ) (mem : ℕ → ℕ) → mem l ≡ v → is_present v ≡ true → leaf_if l mem ≡ some l
leaf_if_on l v mem e on = ap (λ b. if b then some l else none) (ap is_present e ∙ on)

leaf_if_off : (l : ℕ) (mem : ℕ → ℕ) → mem l ≡ 0 → leaf_if l mem ≡ none
leaf_if_off l mem e = ap (λ v. if is_present v then some l else none) e

leaf_value :
    (virt phys flags : ℕ)
    → IsMapping virt phys flags
    → (is_present (addr_of phys + flags) ≡ true) × (addr_of (addr_of phys + flags) ≡ phys)
leaf_value virt phys flags m =
    let frame : phys % page_size ≡ 0 = m.frame in
    let physical : phys < 2 ^ 52 = m.physical in
    let bits : flags % 2 ^ 52 < 2 ^ 12 = m.flag_bits in
    let present : flags % 2 ≡ 1 = m.present in
    let whole : addr_of phys ≡ phys = omega (arith, frame, physical) in
    (ground (arith, whole, frame, present), omega (arith, whole, frame, physical, bits))

module _ (level : ℕ → ℕ) (pml4 virt phys flags : ℕ) (s : Memory) (top : level pml4 ≡ 4)
    (al4 : pml4 % page_size ≡ 0) (ne : pml4 ≢ 0) (m : IsMapping virt phys flags)
    (t : Tables pml4 virt phys flags s (paging_map_user pml4 virt phys flags s).1) where
  abbrev after : Memory
  after = (paging_map_user pml4 virt phys flags s).1

  abbrev leaf : ℕ
  leaf = entry_at t.r1 (idx_l1 virt)

  after_walks : WalksTo pml4 virt t.r3 t.r2 t.r1 after.mem
  after_walks =
      subst (λ mem. WalksTo pml4 virt t.r3 t.r2 t.r1 mem) (sym t.wrote)
        (WalksTo-store pml4 virt t.r3 t.r2 t.r1 (addr_of phys + flags) t.before.mem al4 t.al3 t.al2
          t.al1 t.n4 t.n3 t.n2 t.walks)

  leaf_word : after.mem leaf ≡ addr_of phys + flags
  leaf_word = ap (λ mem. mem leaf) t.wrote ∙ store_self leaf (addr_of phys + flags) t.before.mem

  leaf_found : leaf_of pml4 virt after.mem ≡ some leaf
  leaf_found =
      leaf_of-WalksTo pml4 virt t.r3 t.r2 t.r1 after.mem after_walks
      ∙ leaf_if_on leaf (addr_of phys + flags) after.mem leaf_word (leaf_value virt phys flags m).0

  unmapped : paging_unmap_user pml4 virt after ≡ unmap_leaf (some leaf) after
  unmapped = unmap_of_leaf pml4 virt after ne m.whole ∙ ap (λ l. unmap_leaf l after) leaf_found

  leaf_lost : leaf_of pml4 virt (store leaf 0 after.mem) ≡ none
  leaf_lost =
      leaf_of-WalksTo pml4 virt t.r3 t.r2 t.r1 (store leaf 0 after.mem) (
        WalksTo-store pml4 virt t.r3 t.r2 t.r1 0 after.mem al4 t.al3 t.al2 t.al1 t.n4 t.n3 t.n2
          after_walks)
      ∙ leaf_if_off leaf (store leaf 0 after.mem) (store_self leaf 0 after.mem)

  tables-IsMapped : IsMapped pml4 virt phys after
  tables-IsMapped = record {
    finds = λ off lt.
        phys_of_leaf pml4 virt off after.mem ne m.low m.whole lt
        ∙ (ap (λ l. phys_at l (virt + off) after.mem) leaf_found
            ∙ (ap (λ w. addr_of w + (virt + off) % 2 ^ 12) leaf_word
                ∙ (ap (λ a. a + (virt + off) % 2 ^ 12) (leaf_value virt phys flags m).1
                    ∙ ap (λ o. phys + o) (in_page virt off m.whole lt))));
    gives = ap (λ r. r.0) unmapped ∙ (ap addr_of leaf_word ∙ (leaf_value virt phys flags m).1);
    gone = λ off lt.
        ap (λ r. paging_phys_of_user pml4 (virt + off) r.1.mem) unmapped
        ∙ (phys_of_leaf pml4 virt off (store leaf 0 after.mem) ne m.low m.whole lt
            ∙ ap (λ l. phys_at l (virt + off) (store leaf 0 after.mem)) leaf_lost);
  }
    where
      in_page : (v off : ℕ) → v % page_size ≡ 0 → off < page_size → (v + off) % 2 ^ 12 ≡ off
      in_page v off al lt = omega (arith, al, lt)

-- In a space whose tables form four levels and share no table, a call of `paging_map_user` that
-- succeeds for a page below 2^47, with flags that hold the present bit and no address bit, maps it:
-- `paging_phys_of_user` gives for every byte of the page the byte of the physical page, whatever
-- tables had to be made; `paging_unmap_user` gives that physical page back, and after it
-- `paging_phys_of_user` gives 0 for the whole page.
pub paging_map_user-IsMapped :
    (level : ℕ → ℕ) (pml4 virt phys flags : ℕ) (s : Memory)
    → IsLevelled level s
    → level pml4 ≡ 4
    → pml4 % page_size ≡ 0
    → IsMapping virt phys flags
    → (paging_map_user pml4 virt phys flags s).0 ≡ 1
    → IsMapped pml4 virt phys (paging_map_user pml4 virt phys flags s).1
paging_map_user-IsMapped level pml4 virt phys flags s lv top al4 m ok =
    tables-IsMapped level pml4 virt phys flags s top al4 (map_ne pml4 virt phys flags s ok) m
      (map_Tables level pml4 virt phys flags s lv top al4 ok)
