-- ===== src/Paging.antt =====
-- The page tables of kernel/paging.c. `mem` is the physical memory, a 64-bit word for each address of
-- an entry; `pages` is what the next calls of `pmm_alloc(1)` give, which fails behind their end. An
-- `|` of numbers with no bit in common is `+`: an address has the bits 12 to 51 only, and every
-- caller's flags have none of these. The result `is_mmio` and the flush of the processor's cache are
-- left out.
pub mod Levels
pub mod Walks
pub mod Mapped
pub mod Roundtrip
mod Tests
use siathos.Prelude.{
  ℕ, zero, suc, ◌+◌, ◌-◌, ◌*◌, ◌/◌, ◌%◌, ◌^◌, Bool, true, false, not, ◌&&◌, ◌||◌, Option, none,
  some, List, [], ◌∷◌, leb, ltb, ◌==◌, ◌!=◌, if◌then◌else◌,
}

pub record Memory : Type 0 where
  pub mem : ℕ → ℕ
  pub pages : List ℕ

abbrev pub page_size : ℕ
page_size = 4096

-- `e & 1`
abbrev pub is_present : ℕ → Bool
is_present e = e % 2 == 1

-- `e & (1ULL<<7)`
abbrev pub is_huge : ℕ → Bool
is_huge e = e / 2 ^ 7 % 2 == 1

-- `e & PTE_ADDR`
abbrev pub addr_of : ℕ → ℕ
addr_of e = e / 2 ^ 12 % 2 ^ 40 * 2 ^ 12

abbrev pub idx_l4 : ℕ → ℕ
idx_l4 v = v / 2 ^ 39 % 512

abbrev pub idx_l3 : ℕ → ℕ
idx_l3 v = v / 2 ^ 30 % 512

abbrev pub idx_l2 : ℕ → ℕ
idx_l2 v = v / 2 ^ 21 % 512

abbrev pub idx_l1 : ℕ → ℕ
idx_l1 v = v / 2 ^ 12 % 512

-- `&table[i]`
abbrev pub entry_at : ℕ → ℕ → ℕ
entry_at table i = table + 8 * i

abbrev pub store : ℕ → ℕ → (ℕ → ℕ) → ℕ → ℕ
store a v mem x = if x == a then v else mem x

-- `memset(p,0,4096)`
abbrev pub clear_page : ℕ → (ℕ → ℕ) → ℕ → ℕ
clear_page p mem x = if leb p x && ltb x (p + page_size) then 0 else mem x

-- The flags 0x3, with 0x4 for a user's table.
abbrev pub table_flags : Bool → ℕ
table_flags user = if user then 7 else 3

abbrev pub new_table : List ℕ → ℕ → Bool → Memory → ℕ × Memory
new_table [] entry user s = (0, s)
new_table (p ∷ ps) entry user s = if p == 0 then (0, record s { pages = ps }) else (
  p,
  record { mem = store entry (addr_of p + table_flags user) (clear_page p s.mem); pages = ps },
)

pub paging_ensure_table : ℕ → Bool → Memory → ℕ × Memory
paging_ensure_table entry user s =
    if is_present (s.mem entry)
    then (if is_huge (s.mem entry) then 0 else addr_of (s.mem entry), s)
    else new_table s.pages entry user s

abbrev pub set_leaf : ℕ × Memory → ℕ → ℕ → ℕ → ℕ × Memory
set_leaf (l1, s) virt phys flags =
    if l1 == 0
    then (0, s)
    else (1, record s { mem = store (entry_at l1 (idx_l1 virt)) (addr_of phys + flags) s.mem })

-- The next level, unless the table is missing.
abbrev pub descend : ℕ × Memory → ℕ → (ℕ × Memory → ℕ × Memory) → ℕ × Memory
descend (table, s) i rest =
    if table == 0 then (0, s) else rest (paging_ensure_table (entry_at table i) true s)

pub paging_map_user : ℕ → ℕ → ℕ → ℕ → Memory → ℕ × Memory
paging_map_user pml4 virt phys flags s =
    if pml4 == 0 || virt % 2 ^ 12 != 0 || phys % 2 ^ 12 != 0
    then (0, s)
    else descend (pml4, s) (idx_l4 virt)
        λ t3.
          descend t3 (idx_l3 virt) λ t2. descend t2 (idx_l2 virt) λ t1. set_leaf t1 virt phys flags

abbrev pub leaf_in : ℕ → ℕ → (ℕ → ℕ) → Option ℕ
leaf_in e2 i1 mem =
    if not (is_present e2) || is_huge e2
    then none
    else let l = entry_at (addr_of e2) i1 in if is_present (mem l) then some l else none

abbrev pub walk_tables : ℕ → ℕ → ℕ → ℕ → ℕ → (ℕ → ℕ) → Option ℕ
walk_tables pml4 i4 i3 i2 i1 mem =
    let e4 = mem (entry_at pml4 i4) in
    let e3 = mem (entry_at (addr_of e4) i3) in
    let e2 = mem (entry_at (addr_of e3) i2) in
    if is_present e4 && is_present e3 then leaf_in e2 i1 mem else none

-- The walk that `paging_unmap_user` and `paging_phys_of_user` share: the address of the leaf.
pub leaf_of : ℕ → ℕ → (ℕ → ℕ) → Option ℕ
leaf_of pml4 virt mem = walk_tables pml4 (idx_l4 virt) (idx_l3 virt) (idx_l2 virt) (idx_l1 virt) mem

abbrev pub unmap_leaf : Option ℕ → Memory → ℕ × Memory
unmap_leaf none s = (0, s)
unmap_leaf (some l) s = (addr_of (s.mem l), record s { mem = store l 0 s.mem })

pub paging_unmap_user : ℕ → ℕ → Memory → ℕ × Memory
paging_unmap_user pml4 virt s =
    if pml4 == 0 || virt % 2 ^ 12 != 0 then (0, s) else unmap_leaf (leaf_of pml4 virt s.mem) s

abbrev pub phys_at : Option ℕ → ℕ → (ℕ → ℕ) → ℕ
phys_at none virt mem = 0
phys_at (some l) virt mem = addr_of (mem l) + virt % 2 ^ 12

pub paging_phys_of_user : ℕ → ℕ → (ℕ → ℕ) → ℕ
paging_phys_of_user pml4 virt mem =
    if pml4 == 0 || ltb 0x00007fffffffffff virt then 0 else phys_at (leaf_of pml4 virt mem) virt mem

-- The loop that copies the 512 entries of the kernel's table.
abbrev pub copy_table : ℕ → ℕ → (ℕ → ℕ) → ℕ → ℕ
copy_table dst src mem x =
    if leb dst x && ltb x (dst + page_size) then mem (src + (x - dst)) else mem x

abbrev pub new_space : List ℕ → ℕ → Memory → ℕ × Memory
new_space [] saved s = (0, s)
new_space (p ∷ ps) saved s =
    if p == 0
    then (0, record s { pages = ps })
    else (p, record { mem = copy_table p saved s.mem; pages = ps })

-- `saved` is `saved_cr3`.
pub paging_new_address_space : ℕ → Memory → ℕ × Memory
paging_new_address_space saved s = new_space s.pages saved s
