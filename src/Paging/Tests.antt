-- ===== src/Paging/Tests.antt =====
-- The page tables of kernel/paging.c on an empty space whose tables are still to be made.
use siathos.Prelude.{ℕ, ◌%◌, ◌^◌, ◌<◌, ◌≡◌, ◌≢◌, refl, [], ◌∷◌, ◌==◌, if◌then◌else◌, arith}
use siathos.Paging.{Memory, paging_map_user, paging_new_address_space, paging_ensure_table}
use siathos.Paging.Levels.{IsLevelled, IsPage}
use siathos.Paging.Roundtrip.{IsMapped, IsMapping, paging_map_user-IsMapped}

abbrev empty_space : Memory
empty_space = record { mem = λ x. 0; pages = 8192 ∷ 12288 ∷ 16384 ∷ [] }

abbrev only_top : ℕ → ℕ
only_top q = if q == 4096 then 4 else 0

empty-IsLevelled : IsLevelled only_top empty_space
empty-IsLevelled = record {
  points = λ t i al il deep on small. absurd (ground (arith, on));
  fresh = (
    page 8192 refl (omega arith) (omega arith),
    refl,
    (omega arith, (omega arith, tt)),
    (
      page 12288 refl (omega arith) (omega arith),
      refl,
      (omega arith, tt),
      (page 16384 refl (omega arith) (omega arith), refl, tt, tt),
    ),
  );
}
  where
    page : (p : ℕ) → p % 4096 ≡ 0 → p ≢ 0 → p < 2 ^ 52 → IsPage p
    page p al ne lt = (al, ne, lt)

first-IsMapping : IsMapping 0x400000 0x200000 7
first-IsMapping = record {
  low = omega arith;
  whole = refl;
  frame = refl;
  physical = omega arith;
  flag_bits = omega arith;
  present = refl;
}

mapping_ok : (paging_map_user 4096 0x400000 0x200000 7 empty_space).0 ≡ 1
unfolding paging_map_user paging_ensure_table
mapping_ok = refl

paging_map_user-IsMapped_example :
    IsMapped 4096 0x400000 0x200000 (paging_map_user 4096 0x400000 0x200000 7 empty_space).1
paging_map_user-IsMapped_example =
    paging_map_user-IsMapped only_top 4096 0x400000 0x200000 7 empty_space empty-IsLevelled refl
      refl first-IsMapping mapping_ok

-- Without a page for the last table the call fails.
out_of_pages :
    (paging_map_user 4096 0x400000 0x200000 7 (record empty_space { pages = 8192 ∷ 12288 ∷ [] })).0
    ≡ 0
unfolding paging_map_user paging_ensure_table
out_of_pages = refl

-- A new space starts as the kernel's.
new_space_copies :
    (paging_new_address_space 4096
        (record empty_space { mem = λ x. if x == 4104 then 99 else 0 })).1.mem
      8200
    ≡ 99
unfolding paging_new_address_space
new_space_copies = refl
