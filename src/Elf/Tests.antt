-- ===== src/Elf/Tests.antt =====
-- Small files for kernel/elf.c: one that loads, one whose table of headers wraps, and one whose
-- segment wraps.
use siathos.Prelude.{
  ℕ, ◌-◌, ◌^◌, ◌≡◌, ◌≢◌, refl, List, [], ◌∷◌, ◌++◌, zero, suc, ◌/◌, ◌%◌, replicate, arith,
}
use siathos.Elf.{UserRegion, Loaded, elf_regions, load_loop, read_le}
use siathos.Elf.Accepted.{IsLoaded, elf_regions-IsLoaded}

abbrev le : ℕ → ℕ → List ℕ
le zero n = []
le (suc k) n = n % 256 ∷ le k (n / 256)

abbrev file : ℕ → ℕ → List ℕ → List ℕ
file phoff phnum rest =
    0x7f ∷ 0x45 ∷ 0x4c ∷ 0x46 ∷ 2 ∷ 1 ∷ replicate 12 0
    ++ (le 2 0x3e
        ++ (replicate 4 0
            ++ (le 8 0x400000
                ++ (le 8 phoff
                    ++ (replicate 14 0 ++ (le 2 56 ++ (le 2 phnum ++ (replicate 6 0 ++ rest))))))))

abbrev segment : ℕ → ℕ → ℕ → List ℕ
segment type offset size =
    le 4 type
    ++ (le 4 5
        ++ (le 8 offset ++ (le 8 0x400000 ++ (le 8 0 ++ (le 8 size ++ (le 8 100 ++ le 8 0))))))

-- A note segment, then a segment of the first 64 bytes.
abbrev good_file : List ℕ
good_file = file 64 2 (segment 4 0 0 ++ segment 1 0 64)

abbrev code_region : UserRegion
code_region = record { vaddr = 0x400000; src = 0; file_size = 64; mem_size = 100; flags = 5 }

good_file_loads : elf_regions good_file ≡ Loaded.loads (code_region ∷ [])
unfolding elf_regions load_loop read_le
good_file_loads = refl

elf_regions-IsLoaded_example :
    (elf_regions good_file ≢ Loaded.strays)
    × ((rs : List UserRegion) → elf_regions good_file ≡ Loaded.loads rs → IsLoaded good_file rs)
    × ((rs : List UserRegion) → IsLoaded good_file rs → elf_regions good_file ≡ Loaded.loads rs)
elf_regions-IsLoaded_example = elf_regions-IsLoaded good_file (omega arith)

-- The sum of the table's offset and size wraps to 56, and the first header is read before the file.
wrapped_table_strays : elf_regions (file (2 ^ 64 - 56) 2 (segment 1 0 0)) ≡ Loaded.strays
unfolding elf_regions load_loop read_le
wrapped_table_strays = refl

abbrev stray_region : UserRegion
stray_region = record {
  vaddr = 0x400000;
  src = 2 ^ 64 - 4096;
  file_size = 4096;
  mem_size = 100;
  flags = 5;
}

-- The sum of the segment's offset and size wraps to 0, and its bytes stand before the file.
wrapped_segment_loads :
    elf_regions (file 64 1 (segment 1 (2 ^ 64 - 4096) 4096)) ≡ Loaded.loads (stray_region ∷ [])
unfolding elf_regions load_loop read_le
wrapped_segment_loads = refl
