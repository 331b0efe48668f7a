-- ===== src/Pmm/Boot/Tests.antt =====
-- A start of the allocator with a small memory map.
use siathos.Prelude.{ℕ, Option, none, some, [], ◌∷◌}
use siathos.Pmm.{Pmm}
use siathos.Pmm.Boot.{Region, BootInfo, boot_magic, init}

abbrev region : ℕ → ℕ → ℕ → Region
region base length kind = record { base = base; length = length; kind = kind }

-- Available memory at 4 KB and a device above it.
abbrev small_map : BootInfo
small_map = record {
  magic = boot_magic;
  fb_addr = 0x6000;
  fb_width = 16;
  fb_height = 16;
  fb_bpp = 32;
  memmap = region 0x1000 0x4000 1 ∷ region 0x5000 0x3000 2 ∷ [];
  kernel_phys = 0x2000;
  kernel_size = 0x800;
}

abbrev value : Option Pmm → Pmm
value none = record { bitmap = λ j. 0; pages_total = 0; pages_used = 0; base = 0 }
value (some p) = p

abbrev booted : Pmm
booted = value (init 0x4000 small_map)
