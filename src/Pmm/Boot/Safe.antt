-- ===== src/Pmm/Boot/Safe.antt =====
-- The state that `pmm_init` returns: valid, with nothing reserved left free.
use siathos.Prelude.{ℕ, ◌+◌, ◌*◌, ◌/◌, ◌^◌, ◌≤◌, ◌<◌, ◌≡◌, ◌≢◌, true, false}
use siathos.Pmm.{Pmm, reserve}
use siathos.Pmm.Bitmap.{is_used}
use siathos.Pmm.Count.{IsValid}
use siathos.Pmm.Boot.{BootInfo, boot_info_size, low_used, reserve_kernel, reserve_fb, carve}
use siathos.Pmm.Boot.Protect.{IsAvailable}

-- The states between the reservations of `pmm_init`.
abbrev with_kernel : BootInfo → Pmm
with_kernel bi = reserve_kernel bi (carve bi.memmap)

abbrev with_fb : BootInfo → Pmm
with_fb bi = reserve_fb bi (with_kernel bi)

abbrev with_info : ℕ → BootInfo → Pmm
with_info at bi = reserve (with_fb bi) at boot_info_size

abbrev with_low : ℕ → BootInfo → Pmm
with_low at bi = reserve (with_info at bi) 0 (low_used bi.memmap)

-- An address of a range of bytes, and the range's end rounds up to a page below 2^64.
pub record InRange (base size a : ℕ) : Type 0 where
  pub from : base ≤ a
  pub to : a < base + size
  pub fits : base + size + 0xfff < 2 ^ 64

pub record BootSafe (at : ℕ) (bi : BootInfo) (p : Pmm) : Type 0 where
  pub valid : IsValid p
  pub null_used : is_used p.bitmap 0 ≡ true
  pub kernel :
      (a : ℕ)
      → bi.kernel_phys ≢ 0
      → InRange bi.kernel_phys bi.kernel_size a
      → a / 4096 < p.pages_total
      → is_used p.bitmap (a / 4096) ≡ true
  pub frame :
      (a : ℕ)
      → bi.fb_addr ≢ 0
      → bi.fb_width ≢ 0
      → bi.fb_height ≢ 0
      → InRange bi.fb_addr (bi.fb_width * bi.fb_height * (bi.fb_bpp / 8)) a
      → a / 4096 < p.pages_total
      → is_used p.bitmap (a / 4096) ≡ true
  pub info :
      (a : ℕ)
      → InRange at boot_info_size a
      → a / 4096 < p.pages_total
      → is_used p.bitmap (a / 4096) ≡ true
  pub low :
      (a : ℕ)
      → a < low_used bi.memmap
      → a / 4096 < p.pages_total
      → is_used p.bitmap (a / 4096) ≡ true
  pub available : (j : ℕ) → is_used p.bitmap j ≡ false → IsAvailable bi.memmap j
