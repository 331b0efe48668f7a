-- ===== src/Pmm/Boot.antt =====
-- `pmm_init` of kernel/util.c: the allocator's first state, from boot/thaisboot/bootinfo.h.
pub mod Protect
pub mod Safe
mod Tests
use siathos.Prelude.{
  ℕ, zero, suc, ◌+◌, ◌-◌, ◌*◌, ◌/◌, ◌%◌, ◌^◌, ◌≤◌, ◌<◌, ◌≡◌, ◌≢◌, ◌⊎◌, inl, inr, refl, Bool, true,
  false, ◌&&◌, ◌||◌, Option, none, some, List, [], ◌∷◌, arith, ltb, leb, ◌==◌, ◌!=◌, if◌then◌else◌,
  Bool-cases,
}
use siathos.Pmm.{Pmm, max_pages, add64, page_down, reserve, reserve_page, reserve_range}
use siathos.Pmm.Bitmap.{PageMap, is_used, mark, clear, is_used-mark, is_used-clear}
use siathos.Pmm.Count.{IsValid, count_used}

-- `thais_memmap_entry_t`; the kind 1 is memory that may be handed out.
pub record Region : Type 0 where
  pub base : ℕ
  pub length : ℕ
  pub kind : ℕ

-- The fields of `thais_boot_info_t` that `pmm_init` reads. The first `memmap_count` entries of the
-- array are a list.
pub record BootInfo : Type 0 where
  pub magic : ℕ
  pub fb_addr : ℕ
  pub fb_width : ℕ
  pub fb_height : ℕ
  pub fb_bpp : ℕ
  pub memmap : List Region
  pub kernel_phys : ℕ
  pub kernel_size : ℕ

abbrev pub boot_magic : ℕ
boot_magic = 0x54484149534F53

-- `sizeof(thais_boot_info_t)`: seven words, 256 entries of three words, six words.
abbrev pub boot_info_size : ℕ
boot_info_size = 7 * 8 + 256 * 24 + 6 * 8

pub top_of : List Region → ℕ → ℕ
top_of [] top = top
top_of (r ∷ rs) top =
    let end = add64 r.base r.length in top_of rs (if ltb top end then end else top)

pub managed_pages : List Region → ℕ
unfolding top_of
managed_pages rs =
    let found = top_of rs 0 in
    let total = (if found == 0 then 0x40000000 else found) / 4096 + 1 in
    if ltb max_pages total then max_pages else total

-- `memset(pmm_bitmap,0xFF,...)`
pub all_used : PageMap
all_used j = 2 ^ 64 - 1

pub clear_run : ℕ → PageMap → ℕ → ℕ → PageMap
clear_run total m idx zero = m
clear_run total m idx (suc n) =
    let rest = clear_run total (clear m idx) (idx + 1) n in if ltb idx total then rest else m

abbrev pub first_page : Region → ℕ
first_page r = add64 r.base 0xfff / 4096

pub free_regions : ℕ → PageMap → List Region → PageMap
unfolding clear_run
free_regions total m [] = m
free_regions total m (r ∷ rs) =
    free_regions total
      (if r.kind != 1 then m else clear_run total m (first_page r) (r.length / 4096)) rs

-- The base of the first region that is available, 0 without one.
pub first_base : List Region → ℕ
first_base [] = 0
first_base (r ∷ rs) = let rest = first_base rs in if r.kind == 1 then r.base else rest

pub low_used : List Region → ℕ
unfolding first_base
low_used rs = let low = first_base rs in if low == 0 || ltb 0x100000 low then 0x100000 else low

pub reserve_kernel : BootInfo → Pmm → Pmm
reserve_kernel bi p =
    if (bi.kernel_phys != 0) && (bi.kernel_size != 0)
    then reserve p bi.kernel_phys bi.kernel_size
    else p

-- The bytes of the frame buffer, as `pmm_init` computes them.
abbrev pub fb_size : BootInfo → ℕ
fb_size bi = bi.fb_width * bi.fb_height * (bi.fb_bpp / 8) % 2 ^ 64

pub reserve_fb : BootInfo → Pmm → Pmm
reserve_fb bi p =
    if (bi.fb_addr != 0) && ((bi.fb_width != 0) && (bi.fb_height != 0))
    then reserve p bi.fb_addr (fb_size bi)
    else p

pub recount : Pmm → Pmm
recount p = record p { pages_used = count_used p.bitmap p.pages_total }

-- `pages_used` is 0 when `pmm_init` starts; the reservations count into it until the recount.
pub carve : List Region → Pmm
unfolding managed_pages all_used free_regions
carve rs = record {
  bitmap = free_regions (managed_pages rs) all_used rs;
  pages_total = managed_pages rs;
  pages_used = 0;
  base = 0;
}

-- `pmm_init` of the structure at address `at`; `none` is the halt on a null pointer or a wrong
-- magic number.
pub init : ℕ → BootInfo → Option Pmm
unfolding carve reserve_kernel reserve_fb recount low_used
init at bi =
    if at == 0 || (bi.magic != boot_magic)
    then none
    else let kept =
        reserve (reserve_fb bi (reserve_kernel bi (carve bi.memmap))) at boot_info_size in
      some (recount (reserve kept 0 (low_used bi.memmap)))
