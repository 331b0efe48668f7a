-- ===== src/Pmm.antt =====
-- The physical page allocator, pmm_* of kernel/util.c. A page is its number, address / 4096.
-- `kprint` is left out. Sums of addresses are taken mod 2^64, as `uint64_t` is; a loop over pages
-- recurs on the rounds that it has left.
pub mod Bitmap
pub mod Count
pub mod Alloc
pub mod Free
pub mod Boot
mod Tests
use siathos.Prelude.{
  ℕ, zero, suc, ◌+◌, ◌-◌, ◌*◌, ◌/◌, ◌%◌, ◌^◌, Bool, true, false, ◌&&◌, ◌||◌, Option, none, some,
  List, [], ◌∷◌, ltb, leb, ◌==◌, ◌!=◌, if◌then◌else◌,
}
use Bitmap.{PageMap, is_used, mark, clear}

-- The static variables `pmm_bitmap`, `pmm_pages_total`, `pmm_pages_used` and `pmm_base`.
pub record Pmm : Type 0 where
  pub bitmap : PageMap
  pub pages_total : ℕ
  pub pages_used : ℕ
  pub base : ℕ

-- The bits that the fixed array holds, `PMM_BITMAP_SIZE*8`.
abbrev pub max_pages : ℕ
max_pages = 64 * 1024 * 8

-- `uint64_t` sums and `x & ~0xFFF`
abbrev pub add64 : ℕ → ℕ → ℕ
add64 a b = (a + b) % 2 ^ 64

abbrev pub sub64 : ℕ → ℕ → ℕ
sub64 a b = (a + 2 ^ 64 - b) % 2 ^ 64

abbrev pub page_down : ℕ → ℕ
page_down a = a / 4096 * 4096

-- The loop that marks `pages` pages from `idx` on.
pub mark_range : PageMap → ℕ → ℕ → PageMap
mark_range m idx zero = m
mark_range m idx (suc n) = mark_range (mark m idx) (idx + 1) n

-- The inner loop of `pmm_alloc`: it breaks at the first page past the end or in use, so `idx` stays
-- at most `pages_total`.
pub range_fits : Pmm → ℕ → ℕ → Bool
range_fits p idx zero = true
range_fits p idx (suc n) =
    let rest = range_fits p (idx + 1) n in
    if leb p.pages_total idx || is_used p.bitmap idx then false else rest

-- The outer loop, with the rounds left.
pub first_fit : Pmm → ℕ → ℕ → ℕ → Option ℕ
first_fit p pages i zero = none
first_fit p pages i (suc n) =
    let rest = first_fit p pages (i + 1) n in if range_fits p i pages then some i else rest

-- `pmm_alloc`: the address, 0 for a failure, and the new state.
pub alloc : Pmm → ℕ → ℕ × Pmm
unfolding mark_range range_fits first_fit
alloc p pages = if pages == 0 then (0, p) else elim (first_fit p pages 0 p.pages_total) [
  | none ↦ (0, p)
  | some i ↦ (
    add64 (i * 4096) p.base,
    record p { bitmap = mark_range p.bitmap i pages; pages_used = p.pages_used + pages },
  )
]

-- One round of `pmm_free`: the bitmap, and `freed`.
pub free_page : ℕ → PageMap → ℕ → ℕ → PageMap × ℕ
free_page total m idx freed =
    if leb total idx then (m, freed) else (clear m idx, if is_used m idx then freed + 1 else freed)

pub free_range : ℕ → PageMap → ℕ → ℕ → ℕ → PageMap × ℕ
unfolding free_page
free_range total m idx zero freed = (m, freed)
free_range total m idx (suc n) freed =
    let (m', freed') = free_page total m idx freed in free_range total m' (add64 idx 1) n freed'

pub free : Pmm → ℕ → ℕ → Pmm
unfolding free_range
free p addr pages =
    if addr == 0 || pages == 0
    then p
    else let first = sub64 addr p.base / 4096 in
      let (m, freed) = free_range p.pages_total p.bitmap first pages 0 in
      record p {
        bitmap = m;
        pages_used = if ltb p.pages_used freed then 0 else p.pages_used - freed;
      }

-- `pmm_range_free` runs the tests of `pmm_alloc`'s inner loop from a physical address on.
pub range_free : Pmm → ℕ → ℕ → Bool
unfolding range_fits
range_free p base pages = range_fits p (base / 4096) pages

pub total_mem : Pmm → ℕ
total_mem p = p.pages_total * 4096

-- The difference cannot be negative in a state that `Count.IsValid` holds of.
pub free_mem : Pmm → ℕ
free_mem p = (p.pages_total - p.pages_used) * 4096

pub reserve_page : Pmm → ℕ → Pmm
reserve_page p idx =
    if leb p.pages_total idx || is_used p.bitmap idx
    then p
    else record p { bitmap = mark p.bitmap idx; pages_used = p.pages_used + 1 }

pub reserve_range : Pmm → ℕ → ℕ → Pmm
reserve_range p idx zero = p
reserve_range p idx (suc n) = reserve_range (reserve_page p idx) (idx + 1) n

-- The rounds of `pmm_reserve`'s loop.
abbrev pub reserve_rounds : ℕ → ℕ → ℕ
reserve_rounds base size = (page_down (add64 (add64 base size) 0xfff) - page_down base) / 4096

pub reserve : Pmm → ℕ → ℕ → Pmm
unfolding reserve_range reserve_page
reserve p base size =
    if size == 0 then p else reserve_range p (page_down base / 4096) (reserve_rounds base size)
