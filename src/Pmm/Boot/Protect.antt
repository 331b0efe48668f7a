-- ===== src/Pmm/Boot/Protect.antt =====
-- What `pmm_init` never leaves free, and what it may leave free.
use siathos.Prelude.{
  ℕ, zero, suc, ◌+◌, ◌/◌, ◌^◌, ◌≤◌, ◌<◌, ◌≡◌, ◌⊎◌, inl, inr, refl, true, false, ◌&&◌, List, [], ◌∷◌,
  arith, ◌==◌, ◌!=◌, if◌then◌else◌, Bool-cases, ℕ_discrete,
}
use siathos.Pmm.{Pmm, page_down, reserve, reserve_page, reserve_range, reserve_rounds}
use siathos.Pmm.Bitmap.{PageMap, is_used, clear, is_used-mark, is_used-clear}
use siathos.Pmm.Boot.{
  Region, BootInfo, clear_run, first_page, free_regions, reserve_kernel, reserve_fb, fb_size,
}

-- `q` manages the pages of `p`, and every page that `p` uses is used in `q`.
pub record Extends (p q : Pmm) : Type 0 where
  pub total : q.pages_total ≡ p.pages_total
  pub at_zero : q.base ≡ p.base
  pub keeps : (j : ℕ) → is_used p.bitmap j ≡ true → is_used q.bitmap j ≡ true

Extends-refl : (p : Pmm) → Extends p p
Extends-refl p = record { total = refl; at_zero = refl; keeps = λ j h. h }

pub Extends-trans : (p q r : Pmm) → Extends p q → Extends q r → Extends p r
Extends-trans p q r a b = record {
  total = omega arith;
  at_zero = omega arith;
  keeps = λ j h. b.keeps j (a.keeps j h);
}

reserve_page-Extends : (p : Pmm) (i : ℕ) → Extends p (reserve_page p i)
unfolding reserve_page
reserve_page-Extends p i = record {
  total = ground arith;
  at_zero = ground arith;
  keeps = λ j h. ground (arith, is_used-mark p.bitmap i j);
}

reserve_page-used :
    (p : Pmm) (i : ℕ) → i < p.pages_total → is_used (reserve_page p i).bitmap i ≡ true
unfolding reserve_page
reserve_page-used p i h = ground (arith, is_used-mark p.bitmap i i)

reserve_range-Extends : (p : Pmm) (i n : ℕ) → Extends p (reserve_range p i n)
unfolding reserve_range
reserve_range-Extends p i zero = Extends-refl p
reserve_range-Extends p i (suc n) =
    Extends-trans p (reserve_page p i) _ (reserve_page-Extends p i)
      (reserve_range-Extends (reserve_page p i) (i + 1) n)

reserve_range-used :
    (p : Pmm) (i n j : ℕ)
    → i ≤ j
    → j < i + n
    → j < p.pages_total
    → is_used (reserve_range p i n).bitmap j ≡ true
unfolding reserve_range
reserve_range-used p i zero j lo hi h = absurd (omega arith)
reserve_range-used p i (suc n) j lo hi h = elim (ℕ_discrete i j) [
  | yes e ↦ rw (← e) (
      (reserve_range-Extends (reserve_page p i) (i + 1) n).keeps i
        (reserve_page-used p i (omega arith)))
  | no e ↦
      reserve_range-used (reserve_page p i) (i + 1) n j (omega arith) (omega arith)
        (omega (arith, (reserve_page-Extends p i).total))
]

pub reserve-Extends : (p : Pmm) (base size : ℕ) → Extends p (reserve p base size)
unfolding reserve
reserve-Extends p base size = elim (Bool-cases (size == 0)) [
  | inl e ↦ rw e (Extends-refl p)
  | inr e ↦ rw e (reserve_range-Extends p (page_down base / 4096) (reserve_rounds base size))
]

-- An address of the reserved range lies in a used page, unless the page is not managed.
pub reserve-used :
    (p : Pmm) (base size a : ℕ)
    → base ≤ a
    → a < base + size
    → base + size + 0xfff < 2 ^ 64
    → a / 4096 < p.pages_total
    → is_used (reserve p base size).bitmap (a / 4096) ≡ true
unfolding reserve
reserve-used p base size a lo hi fits h =
    rw (some_bytes, reserve)
      (reserve_range-used p (page_down base / 4096) (reserve_rounds base size) (a / 4096)
        (omega arith) (omega arith) h)
  where
    some_bytes : (size == 0) ≡ false
    some_bytes = ground arith

pub reserve_kernel-Extends : (bi : BootInfo) (p : Pmm) → Extends p (reserve_kernel bi p)
unfolding reserve_kernel
reserve_kernel-Extends bi p = elim (Bool-cases ((bi.kernel_phys != 0) && (bi.kernel_size != 0))) [
  | inl e ↦ rw e (reserve-Extends p bi.kernel_phys bi.kernel_size)
  | inr e ↦ rw e (Extends-refl p)
]

pub reserve_fb-Extends : (bi : BootInfo) (p : Pmm) → Extends p (reserve_fb bi p)
unfolding reserve_fb
reserve_fb-Extends bi p =
    elim (Bool-cases ((bi.fb_addr != 0) && ((bi.fb_width != 0) && (bi.fb_height != 0)))) [
      | inl e ↦ rw e (reserve-Extends p bi.fb_addr (fb_size bi))
      | inr e ↦ rw e (Extends-refl p)
    ]

-- Page `j` lies in a region of kind 1, counted from the region's first whole page.
abbrev pub IsAvailable : List Region → ℕ → Type 0
IsAvailable [] j = ⊥
IsAvailable (r ∷ rs) j =
    ((r.kind ≡ 1) × (first_page r ≤ j) × (j < first_page r + r.length / 4096)) ⊎ IsAvailable rs j

clear_run-outside :
    (total : ℕ) (m : PageMap) (i n j : ℕ)
    → is_used (clear_run total m i n) j ≡ false
    → (is_used m j ≡ false) ⊎ ((i ≤ j) × (j < i + n))
unfolding clear_run
clear_run-outside total m i zero j h = inl h
clear_run-outside total m i (suc n) j h =
    ground (arith, is_used-clear m i j, clear_run-outside total (clear m i) (i + 1) n j)

pub free_regions-IsAvailable :
    (total : ℕ) (m : PageMap) (rs : List Region) (j : ℕ)
    → is_used (free_regions total m rs) j ≡ false
    → (is_used m j ≡ false) ⊎ IsAvailable rs j
unfolding free_regions
free_regions-IsAvailable total m [] j h = inl h
free_regions-IsAvailable total m (r ∷ rs) j h = ground (
  arith,
  free_regions-IsAvailable total
      (if r.kind != 1 then m else clear_run total m (first_page r) (r.length / 4096)) rs j h,
  clear_run-outside total m (first_page r) (r.length / 4096) j,
)
