-- ===== src/Pmm/Count.antt =====
-- How many pages are in use, and the allocator's invariant.
use siathos.Prelude.{
  ℕ, zero, suc, ◌+◌, ◌≤◌, ◌<◌, ◌≡◌, refl, true, false, ◌&&◌, arith, ltb, leb, if◌then◌else◌,
  ℕ_discrete,
}
use siathos.Pmm.{Pmm, max_pages, mark_range}
use siathos.Pmm.Bitmap.{PageMap, is_used, mark, clear, is_used-mark, is_used-clear}

-- The pages below `n` that are in use.
unfoldable pub count_used : PageMap → ℕ → ℕ
count_used m zero = 0
count_used m (suc n) = if is_used m n then suc (count_used m n) else count_used m n

pub record IsValid (p : Pmm) : Type 0 where
  pub counted : p.pages_used ≡ count_used p.bitmap p.pages_total
  pub small : p.pages_total ≤ max_pages
  pub at_zero : p.base ≡ 0

pub count_used-le : (m : PageMap) (n : ℕ) → count_used m n ≤ n
unfolding count_used
count_used-le m zero = omega arith
count_used-le m (suc n) = ground (arith, count_used-le m n)

pub count_used_ext :
    (m m' : PageMap) (n : ℕ)
    → ((j : ℕ) → is_used m j ≡ is_used m' j)
    → count_used m n ≡ count_used m' n
unfolding count_used
count_used_ext m m' zero h = refl
count_used_ext m m' (suc n) h = ground (arith, h n, count_used_ext m m' n h)

pub count_used-mark_above :
    (m : PageMap) (i n : ℕ) → n ≤ i → count_used (mark m i) n ≡ count_used m n
unfolding count_used
count_used-mark_above m i zero h = refl
count_used-mark_above m i (suc n) h =
    ground (arith, is_used-mark m i n, count_used-mark_above m i n)

pub count_used-mark :
    (m : PageMap) (i n : ℕ)
    → i < n
    → is_used m i ≡ false
    → count_used (mark m i) n ≡ suc (count_used m n)
unfolding count_used
count_used-mark m i zero h f = absurd (omega arith)
count_used-mark m i (suc n) h f = elim (ℕ_discrete i n) [
  | yes e ↦ ground (arith, is_used-mark m i n, count_used-mark_above m i n)
  | no e ↦ ground (arith, is_used-mark m i n, count_used-mark m i n)
]

pub count_used-clear_above :
    (m : PageMap) (i n : ℕ) → n ≤ i → count_used (clear m i) n ≡ count_used m n
unfolding count_used
count_used-clear_above m i zero h = refl
count_used-clear_above m i (suc n) h =
    ground (arith, is_used-clear m i n, count_used-clear_above m i n)

pub count_used-clear :
    (m : PageMap) (i n : ℕ)
    → i < n
    → count_used (clear m i) n + (if is_used m i then 1 else 0) ≡ count_used m n
unfolding count_used
count_used-clear m i zero h = absurd (omega arith)
count_used-clear m i (suc n) h = elim (ℕ_discrete i n) [
  | yes e ↦ ground (arith, is_used-clear m i n, count_used-clear_above m i n)
  | no e ↦ ground (arith, is_used-clear m i n, count_used-clear m i n)
]

-- The pages that a loop has marked, and no other, are in use with those that were.
pub is_used-mark_range :
    (m : PageMap) (i n j : ℕ)
    → is_used (mark_range m i n) j ≡ (if leb i j && ltb j (i + n) then true else is_used m j)
unfolding mark_range
is_used-mark_range m i zero j = ground arith
is_used-mark_range m i (suc n) j =
    ground (arith, is_used-mark_range (mark m i) (i + 1) n j, is_used-mark m i j)

pub count_used-mark_range :
    (m : PageMap) (i n total : ℕ)
    → i + n ≤ total
    → ((j : ℕ) → i ≤ j → j < i + n → is_used m j ≡ false)
    → count_used (mark_range m i n) total ≡ count_used m total + n
unfolding mark_range
count_used-mark_range m i zero total h f = omega arith
count_used-mark_range m i (suc n) total h f = omega (
  arith,
  count_used-mark m i total (omega arith) (f i (omega arith) (omega arith)),
  count_used-mark_range (mark m i) (i + 1) n total (omega arith)
      (λ j p q. ground (arith, is_used-mark m i j, f j)),
)
