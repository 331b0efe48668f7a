-- ===== src/Pmm/Bitmap.antt =====
-- The page bitmap of kernel/util.c: one bit for a page, in words of 64 bits. The other modules see
-- the two laws, and not the words.
use native.Mathlib.Nat.{one-le-pow}
use siathos.Prelude.{
  ℕ, ◌-◌, ◌*◌, ◌/◌, ◌%◌, ◌^◌, ◌<◌, bit_and, bit_or, ◌≡◌, ap, Bool, true, false, arith, ◌==◌, ◌!=◌,
  if◌then◌else◌, ℕ_discrete,
}
use siathos.Bits.{complement, bit, bit_zero, bit-complement}
use siathos.Bits.Laws.{
  bit_and-bit_or_self, bit_and-bit_or_disjoint, bit_and-complement_self,
  bit_and-complement_disjoint, bit_and-pow-pow, pow-lt-pow, bit_and-pow,
}

-- `pmm_bitmap`: the words by their index.
abbrev pub PageMap : Type 0
PageMap = ℕ → ℕ

abbrev write_word : PageMap → ℕ → ℕ → PageMap
write_word m i w j = if i == j then w else m j

-- `pmm_bitmap[idx>>6] & (1ULL<<(idx&63))`
unfoldable pub is_used : PageMap → ℕ → Bool
is_used m idx = bit_and (m (idx / 64)) (2 ^ (idx % 64)) != 0

-- `pmm_bitmap[idx>>6] |= (1ULL<<(idx&63))`
unfoldable pub mark : PageMap → ℕ → PageMap
mark m idx = write_word m (idx / 64) (bit_or (m (idx / 64)) (2 ^ (idx % 64)))

-- `pmm_bitmap[idx>>6] &= ~(1ULL<<(idx&63))`
unfoldable pub clear : PageMap → ℕ → PageMap
clear m idx = write_word m (idx / 64) (bit_and (m (idx / 64)) (complement 64 (2 ^ (idx % 64))))

flag-lt : (i : ℕ) → 2 ^ (i % 64) < 2 ^ 64
flag-lt i = pow-lt-pow 64 (i % 64) (omega arith)

flag_pos : (i : ℕ) → 0 < 2 ^ (i % 64)
flag_pos i = one-le-pow (i % 64) 2 (omega arith)

-- A word of ones marks its 64 pages.
pub is_used_full : (m : PageMap) (j : ℕ) → m (j / 64) ≡ 2 ^ 64 - 1 → is_used m j ≡ true
unfolding is_used
is_used_full m j e = ground (
  arith,
  bit_and-pow (j % 64) (m (j / 64)),
  ap (bit (j % 64)) e,
  bit-complement (j % 64) 64 0 (omega arith) (omega arith),
  bit_zero (j % 64),
  ap (λ (t : ℕ). t * 2 ^ (j % 64)) (ap (bit (j % 64)) e),
  flag_pos j,
)

pub is_used-mark :
    (m : PageMap) (i j : ℕ) → is_used (mark m i) j ≡ (if i == j then true else is_used m j)
unfolding is_used mark
is_used-mark m i j = elim (ℕ_discrete (i / 64) (j / 64)) [
  | no e ↦ ground arith
  | yes e ↦ elim (ℕ_discrete (j % 64) (i % 64)) [
    | yes f ↦ ground (arith, bit_and-bit_or_self (m (i / 64)) (2 ^ (i % 64)), flag_pos i)
    | no f ↦ ground (
      arith,
      bit_and-bit_or_disjoint (m (i / 64)) (2 ^ (i % 64)) (2 ^ (j % 64))
          (bit_and-pow-pow (j % 64) (i % 64) f),
    )
  ]
]

pub is_used-clear :
    (m : PageMap) (i j : ℕ) → is_used (clear m i) j ≡ (if i == j then false else is_used m j)
unfolding is_used clear
is_used-clear m i j = elim (ℕ_discrete (i / 64) (j / 64)) [
  | no e ↦ ground arith
  | yes e ↦ elim (ℕ_discrete (j % 64) (i % 64)) [
    | yes f ↦ ground (arith, bit_and-complement_self 64 (m (i / 64)) (2 ^ (i % 64)) (flag-lt i))
    | no f ↦ ground (
      arith,
      bit_and-complement_disjoint 64 (m (i / 64)) (2 ^ (i % 64)) (2 ^ (j % 64)) (flag-lt i)
          (flag-lt j) (bit_and-pow-pow (j % 64) (i % 64) f),
    )
  ]
]
