-- ===== src/Bits/Laws.antt =====
-- Masks: what `|=`, `&= ~` and `&` with a set of flags do to the flags.
use Prim.Native.Nat.{ℕ, zero, suc, ◌*◌, ◌/◌, ◌^◌, ◌<◌}
use Prim.Native.Nat.{bit_and, bit_or}
use mathlib.Core.Path.{◌≡◌, refl, ap, ◌∙◌}
use mathlib.Core.Logic.{◌≢◌}
use native.Mathlib.Omega.{arith}
use native.Mathlib.Nat.{pow-suc, one-le-pow}
use native.Mathlib.Decide.{dec_lt, ℕ_discrete}
use mathlib.Core.Bool.{◌||◌}
use siathos.Prelude.{◌!=◌}
use siathos.Bits.Step.{bit_or_step, bit_and_step}
use siathos.Bits.{
  bit, bit-le-one, bit-bit_and, bit-bit_or, bit_ext, bit_zero, bit_of_lt, bit-complement,
  complement,
}

pub bit_pow_self : (k : ℕ) → bit k (2 ^ k) ≡ 1
unfolding bit
bit_pow_self zero = refl
bit_pow_self (suc k) =
    let half : 2 ^ suc k / 2 ≡ 2 ^ k = omega (arith, pow-suc 2 k) in rw half (bit_pow_self k)

pub bit_pow_ne : (j k : ℕ) → j ≢ k → bit j (2 ^ k) ≡ 0
unfolding bit
bit_pow_ne zero zero h = absurd (h refl)
bit_pow_ne zero (suc k) h = omega (arith, pow-suc 2 k)
bit_pow_ne (suc j) zero h = bit_zero j
bit_pow_ne (suc j) (suc k) h =
    let half : 2 ^ suc k / 2 ≡ 2 ^ k = omega (arith, pow-suc 2 k) in
    rw half (bit_pow_ne j k (λ e. h (ap suc e)))

bit_and-zero : (a : ℕ) → bit_and a 0 ≡ 0
bit_and-zero a = bit_ext _ _ λ k. omega (arith, bit-bit_and k a 0, bit_zero k)

pub bit_and-lt : (w a b : ℕ) → b < 2 ^ w → bit_and a b < 2 ^ w
bit_and-lt zero a b h = let e : b ≡ 0 = omega arith in rw (e, bit_and-zero) (omega arith)
bit_and-lt (suc w) a b h = omega (
  arith,
  pow-suc 2 w,
  bit_and_step a b,
  bit_and-lt w (a / 2) (b / 2) (omega (arith, pow-suc 2 w)),
)

pub bit_or-lt : (w a b : ℕ) → a < 2 ^ w → b < 2 ^ w → bit_or a b < 2 ^ w
bit_or-lt zero a b p q =
    let e : a ≡ 0 = omega arith in let f : b ≡ 0 = omega arith in rw (e, f) (omega arith)
bit_or-lt (suc w) a b p q = omega (
  arith,
  pow-suc 2 w,
  bit_or_step a b,
  bit_or-lt w (a / 2) (b / 2) (omega (arith, pow-suc 2 w)) (omega (arith, pow-suc 2 w)),
)

bit_and-bit_or : (a b s : ℕ) → bit_and (bit_or a b) s ≡ bit_or (bit_and a s) (bit_and b s)
bit_and-bit_or a b s = bit_ext _ _ λ k. omega (
  arith,
  bit-bit_and k (bit_or a b) s,
  bit-bit_or k a b,
  bit-bit_or k (bit_and a s) (bit_and b s),
  bit-bit_and k a s,
  bit-bit_and k b s,
)

bit_or-zero : (a b : ℕ) → bit_or a b ≡ 0 → (a ≡ 0) × (b ≡ 0)
bit_or-zero a b h = (
  bit_ext a 0 (λ k. omega (arith, bit-bit_or k a b, ap (bit k) h, bit_zero k)),
  bit_ext b 0 (λ k. omega (arith, bit-bit_or k a b, ap (bit k) h, bit_zero k)),
)

-- A test of `a | b` passes where a test of `a` or one of `b` does.
pub bit_or_and_ne :
    (a b s : ℕ) → (bit_and (bit_or a b) s != 0) ≡ ((bit_and a s != 0) || (bit_and b s != 0))
bit_or_and_ne a b s = elim (ℕ_discrete (bit_or (bit_and a s) (bit_and b s)) 0) [
  | yes e ↦ let (x, y) = bit_or-zero _ _ e in ground (arith, bit_and-bit_or a b s)
  | no e ↦ elim (ℕ_discrete (bit_and a s) 0) [
    | yes x ↦ elim (ℕ_discrete (bit_and b s) 0) [
      | yes y ↦ absurd (e (ap (λ (t : ℕ). bit_or t (bit_and b s)) x ∙ ap (bit_or 0) y))
      | no y ↦ ground (arith, bit_and-bit_or a b s)
    ]
    | no x ↦ ground (arith, bit_and-bit_or a b s)
  ]
]

pub bit_and_assoc : (a b c : ℕ) → bit_and (bit_and a b) c ≡ bit_and a (bit_and b c)
bit_and_assoc a b c = bit_ext _ _ λ k. omega (
  arith,
  bit-bit_and k (bit_and a b) c,
  bit-bit_and k a b,
  bit-bit_and k a (bit_and b c),
  bit-bit_and k b c,
)

-- `(a | b) & b` is `b`.
pub bit_and-bit_or_self : (a b : ℕ) → bit_and (bit_or a b) b ≡ b
bit_and-bit_or_self a b =
    bit_ext _ _ λ k. omega (arith, bit-bit_and k (bit_or a b) b, bit-bit_or k a b)

-- Flags disjoint from those set or cleared keep their value.
pub bit_and-bit_or_disjoint : (a b s : ℕ) → bit_and b s ≡ 0 → bit_and (bit_or a b) s ≡ bit_and a s
bit_and-bit_or_disjoint a b s h = bit_ext _ _ λ k. omega (
  arith,
  bit-bit_and k (bit_or a b) s,
  bit-bit_or k a b,
  bit-bit_and k a s,
  bit-bit_and k b s,
  ap (bit k) h,
  bit_zero k,
)

-- `(a & ~b) & b` is 0.
pub bit_and-complement_self : (w a b : ℕ) → b < 2 ^ w → bit_and (bit_and a (complement w b)) b ≡ 0
bit_and-complement_self w a b h = bit_ext _ _ λ k. elim (dec_lt k w) [
  | yes p ↦ omega (
    arith,
    bit-bit_and k (bit_and a (complement w b)) b,
    bit-bit_and k a (complement w b),
    bit-complement k w b h p,
    bit-le-one k b,
    bit_zero k,
  )
  | no p ↦ omega (
    arith,
    bit-bit_and k (bit_and a (complement w b)) b,
    bit_of_lt k w b h (omega arith),
    bit_zero k,
  )
]

pub bit_and-complement_disjoint :
    (w a b s : ℕ)
    → b < 2 ^ w
    → s < 2 ^ w
    → bit_and b s ≡ 0
    → bit_and (bit_and a (complement w b)) s ≡ bit_and a s
bit_and-complement_disjoint w a b s hb hs h = bit_ext _ _ λ k. elim (dec_lt k w) [
  | yes p ↦ omega (
    arith,
    bit-bit_and k (bit_and a (complement w b)) s,
    bit-bit_and k a (complement w b),
    bit-bit_and k a s,
    bit-bit_and k b s,
    bit-complement k w b hb p,
    bit-le-one k b,
    bit-le-one k s,
    ap (bit k) h,
    bit_zero k,
  )
  | no p ↦ omega (
    arith,
    bit-bit_and k (bit_and a (complement w b)) s,
    bit-bit_and k a s,
    bit_of_lt k w s hs (omega arith),
  )
]

-- `x & (1<<k)` is the digit `k`, in its place.
pub bit_and-pow : (k x : ℕ) → bit_and x (2 ^ k) ≡ bit k x * 2 ^ k
unfolding bit
bit_and-pow zero x = omega (arith, bit_and_step x 1, bit_and-zero (x / 2))
bit_and-pow (suc k) x =
    let half : 2 ^ suc k / 2 ≡ 2 ^ k = omega (arith, pow-suc 2 k) in
    omega (
      arith,
      bit_and_step x (2 ^ suc k),
      ap (bit_and (x / 2)) half,
      bit_and-pow k (x / 2),
      pow-suc 2 k,
      ap (λ (t : ℕ). bit k (x / 2) * t) (pow-suc 2 k),
    )

pub bit_and-pow-pow : (j k : ℕ) → j ≢ k → bit_and (2 ^ k) (2 ^ j) ≡ 0
bit_and-pow-pow j k h =
    omega (arith, bit_and-pow j (2 ^ k), ap (λ (t : ℕ). t * 2 ^ j) (bit_pow_ne j k h))

pub pow-lt-pow : (w k : ℕ) → k < w → 2 ^ k < 2 ^ w
pow-lt-pow zero k h = absurd (omega arith)
pow-lt-pow (suc w) zero h = omega (arith, pow-suc 2 w, one-le-pow w 2 (omega arith))
pow-lt-pow (suc w) (suc k) h = omega (arith, pow-suc 2 w, pow-suc 2 k, pow-lt-pow w k (omega arith))
