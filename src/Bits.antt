-- ===== src/Bits.antt =====
-- Binary digits of the native numbers: `bit k x` is the digit that `x & (1<<k)` tests.
mod Step
pub mod Laws
use Prim.Native.Nat.{ℕ, zero, suc, ◌+◌, ◌-◌, ◌*◌, ◌/◌, ◌%◌, ◌^◌, ◌≤◌, ◌<◌, min, max}
use Prim.Native.Nat.{bit_and, bit_or}
use mathlib.Core.Path.{◌≡◌, refl, ap, ◌∙◌}
use mathlib.Core.Bool.{Bool}
use native.Mathlib.Omega.{arith}
use native.Mathlib.Nat.{pow-suc, one-le-pow}
use Step.{bit_and_step, bit_or_step}

pub bit : ℕ → ℕ → ℕ
bit zero x = x % 2
bit (suc k) x = bit k (x / 2)

-- `~x` at a width of `w` bits.
abbrev pub complement : ℕ → ℕ → ℕ
complement w x = 2 ^ w - 1 - x

pub bit-le-one : (k x : ℕ) → bit k x ≤ 1
unfolding bit
bit-le-one zero x = omega arith
bit-le-one (suc k) x = bit-le-one k (x / 2)

half-bit_and : (a b : ℕ) → bit_and a b / 2 ≡ bit_and (a / 2) (b / 2)
half-bit_and a b = omega (arith, bit_and_step a b)

half-bit_or : (a b : ℕ) → bit_or a b / 2 ≡ bit_or (a / 2) (b / 2)
half-bit_or a b = omega (arith, bit_or_step a b)

pub bit-bit_and : (k a b : ℕ) → bit k (bit_and a b) ≡ min (bit k a) (bit k b)
unfolding bit
bit-bit_and zero a b = omega (arith, bit_and_step a b)
bit-bit_and (suc k) a b = rw half-bit_and (bit-bit_and k (a / 2) (b / 2))

pub bit-bit_or : (k a b : ℕ) → bit k (bit_or a b) ≡ max (bit k a) (bit k b)
unfolding bit
bit-bit_or zero a b = omega (arith, bit_or_step a b)
bit-bit_or (suc k) a b = rw half-bit_or (bit-bit_or k (a / 2) (b / 2))

pub bit_zero : (k : ℕ) → bit k 0 ≡ 0
unfolding bit
bit_zero zero = refl
bit_zero (suc k) = bit_zero k

ext_below : (n a b : ℕ) → a ≤ n → b ≤ n → ((k : ℕ) → bit k a ≡ bit k b) → a ≡ b
unfolding bit
ext_below zero a b p q h = omega arith
ext_below (suc n) a b p q h =
    omega (arith, h 0, ext_below n (a / 2) (b / 2) (omega arith) (omega arith) (λ k. h (suc k)))

-- Numbers with the same digits are equal.
pub bit_ext : (a b : ℕ) → ((k : ℕ) → bit k a ≡ bit k b) → a ≡ b
bit_ext a b h = ext_below (max a b) a b (omega arith) (omega arith) h

pub bit_of_lt : (k w x : ℕ) → x < 2 ^ w → w ≤ k → bit k x ≡ 0
unfolding bit
bit_of_lt zero zero x h p = ground arith
bit_of_lt zero (suc w) x h p = absurd (omega arith)
bit_of_lt (suc k) zero x h p = bit_of_lt k zero (x / 2) (omega arith) (omega arith)
bit_of_lt (suc k) (suc w) x h p = bit_of_lt k w (x / 2) (omega (arith, pow-suc 2 w)) (omega arith)

pub bit-complement : (k w x : ℕ) → x < 2 ^ w → k < w → bit k (complement w x) ≡ 1 - bit k x
unfolding bit
bit-complement k zero x h p = absurd (omega arith)
bit-complement zero (suc w) x h p = omega (arith, pow-suc 2 w, one-le-pow w 2)
bit-complement (suc k) (suc w) x h p =
    let half : complement (suc w) x / 2 ≡ complement w (x / 2) = omega (arith, pow-suc 2 w) in
    rw half (bit-complement k w (x / 2) (omega (arith, pow-suc 2 w)) (omega arith))

pub complement-lt : (w x : ℕ) → complement w x < 2 ^ w
complement-lt w x = omega (arith, one-le-pow w 2 (omega arith))
