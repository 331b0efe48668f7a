-- ===== src/Prelude/Strings.antt =====
-- C strings as the lists of their bytes before the terminator: `strcmp(a,b)==0` and
-- `strncmp(p,a,strlen(a))==0`.
use Prim.Native.Nat.{ℕ}
use mathlib.Core.Path.{◌≡◌, refl, ap, ◌∙◌}
use mathlib.Core.Logic.{◌≢◌, inl, inr}
use mathlib.Core.Bool.{Bool, true, false, ◌&&◌}
use mathlib.Core.List.{List, [], ◌∷◌, ◌++◌}
use mathlib.Core.Option.{Option, none, some}
use native.Mathlib.Omega.{arith}
use siathos.Prelude.Tests.{if◌then◌else◌, ◌==◌, Bool-cases}

abbrev pub Text : Type 0
Text = List ℕ

abbrev pub same : Text → Text → Bool
same [] [] = true
same [] (b ∷ ys) = false
same (a ∷ xs) [] = false
same (a ∷ xs) (b ∷ ys) = (a == b) && same xs ys

pub same_refl : (a : Text) → same a a ≡ true
same_refl [] = refl
same_refl (a ∷ xs) = ground (arith, same_refl xs)

pub same_eq : (a b : Text) → same a b ≡ true → a ≡ b
same_eq [] [] e = refl
same_eq [] (b ∷ ys) e = absurd (ground arith)
same_eq (a ∷ xs) [] e = absurd (ground arith)
same_eq (a ∷ xs) (b ∷ ys) e =
    let (x, y) : (a ≡ b) × (same xs ys ≡ true) = ground arith in
    ap (λ (n : ℕ). n ∷ xs) x ∙ ap (◌∷◌ b) (same_eq xs ys y)

pub same_ne : (a b : Text) → a ≢ b → same a b ≡ false
same_ne a b h = elim (Bool-cases (same a b)) [ inl e ↦ absurd (h (same_eq a b e)) | inr e ↦ e ]

-- `a` behind the prefix `p`.
abbrev pub after : Text → Text → Option Text
after [] a = some a
after (p ∷ ps) [] = none
after (p ∷ ps) (a ∷ xs) = if p == a then after ps xs else none

pub after-append : (p a : Text) → after p (p ++ a) ≡ some a
after-append [] a = refl
after-append (p ∷ ps) a = ground (arith, after-append ps a)
