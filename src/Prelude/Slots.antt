-- ===== src/Prelude/Slots.antt =====
-- The loop `for(i=0;i<MAX;i++) if(test(t[i])) return &t[i]; return 0;` over a table: a pointer to a
-- slot is its index beside its content.
use Prim.Native.Nat.{ℕ, zero, suc, ◌<◌}
use mathlib.Core.Path.{◌≡◌, refl, ap, sym, ◌∙◌}
use mathlib.Core.Logic.{inl, inr}
use mathlib.Core.Bool.{Bool, true, false}
use mathlib.Core.List.{List, [], ◌∷◌}
use mathlib.Core.Option.{Option, none, some}
use native.Mathlib.Omega.{arith}
use siathos.Prelude.Tests.{if◌then◌else◌, ◌==◌, Bool-cases}
use siathos.Prelude.Lists.{get_elem?, set, modify}

abbrev bump {ℓ} : {A : Type ℓ} → Option (ℕ × A) → Option (ℕ × A)
bump none = none
bump (some (i, a)) = some (suc i, a)

module _ {ℓ} {A : Type ℓ} where
  abbrev pub find_slot : (A → Bool) → List A → Option (ℕ × A)
  find_slot test [] = none
  find_slot test (x ∷ xs) = if test x then some (zero, x) else bump (find_slot test xs)

-- The slot found, seen after a write to slot `i`.
abbrev pub touched {ℓ} : {A : Type ℓ} → ℕ → (A → A) → Option (ℕ × A) → Option (ℕ × A)
touched i f none = none
touched i f (some (j, a)) = some (j, if i == j then f a else a)

bump-touched {ℓ} :
    {A : Type ℓ} (i : ℕ) (f : A → A) (r : Option (ℕ × A))
    → bump (touched i f r) ≡ touched (suc i) f (bump r)
bump-touched i f none = refl
bump-touched i f (some (j, a)) = ground arith

touched_zero-bump {ℓ} :
    {A : Type ℓ} (f : A → A) (r : Option (ℕ × A)) → touched 0 f (bump r) ≡ bump r
touched_zero-bump f none = refl
touched_zero-bump f (some (j, a)) = ground arith

module _ {ℓ} {A : Type ℓ} (test : A → Bool) where
  -- A write that keeps every slot's answer to the test keeps the slot found.
  pub find_slot-modify :
      (xs : List A) (i : ℕ) (f : A → A)
      → ((a : A) → test (f a) ≡ test a)
      → find_slot test (modify xs i f) ≡ touched i f (find_slot test xs)
  find_slot-modify [] i f h = refl
  find_slot-modify (x ∷ xs) zero f h = elim (Bool-cases (test x)) [
    | inl on ↦ rw (h x) (rw on refl)
    | inr off ↦ rw (h x) (rw off (sym (touched_zero-bump f (find_slot test xs))))
  ]
  find_slot-modify (x ∷ xs) (suc i) f h = elim (Bool-cases (test x)) [
    | inl on ↦ rw on (ground arith)
    | inr off ↦ rw off (ap bump (find_slot-modify xs i f h) ∙ bump-touched i f (find_slot test xs))
  ]

  pub find_slot-modify_found :
      (xs : List A) (i : ℕ) (a : A) (f : A → A)
      → find_slot test xs ≡ some (i, a)
      → test (f a) ≡ true
      → find_slot test (modify xs i f) ≡ some (i, f a)
  find_slot-modify_found [] i a f e t = absurd (ground arith)
  find_slot-modify_found (x ∷ xs) zero a f e t = ground arith
  find_slot-modify_found (x ∷ xs) (suc i) a f e t = ground (arith, find_slot-modify_found xs i a f)

  -- A write that makes slot `i` the only one to pass.
  pub find_slot-modify_new :
      (xs : List A) (i : ℕ) (a : A) (f : A → A)
      → find_slot test xs ≡ none
      → get_elem? xs i ≡ some a
      → test (f a) ≡ true
      → find_slot test (modify xs i f) ≡ some (i, f a)
  find_slot-modify_new [] i a f e g t = absurd (ground arith)
  find_slot-modify_new (x ∷ xs) zero a f e g t = ground arith
  find_slot-modify_new (x ∷ xs) (suc i) a f e g t = ground (arith, find_slot-modify_new xs i a f)

  -- A write to a slot that passes neither before nor after.
  pub find_slot-modify_other :
      (xs : List A) (i : ℕ) (a : A) (f : A → A)
      → get_elem? xs i ≡ some a
      → test a ≡ false
      → test (f a) ≡ false
      → find_slot test (modify xs i f) ≡ find_slot test xs
  find_slot-modify_other [] i a f g e t = refl
  find_slot-modify_other (x ∷ xs) zero a f g e t = ground arith
  find_slot-modify_other (x ∷ xs) (suc i) a f g e t =
      ground (arith, find_slot-modify_other xs i a f)

  pub find_slot-get :
      (xs : List A) (i : ℕ) (a : A)
      → find_slot test xs ≡ some (i, a)
      → (get_elem? xs i ≡ some a) × (test a ≡ true)
  find_slot-get [] i a e = absurd (ground arith)
  find_slot-get (x ∷ xs) zero a e = ground arith
  find_slot-get (x ∷ xs) (suc i) a e = ground (arith, find_slot-get xs i a)

  -- The slots before the one found fail the test.
  pub find_slot-first :
      (xs : List A) (i : ℕ) (a : A) (j : ℕ) (b : A)
      → find_slot test xs ≡ some (i, a)
      → j < i
      → get_elem? xs j ≡ some b
      → test b ≡ false
  find_slot-first [] i a j b e lt g = absurd (ground arith)
  find_slot-first (x ∷ xs) zero a j b e lt g = absurd (omega arith)
  find_slot-first (x ∷ xs) (suc i) a zero b e lt g = ground arith
  find_slot-first (x ∷ xs) (suc i) a (suc j) b e lt g = ground (arith, find_slot-first xs i a j b)

  pub find_slot-none :
      (xs : List A) (j : ℕ) (b : A)
      → find_slot test xs ≡ none
      → get_elem? xs j ≡ some b
      → test b ≡ false
  find_slot-none [] j b e g = absurd (ground arith)
  find_slot-none (x ∷ xs) zero b e g = ground arith
  find_slot-none (x ∷ xs) (suc j) b e g = ground (arith, find_slot-none xs j b)

  pub find_slot_of_first :
      (xs : List A) (i : ℕ) (a : A)
      → get_elem? xs i ≡ some a
      → test a ≡ true
      → ((j : ℕ) (b : A) → j < i → get_elem? xs j ≡ some b → test b ≡ false)
      → find_slot test xs ≡ some (i, a)
  find_slot_of_first [] i a g t f = absurd (ground arith)
  find_slot_of_first (x ∷ xs) zero a g t f = ground arith
  find_slot_of_first (x ∷ xs) (suc i) a g t f = ground (
    arith,
    f 0 x (omega arith) refl,
    find_slot_of_first xs i a g t (λ j b lt e. f (suc j) b (omega arith) e),
  )

  -- A write that keeps the slot's answer to the test keeps the search's answer.
  pub find_slot-set_found :
      (xs : List A) (i : ℕ) (a b : A)
      → find_slot test xs ≡ some (i, a)
      → test b ≡ true
      → find_slot test (set xs i b) ≡ some (i, b)
  find_slot-set_found [] i a b e t = absurd (ground arith)
  find_slot-set_found (x ∷ xs) zero a b e t = ground arith
  find_slot-set_found (x ∷ xs) (suc i) a b e t = ground (arith, find_slot-set_found xs i a b)

  pub find_slot-set_other :
      (xs : List A) (i : ℕ) (a b : A)
      → get_elem? xs i ≡ some a
      → test a ≡ false
      → test b ≡ false
      → find_slot test (set xs i b) ≡ find_slot test xs
  find_slot-set_other [] i a b g f t = refl
  find_slot-set_other (x ∷ xs) zero a b g f t = ground arith
  find_slot-set_other (x ∷ xs) (suc i) a b g f t = ground (arith, find_slot-set_other xs i a b)

  -- Where at most one slot passes, any slot that passes is the one found.
  pub find_slot_of_unique :
      (xs : List A) (i : ℕ) (a : A)
      → get_elem? xs i ≡ some a
      → test a ≡ true
      → ((j : ℕ) (b : A) → get_elem? xs j ≡ some b → test b ≡ true → j ≡ i)
      → find_slot test xs ≡ some (i, a)
  find_slot_of_unique xs i a g t one =
      find_slot_of_first xs i a g t λ j b lt e. ground (arith, one j b e)
