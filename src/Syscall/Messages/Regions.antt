-- ===== src/Syscall/Messages/Regions.antt =====
-- What a write to memory that kernel/syscall.c has checked changes.
use siathos.Prelude.{
  ℕ, ◌+◌, ◌^◌, ◌<◌, ◌≤◌, ◌≡◌, ◌≢◌, inl, inr, refl, ◌∙◌, true, ◌&&◌, Option, some, List, [], ◌∷◌,
  length, leb, ltb, arith, Bool-cases, ℕ_discrete,
}
use siathos.Proc.{Process}
use siathos.Syscall.{user_ptr_ok}
use siathos.Syscall.Pointers.{Inside, here, there, user_ptr_ok-Inside}
use siathos.Syscall.Messages.{store_bytes, store32}

-- Every byte that changes lies in a region of the process.
abbrev pub IsIsolated : Process → (ℕ → ℕ) → (ℕ → ℕ) → Type 0
IsIsolated p old new = (x : ℕ) → new x ≢ old x → Inside x 1 p.umap

Inside-byte :
    (a len x : ℕ) (rs : List (ℕ × ℕ)) → a ≤ x → x < a + len → Inside a len rs → Inside x 1 rs
Inside-byte a len x [] le lt i = elim i [ ]
Inside-byte a len x ((b, sz) ∷ rs) le lt (here low high) =
    here (omega (arith, le, low)) (omega (arith, lt, high))
Inside-byte a len x (r ∷ rs) le lt (there i) = there (Inside-byte a len x rs le lt i)

user_ptr_ok-bound :
    (p : Option Process) (a len : ℕ)
    → a < 2 ^ 64
    → len < 2 ^ 64
    → 0 < len
    → user_ptr_ok p a len ≡ true
    → a + len < 2 ^ 64
unfolding user_ptr_ok
user_ptr_ok-bound p a len al ll pos ok = ground (arith, ok)

module _ (p : Process) (user : p.is_user ≡ true) where
  range-IsIsolated :
      (a len x : ℕ)
      → a < 2 ^ 64
      → len < 2 ^ 64
      → user_ptr_ok (some p) a len ≡ true
      → a ≤ x
      → x < a + len
      → Inside x 1 p.umap
  range-IsIsolated a len x al ll ok le lt =
      Inside-byte a len x p.umap le lt
        ((user_ptr_ok-Inside p a len user (omega (arith, le, lt))
            (user_ptr_ok-bound (some p) a len al ll (omega (arith, le, lt)) ok)).0
          ok).1

  pub trans-IsIsolated : (m n o : ℕ → ℕ) → IsIsolated p m n → IsIsolated p n o → IsIsolated p m o
  trans-IsIsolated m n o f g x ne = elim (ℕ_discrete (n x) (m x)) [
    | yes e ↦ g x (λ h. ne (h ∙ e))
    | no d ↦ f x d
  ]

  pub store_bytes-IsIsolated :
      (a len : ℕ) (bytes : List ℕ) (mem : ℕ → ℕ)
      → a < 2 ^ 64
      → len < 2 ^ 64
      → length bytes ≤ len
      → user_ptr_ok (some p) a len ≡ true
      → IsIsolated p mem (store_bytes a bytes mem)
  store_bytes-IsIsolated a len bytes mem al ll short ok x ne =
      elim (Bool-cases (leb a x && ltb x (a + length bytes))) [
        | inl on ↦
            range-IsIsolated a len x al ll ok (ground (arith, on)) (ground (arith, on, short))
        | inr off ↦ absurd (ne (rw off refl))
      ]

  pub store32-IsIsolated :
      (a v : ℕ) (mem : ℕ → ℕ)
      → a < 2 ^ 64
      → user_ptr_ok (some p) a 4 ≡ true
      → IsIsolated p mem (store32 a v mem)
  store32-IsIsolated a v mem al ok x ne = elim (Bool-cases (leb a x && ltb x (a + 4))) [
    | inl on ↦ range-IsIsolated a 4 x al (omega arith) ok (ground (arith, on)) (ground (arith, on))
    | inr off ↦ absurd (ne (rw off refl))
  ]
