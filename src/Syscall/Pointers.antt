-- ===== src/Syscall/Pointers.antt =====
-- Which addresses and texts of a caller kernel/syscall.c accepts.
use mathlib.Core.Option.{some-injective}
use siathos.Prelude.{
  ℕ, zero, suc, ◌+◌, ◌%◌, ◌^◌, ◌<◌, ◌≤◌, ◌≡◌, ◌≢◌, inl, inr, refl, subst, true, Option, some, List,
  [], ◌∷◌, ◌==◌, length, get_elem?, Text, sym, ap, ◌∙◌, arith, Bool-cases, Option-cases,
}
use siathos.Proc.{Process}
use siathos.Syscall.{in_region, in_regions, user_ptr_ok, str_loop, user_str}

-- The `len` bytes from `a` lie in one of the regions.
pub data Inside (a len : ℕ) : List (ℕ × ℕ) → Type 0 where
  here : {b sz : ℕ} {rs : List (ℕ × ℕ)} → b ≤ a → a + len ≤ b + sz → Inside a len ((b, sz) ∷ rs)
  there : {r : ℕ × ℕ} {rs : List (ℕ × ℕ)} → Inside a len rs → Inside a len (r ∷ rs)

in_regions-Inside :
    (a len : ℕ) (rs : List (ℕ × ℕ))
    → a + len < 2 ^ 64
    → in_regions a len rs ≡ true
    → Inside a len rs
in_regions-Inside a len [] lt e = absurd (ground arith)
in_regions-Inside a len ((b, sz) ∷ rs) lt e = elim (Bool-cases (in_region a len (b, sz))) [
  | inl on ↦ here (ground (arith, on)) (ground (arith, on))
  | inr off ↦ there (in_regions-Inside a len rs lt (ground (arith, off, e)))
]

Inside-in_regions :
    (a len : ℕ) (rs : List (ℕ × ℕ))
    → 0 < len
    → a + len < 2 ^ 64
    → Inside a len rs
    → in_regions a len rs ≡ true
Inside-in_regions a len [] pos lt i = elim i [ ]
Inside-in_regions a len ((b, sz) ∷ rs) pos lt (here le fits) = ground arith
Inside-in_regions a len (r ∷ rs) pos lt (there i) =
    ground (arith, Inside-in_regions a len rs pos lt i)

-- For a process of ring 3, and a range of at least one byte that does not reach the end of the 64-bit
-- addresses, `user_ptr_ok` accepts exactly the ranges that do not start at 0 and lie whole in one
-- region that the kernel gave to the process.
pub user_ptr_ok-Inside :
    (p : Process) (a len : ℕ)
    → p.is_user ≡ true
    → 0 < len
    → a + len < 2 ^ 64
    → (user_ptr_ok (some p) a len ≡ true → (a ≢ 0) × Inside a len p.umap)
      × ((a ≢ 0) × Inside a len p.umap → user_ptr_ok (some p) a len ≡ true)
unfolding user_ptr_ok
user_ptr_ok-Inside p a len user pos lt = (
  λ ok. (ground (arith, ok), in_regions-Inside a len p.umap lt (ground (arith, ok, user))),
  λ h. ground (arith, h.0, Inside-in_regions a len p.umap pos lt h.1),
)

-- What the loop of `user_str` reads, by its own test of an address.
Spells : Option Process → (ℕ → ℕ) → ℕ → Text → Type 0
Spells p mem a [] = (user_ptr_ok p a 1 ≡ true) × (mem a ≡ 0)
Spells p mem a (c ∷ cs) =
    (user_ptr_ok p a 1 ≡ true) × (mem a ≡ c) × (c ≢ 0) × Spells p mem ((a + 1) % 2 ^ 64) cs

str_loop-Spells :
    (p : Option Process) (mem : ℕ → ℕ) (room a : ℕ) (t : Text)
    → str_loop p mem room a ≡ some t
    → Spells p mem a t × (length t < room)
unfolding str_loop Spells
str_loop-Spells p mem zero a t e = absurd (ground (arith, e))
str_loop-Spells p mem (suc room) a t e = elim (Bool-cases (user_ptr_ok p a 1)) [
  | inr bad ↦ absurd (ground (arith, bad, e))
  | inl ok ↦ elim (Bool-cases (mem a == 0)) [
    | inl ends ↦
        let empty : [] ≡ t = ground (arith, ok, ends, e) in
        subst (λ (x : Text). Spells p mem a x × (length x < suc room)) empty
          ((ok, ground (arith, ends)), omega arith)
    | inr more ↦ elim (Option-cases (str_loop p mem room ((a + 1) % 2 ^ 64))) [
      | inl nothing ↦ absurd (ground (arith, ok, more, e, nothing))
      | inr (cs, rest) ↦
          let (spells, short) = str_loop-Spells p mem room ((a + 1) % 2 ^ 64) cs rest in
          let whole : mem a ∷ cs ≡ t = ground (arith, ok, more, e, rest, short) in
          subst (λ (x : Text). Spells p mem a x × (length x < suc room)) whole
            ((ok, refl, ground (arith, more), spells), omega (arith, short))
    ]
  ]
]

Spells-str_loop :
    (p : Option Process) (mem : ℕ → ℕ) (room a : ℕ) (t : Text)
    → Spells p mem a t
    → length t < room
    → str_loop p mem room a ≡ some t
unfolding str_loop Spells
Spells-str_loop p mem zero a t s lt = absurd (omega arith)
Spells-str_loop p mem (suc room) a [] (ok, ends) lt = ground (arith, ok, ends)
Spells-str_loop p mem (suc room) a (c ∷ cs) (ok, at, ne, s) lt =
    let rest : str_loop p mem room ((a + 1) % 2 ^ 64) ≡ some cs =
      Spells-str_loop p mem room ((a + 1) % 2 ^ 64) cs s (omega arith) in
    ground (arith, ok, at, ne, rest)

-- The bytes of the text `t`, none of them 0, and a 0 behind them stand from the address `a` on, each in
-- one of the regions.
pub record IsText (rs : List (ℕ × ℕ)) (mem : ℕ → ℕ) (a : ℕ) (t : Text) : Type 0 where
  pub bytes : (j c : ℕ) → get_elem? t j ≡ some c → (mem (a + j) ≡ c) × (c ≢ 0)
  pub ends : mem (a + length t) ≡ 0
  pub inside : (j : ℕ) → j ≤ length t → Inside (a + j) 1 rs

IsText-tail :
    (rs : List (ℕ × ℕ)) (mem : ℕ → ℕ) (a c : ℕ) (cs : Text)
    → IsText rs mem a (c ∷ cs)
    → IsText rs mem (a + 1) cs
IsText-tail rs mem a c cs i = record {
  bytes = λ j d g. subst (λ (x : ℕ). (mem x ≡ d) × (d ≢ 0)) (next j) (i.bytes (suc j) d g);
  ends = ap mem (sym (next (length cs))) ∙ i.ends;
  inside = λ j le. subst (λ (x : ℕ). Inside x 1 rs) (next j) (i.inside (suc j) (omega (arith, le)));
}
  where
    next : (j : ℕ) → a + suc j ≡ a + 1 + j
    next j = omega arith

IsText-cons :
    (rs : List (ℕ × ℕ)) (mem : ℕ → ℕ) (a c : ℕ) (cs : Text)
    → mem a ≡ c
    → c ≢ 0
    → Inside a 1 rs
    → IsText rs mem (a + 1) cs
    → IsText rs mem a (c ∷ cs)
IsText-cons rs mem a c cs at ne mine i = record {
  bytes = bytes;
  ends = ap mem (next (length cs)) ∙ i.ends;
  inside = inside;
}
  where
    next : (j : ℕ) → a + suc j ≡ a + 1 + j
    next j = omega arith

    first : a ≡ a + 0
    first = omega arith

    bytes : (j d : ℕ) → get_elem? (c ∷ cs) j ≡ some d → (mem (a + j) ≡ d) × (d ≢ 0)
    bytes zero d g =
        let same : c ≡ d = some-injective _ _ g in
        (ap mem (sym first) ∙ (at ∙ same), λ z. ne (same ∙ z))
    bytes (suc j) d g = subst (λ (x : ℕ). (mem x ≡ d) × (d ≢ 0)) (sym (next j)) (i.bytes j d g)

    inside : (j : ℕ) → j ≤ suc (length cs) → Inside (a + j) 1 rs
    inside zero le = subst (λ (x : ℕ). Inside x 1 rs) first mine
    inside (suc j) le =
        subst (λ (x : ℕ). Inside x 1 rs) (sym (next j)) (i.inside j (omega (arith, le)))

module _ (p : Process) (user : p.is_user ≡ true) (mem : ℕ → ℕ) where
  below : (a : ℕ) → a + 1 < 2 ^ 64 → (a + 1) % 2 ^ 64 ≡ a + 1
  below a lt = omega (arith, lt)

  Spells-IsText :
      (a : ℕ) (t : Text)
      → a + length t + 1 < 2 ^ 64
      → Spells (some p) mem a t
      → IsText p.umap mem a t
  unfolding Spells
  Spells-IsText a [] lt (ok, at) =
      let here = ((user_ptr_ok-Inside p a 1 user (omega arith) (omega (arith, lt))).0 ok).1 in
      record {
        bytes = λ j c g. absurd (ground (arith, g));
        ends = ap mem (plus_zero a) ∙ at;
        inside = λ j le. subst (λ (x : ℕ). Inside x 1 p.umap) (none_more j le) here;
      }
    where
      plus_zero : (n : ℕ) → n + 0 ≡ n
      plus_zero n = omega arith

      none_more : (j : ℕ) → j ≤ 0 → a ≡ a + j
      none_more j le = omega (arith, le)
  Spells-IsText a (c ∷ cs) lt (ok, at, ne, s) =
      IsText-cons p.umap mem a c cs at ne
        ((user_ptr_ok-Inside p a 1 user (omega arith) (omega (arith, lt))).0 ok).1
        (Spells-IsText (a + 1) cs (omega (arith, lt))
          (subst (λ (x : ℕ). Spells (some p) mem x cs) (below a (omega (arith, lt))) s))

  IsText-Spells :
      (a : ℕ) (t : Text)
      → a ≢ 0
      → a + length t + 1 < 2 ^ 64
      → IsText p.umap mem a t
      → Spells (some p) mem a t
  unfolding Spells
  IsText-Spells a [] ne lt i = (fine, ap mem first ∙ i.ends)
    where
      first : a ≡ a + 0
      first = omega arith

      fine : user_ptr_ok (some p) a 1 ≡ true
      fine =
          (user_ptr_ok-Inside p a 1 user (omega arith) (omega (arith, lt))).1
            (ne, subst (λ (x : ℕ). Inside x 1 p.umap) (sym first) (i.inside 0 (omega arith)))
  IsText-Spells a (c ∷ cs) ne lt i = (
    fine,
    ap mem first ∙ (i.bytes 0 c refl).0,
    (i.bytes 0 c refl).1,
    subst (λ (x : ℕ). Spells (some p) mem x cs) (sym (below a (omega (arith, lt))))
        (IsText-Spells (a + 1) cs (omega arith) (omega (arith, lt))
          (IsText-tail p.umap mem a c cs i)),
  )
    where
      first : a ≡ a + 0
      first = omega arith

      fine : user_ptr_ok (some p) a 1 ≡ true
      fine =
          (user_ptr_ok-Inside p a 1 user (omega arith) (omega (arith, lt))).1
            (ne, subst (λ (x : ℕ). Inside x 1 p.umap) (sym first) (i.inside 0 (omega arith)))

  -- For a current process of ring 3, an address other than 0 and a buffer of `room` bytes, at least
  -- one, where address and `room` add up to less than 2^64, `user_str` gives a text exactly if its
  -- bytes, none of them 0, and a 0 behind them stand from the address on, each in a region that the
  -- kernel gave to the process, and fit into the buffer.
  pub user_str-IsText :
      (src room : ℕ) (t : Text)
      → src ≢ 0
      → 0 < room
      → src + room < 2 ^ 64
      → (user_str (some p) mem src room ≡ some t → IsText p.umap mem src t × (length t < room))
        × (IsText p.umap mem src t × (length t < room) → user_str (some p) mem src room ≡ some t)
  unfolding user_str
  user_str-IsText src room t ne pos lt = (
    λ e.
        let (s, short) = str_loop-Spells (some p) mem room src t (ground (arith, e)) in
        (Spells-IsText src t (omega (arith, short, lt)) s, short),
    λ h.
        let s = IsText-Spells src t ne (omega (arith, h.1, lt)) h.0 in
        ground (arith, Spells-str_loop (some p) mem room src t s h.1),
  )
