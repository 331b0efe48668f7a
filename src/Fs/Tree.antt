-- ===== src/Fs/Tree.antt =====
-- The nodes of kernel/fs.c form a tree: no path stands twice, and the directory that a path lies in
-- exists.
use mathlib.Core.Option.{some-injective}
use siathos.Prelude.{
  ℕ, ◌<◌, ◌≡◌, ◌≢◌, inl, inr, refl, sym, ap, ◌∙◌, true, ◌||◌, Option, none, some, List, [], ◌∷◌,
  ◌++◌, arith, ◌==◌, if◌then◌else◌, Bool-cases, length, get_elem?, Text, same, same_refl, same_eq,
  same_ne,
}
use siathos.Fs.{
  Kind, Node, Fs, name_max, root, slash, fs_get, fs_is_dir, dir_at, parent_of, before_slash,
}
use siathos.Fs.Lookup.{Made}
use siathos.Fs.Cases.{Wrote}
use siathos.Fs.Finds.{Made-others, Wrote-others}

pub record IsTree (s : Fs) : Type 0 where
  pub unique :
      (i j : ℕ) (m n : Node)
      → get_elem? s.nodes i ≡ some m
      → get_elem? s.nodes j ≡ some n
      → m.used ≡ true
      → n.used ≡ true
      → m.path ≡ n.path
      → i ≡ j
  pub parents :
      (i : ℕ) (n : Node) (q : Text)
      → get_elem? s.nodes i ≡ some n
      → n.used ≡ true
      → parent_of n.path ≡ some q
      → q ≢ []
      → fs_is_dir q s ≡ true

before_slash-append :
    (c : ℕ) (cs q : Text) (o : Option Text)
    → parent_of cs ≡ o
    → ((p : Text) → o ≡ some p → (rest : Text) × (cs ≡ p ++ (slash ∷ rest)))
    → before_slash c o ≡ some q
    → (rest : Text) × (c ∷ cs ≡ q ++ (slash ∷ rest))
before_slash-append c cs q none at ih e = elim (Bool-cases (c == slash)) [
  | inl here ↦
      let nothing : [] ≡ q =
        some-injective _ _ (sym (ap (λ b. if b then some [] else none) here) ∙ e) in
      let c_slash : c ≡ slash = ground (arith, here) in
      (cs, ap (λ (x : ℕ). x ∷ cs) c_slash ∙ ap (λ p. p ++ (slash ∷ cs)) nothing)
  | inr other ↦ absurd (ground (arith, sym (ap (λ b. if b then some [] else none) other) ∙ e))
]
before_slash-append c cs q (some p) at ih e =
    let (rest, h) = ih p refl in
    (rest, ap (◌∷◌ c) h ∙ ap (λ r. r ++ (slash ∷ rest)) (some-injective _ _ e))

-- A path goes on behind the directory it lies in with a slash.
pub parent_of-append :
    (p q : Text) → parent_of p ≡ some q → (rest : Text) × (p ≡ q ++ (slash ∷ rest))
unfolding parent_of
parent_of-append [] q e = absurd (ground arith)
parent_of-append (c ∷ cs) q e =
    before_slash-append c cs q (parent_of cs) refl (λ p h. parent_of-append cs p h) e

pub is_dir_of_same :
    (q : Text) (s u : Fs) → fs_get q u ≡ fs_get q s → fs_is_dir q s ≡ true → fs_is_dir q u ≡ true
unfolding fs_is_dir
is_dir_of_same q s u e d = ap (λ o. same q root || dir_at o) e ∙ d

pub dir_of_is_dir :
    (q : Text) (s : Fs) → q ≢ root → fs_is_dir q s ≡ true → dir_at (fs_get q s) ≡ true
unfolding fs_is_dir
dir_of_is_dir q s ne d = sym (ap (λ b. b || dir_at (fs_get q s)) (same_ne q root ne)) ∙ d

-- Every directory is one after a creation too.
pub Made-is_dir :
    (path : Text) (kind : Kind) (owner : ℕ) (s u : Fs) (q : Text)
    → length path < name_max
    → Made path kind owner s u
    → fs_is_dir q s ≡ true
    → fs_is_dir q u ≡ true
Made-is_dir path kind owner s u q short m d = elim (Bool-cases (same q path)) [
  | inl e ↦
      let at : q ≡ path = same_eq q path e in
      let on = dir_of_is_dir q s (λ r. m.not_root (sym at ∙ r)) d in
      absurd (ground (arith, on, ap (λ p. dir_at (fs_get p s)) at ∙ ap dir_at m.missing))
  | inr e ↦
      is_dir_of_same q s u
        (Made-others path kind owner s u short m q
          (λ h. ground (arith, e, ap (same q) (sym h), same_refl q)))
        d
]

pub Wrote-is_dir :
    (path : Text) (bytes : List ℕ) (size : ℕ) (s u : Fs) (q : Text)
    → Wrote path bytes size s u
    → fs_is_dir q s ≡ true
    → fs_is_dir q u ≡ true
unfolding fs_is_dir
Wrote-is_dir path bytes size s u q w d = elim (Bool-cases (same q root)) [
  | inl r ↦ ap (λ b. b || dir_at (fs_get q u)) r
  | inr r ↦ elim (Bool-cases (same q path)) [
    | inl e ↦
        let at : q ≡ path = same_eq q path e in
        let on : dir_at (fs_get q s) ≡ true = sym (ap (λ b. b || dir_at (fs_get q s)) r) ∙ d in
        absurd (ground (arith, w.plain, on, ap (λ p. dir_at (fs_get p s)) at ∙ ap dir_at w.found))
    | inr e ↦
        is_dir_of_same q s u
          (Wrote-others path bytes size s u w q
            (λ h. ground (arith, e, ap (same q) (sym h), same_refl q)))
          d
  ]
]
