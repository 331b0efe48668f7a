-- ===== src/Fs/Lookup.antt =====
-- What a search finds after each operation of kernel/fs.c.
use siathos.Prelude.{
  ℕ, zero, suc, ◌+◌, ◌≤◌, ◌≡◌, ◌≢◌, ◌⊎◌, inl, inr, refl, sym, ap, subst, ◌∙◌, Bool, true, false,
  ◌||◌, none, some, List, [], ◌∷◌, arith, if◌then◌else◌, Bool-cases, Option-cases, length, take,
  modify, get_elem?, Text, same, same_refl, same_eq, find_slot, find_slot-get, find_slot-none,
}
use siathos.Fs.{
  Kind, Node, Fs, has_path, is_unused, root, is_some, fs_get, parent_of, parent_ok, new_node,
  create_at, fs_create,
}

pub fs_get-some :
    (path : Text) (s : Fs) (i : ℕ) (n : Node)
    → fs_get path s ≡ some (i, n)
    → (get_elem? s.nodes i ≡ some n) × (n.used ≡ true) × (n.path ≡ path)
unfolding fs_get
fs_get-some path s i n e =
    let (g, t) = find_slot-get (has_path path) s.nodes i n e in
    let (u, p) : (n.used ≡ true) × (same n.path path ≡ true) = ground (arith, t) in
    (g, u, same_eq n.path path p)

pub fs_get-none :
    (path : Text) (s : Fs) (i : ℕ) (n : Node)
    → fs_get path s ≡ none
    → get_elem? s.nodes i ≡ some n
    → n.used ≡ true
    → n.path ≢ path
unfolding fs_get
fs_get-none path s i n e g u p =
    let off = find_slot-none (has_path path) s.nodes i n e g in
    ground (arith, off, u, ap (same n.path) (sym p), same_refl n.path)

pub take_all : {A : Type 0} (n : ℕ) (xs : List A) → length xs ≤ n → take n xs ≡ xs
take_all zero [] h = refl
take_all zero (x ∷ xs) h = absurd (omega arith)
take_all (suc n) [] h = refl
take_all (suc n) (x ∷ xs) h = ap (◌∷◌ x) (take_all n xs (omega arith))

-- A creation that succeeds.
pub record Made (path : Text) (kind : Kind) (owner : ℕ) (s u : Fs) : Type 0 where
  pub slot : ℕ
  pub old : Node
  pub was : get_elem? s.nodes slot ≡ some old
  pub spare : old.used ≡ false
  pub missing : fs_get path s ≡ none
  pub not_root : path ≢ root
  pub parent : parent_ok (parent_of path) path s ≡ true
  pub nodes : u.nodes ≡ modify s.nodes slot (new_node path kind owner)

pub fs_create-cases :
    (path : Text) (kind : Kind) (owner : ℕ) (s : Fs)
    → (fs_create path kind owner s ≡ (false, s))
      ⊎ (((fs_create path kind owner s).0 ≡ true)
          × Made path kind owner s (fs_create path kind owner s).1)
unfolding fs_create fs_get
fs_create-cases path kind owner s = elim (Bool-cases (same path root || is_some (fs_get path s))) [
  | inl bad ↦ inl (ap (λ b. if b then (false, s) else there) bad)
  | inr fine ↦ elim (Option-cases (find_slot is_unused s.nodes)) [
    | inl full ↦ inl (to_slot fine ∙ ap (λ o. create_at o path kind owner s) full)
    | inr ((i, n), e) ↦ elim (Bool-cases (parent_ok (parent_of path) path s)) [
      | inl ok ↦
          let made : fs_create path kind owner s ≡ (true, result i) =
            to_slot fine
            ∙ ap (λ o. create_at o path kind owner s) e
            ∙ ap (λ b. if b then (true, result i) else (false, s)) ok in
          let (g, free) = find_slot-get is_unused s.nodes i n e in
          inr (
            ap (λ r. r.0) made,
            subst (Made path kind owner s) (sym (ap (λ r. r.1) made)) (record {
              slot = i;
              old = n;
              was = g;
              spare = ground (arith, free);
              missing = absent fine;
              not_root = λ r.
                  ground (arith, fine, ap (same path) r, ap (λ q. same q path) r, same_refl path);
              parent = ok;
              nodes = refl;
            }),
          )
      | inr orphan ↦ inl (
          to_slot fine
          ∙ ap (λ o. create_at o path kind owner s) e
          ∙ ap (λ b. if b then (true, result i) else (false, s)) orphan)
    ]
  ]
]
  where
    there : Bool × Fs
    there = create_at (find_slot is_unused s.nodes) path kind owner s

    result : ℕ → Fs
    result i = record { nodes = modify s.nodes i (new_node path kind owner); count = s.count + 1 }

    to_slot :
        (same path root || is_some (fs_get path s)) ≡ false → fs_create path kind owner s ≡ there
    to_slot fine = ap (λ b. if b then (false, s) else there) fine

    absent : (same path root || is_some (fs_get path s)) ≡ false → fs_get path s ≡ none
    absent fine = elim (Option-cases (fs_get path s)) [
      | inl e ↦ e
      | inr (a, e) ↦ absurd (ground (arith, fine, ap is_some e))
    ]
