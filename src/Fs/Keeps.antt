-- ===== src/Fs/Keeps.antt =====
-- Creating, writing and removing keep the tree of kernel/fs.c.
use siathos.Prelude.{
  ℕ, ◌<◌, ◌≡◌, ◌≢◌, ◌⊎◌, inl, inr, refl, sym, ap, subst, ◌∙◌, true, ◌&&◌, some, List, [], ◌∷◌,
  arith, Bool-cases, Option-cases, length, modify, get_elem?, get_elem?-modify-some, Text, same,
  same_refl, same_eq, after, after-append, ℕ_discrete, find_slot, find_slot-none,
}
use siathos.Fs.{
  Kind, Node, Fs, name_max, is_dir_kind, slash, fs_is_dir, fs_has_children, is_below, goes_on,
  dir_at, new_node, is_some, parent_of, parent_ok,
}
use siathos.Fs.Ops.{filled, removed}
use siathos.Fs.Lookup.{fs_get-none, take_all, Made}
use siathos.Fs.Cases.{Wrote, Gone}
use siathos.Fs.Finds.{Gone-others}
use siathos.Fs.Tree.{
  IsTree, parent_of-append, is_dir_of_same, dir_of_is_dir, Made-is_dir, Wrote-is_dir,
}

-- What stands in a slot after a write to slot `i`.
Stands : List Node → ℕ → (Node → Node) → ℕ → Node → Type 0
Stands ns i f j b =
    ((i ≡ j) × ((a : Node) × (get_elem? ns i ≡ some a) × (b ≡ f a)))
    ⊎ ((i ≢ j) × (get_elem? ns j ≡ some b))

modify-Stands :
    (ns ms : List Node) (i j : ℕ) (f : Node → Node) (b : Node)
    → ms ≡ modify ns i f
    → get_elem? ms j ≡ some b
    → Stands ns i f j b
unfolding Stands
modify-Stands ns ms i j f b at e =
    let (a, g, h) = get_elem?-modify-some ns i j f b (sym (ap (λ l. get_elem? l j) at) ∙ e) in
    elim (ℕ_discrete i j) [
      | yes x ↦ inl (x, (a, ap (get_elem? ns) x ∙ g, ground (arith, h)))
      | no x ↦ inr (x, g ∙ ap some (sym (ground (arith, h))))
    ]

pub Made-IsTree :
    (path : Text) (kind : Kind) (owner : ℕ) (s u : Fs)
    → length path < name_max
    → Made path kind owner s u
    → IsTree s
    → IsTree u
unfolding Stands
Made-IsTree path kind owner s u short m t = record {
  unique = λ i j a b g h ua ub e. elim (stands i a g) [
    | inl (x, (o, _, p)) ↦ elim (stands j b h) [
      | inl (y, _) ↦ sym x ∙ y
      | inr (_, h') ↦ absurd (fresh j b h' ub (sym e ∙ path_of a o p))
    ]
    | inr (_, g') ↦ elim (stands j b h) [
      | inl (_, (o, _, p)) ↦ absurd (fresh i a g' ua (e ∙ path_of b o p))
      | inr (_, h') ↦ t.unique i j a b g' h' ua ub e
    ]
  ];
  parents = λ i n q g un e ne. Made-is_dir path kind owner s u q short m (elim (stands i n g) [
    | inl (_, (o, _, p)) ↦ parent_dir q (sym (ap parent_of (path_of n o p)) ∙ e) ne
    | inr (_, g') ↦ t.parents i n q g' un e ne
  ]);
}
  where
    stands :
        (j : ℕ) (b : Node)
        → get_elem? u.nodes j ≡ some b
        → Stands s.nodes m.slot (new_node path kind owner) j b
    stands j b g = modify-Stands s.nodes u.nodes m.slot j (new_node path kind owner) b m.nodes g

    path_of : (b o : Node) → b ≡ new_node path kind owner o → b.path ≡ path
    path_of b o p = ap (λ (n : Node). n.path) p ∙ take_all 255 path (omega arith)

    fresh : (j : ℕ) (b : Node) → get_elem? s.nodes j ≡ some b → b.used ≡ true → b.path ≢ path
    fresh j b g used = fs_get-none path s j b m.missing g used

    parent_dir : (q : Text) → parent_of path ≡ some q → q ≢ [] → fs_is_dir q s ≡ true
    parent_dir [] e ne = absurd (ne refl)
    parent_dir (c ∷ cs) e ne =
        let ok = sym (ap (λ o. parent_ok o path s) e) ∙ m.parent in ground (arith, ok)

pub Wrote-IsTree :
    (path : Text) (bytes : List ℕ) (size : ℕ) (s u : Fs)
    → Wrote path bytes size s u
    → IsTree s
    → IsTree u
Wrote-IsTree path bytes size s u w t = record {
  unique = λ i j a b g h ua ub e.
      let (a', ga, pa, xa) = before i a g in
      let (b', gb, pb, xb) = before j b h in
      t.unique i j a' b' ga gb (sym xa ∙ ua) (sym xb ∙ ub) (sym pa ∙ e ∙ pb);
  parents = λ i n q g un e ne.
      let (n', gn, pn, xn) = before i n g in
      Wrote-is_dir path bytes size s u q w
        (t.parents i n' q gn (sym xn ∙ un) (sym (ap parent_of pn) ∙ e) ne);
}
  where
    before :
        (j : ℕ) (b : Node)
        → get_elem? u.nodes j ≡ some b
        → (a : Node) × (get_elem? s.nodes j ≡ some a) × (b.path ≡ a.path) × (b.used ≡ a.used)
    before j b g =
        let (a, h, e) =
          get_elem?-modify-some s.nodes w.slot j (filled bytes size w.room) b
            (sym (ap (λ l. get_elem? l j) w.nodes) ∙ g) in
        (a, h, ground (arith, e), ground (arith, e))

fs_has_children-one :
    (path : Text) (s : Fs) (j : ℕ) (n : Node)
    → get_elem? s.nodes j ≡ some n
    → is_below path n ≡ true
    → fs_has_children path s ≡ true
unfolding fs_has_children
fs_has_children-one path s j n g below = elim (Option-cases (find_slot (is_below path) s.nodes)) [
  | inl e ↦ absurd (ground (arith, below, find_slot-none (is_below path) s.nodes j n e g))
  | inr (a, e) ↦ ap is_some e
]

pub Gone-IsTree : (path : Text) (s u : Fs) → Gone path s u → IsTree s → IsTree u
unfolding Stands
Gone-IsTree path s u r t = record {
  unique = λ i j a b g h ua ub e. t.unique i j a b (before i a g ua) (before j b h ub) ua ub e;
  parents = λ i n q g un e ne.
      let was = t.parents i n q (before i n g un) un e ne in
      elim (Bool-cases (same q path)) [
        | inl x ↦ absurd (
            no_child i n (before i n g un) un (e ∙ ap some (same_eq q path x))
              (subst (λ p. fs_is_dir p s ≡ true) (same_eq q path x) was))
        | inr x ↦
            is_dir_of_same q s u
              (Gone-others path s u r q (λ h. ground (arith, x, ap (same q) (sym h), same_refl q)))
              was
      ];
}
  where
    before :
        (j : ℕ) (b : Node)
        → get_elem? u.nodes j ≡ some b
        → b.used ≡ true
        → get_elem? s.nodes j ≡ some b
    before j b g used = elim (modify-Stands s.nodes u.nodes r.slot j removed b r.nodes g) [
      | inl (_, (a, _, e)) ↦ absurd (ground (arith, used, ap (λ (n : Node). n.used) e))
      | inr (_, h) ↦ h
    ]

    no_child :
        (j : ℕ) (n : Node)
        → get_elem? s.nodes j ≡ some n
        → n.used ≡ true
        → parent_of n.path ≡ some path
        → fs_is_dir path s ≡ true
        → ⊥
    no_child j n g used e d =
        let (rest, at) = parent_of-append n.path path e in
        let below : is_below path n ≡ true =
          ap (λ b. b && goes_on (after path n.path)) used
          ∙ ap (λ p. goes_on (after path p)) at
          ∙ ap goes_on (after-append path (slash ∷ rest)) in
        let on : is_dir_kind r.old.kind ≡ true =
          sym (ap dir_at r.found) ∙ dir_of_is_dir path s r.not_root d in
        ground (
          arith,
          sym (ap (λ b. b && fs_has_children path s) on) ∙ r.empty,
          fs_has_children-one path s j n g below,
        )
