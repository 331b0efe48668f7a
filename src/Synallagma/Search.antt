-- ===== src/Synallagma/Search.antt =====
-- The loop of `synallagma_contract_for` of kernel/synallagma.c, by its own test.
use mathlib.Core.Option.{some-injective}
use siathos.Prelude.{
  ℕ, zero, suc, ◌<◌, ◌≤◌, ◌≡◌, inl, inr, refl, sym, ap, subst, ◌∙◌, true, false, ◌&&◌, Option, none,
  some, List, [], ◌∷◌, ltb, if◌then◌else◌, length, get_elem?, Text, same, arith, Bool-cases,
}
use siathos.Synallagma.{Contract}
use siathos.Synallagma.Guard.{guards, best_of}

-- In force over the path, and no other such contract of the list is of a longer folder.
pub record IsLongest (path : Text) (cs : List Contract) (b : Contract) : Type 0 where
  pub on : guards path b ≡ true
  pub longest :
      (i : ℕ) (c : Contract)
      → get_elem? cs i ≡ some c
      → guards path c ≡ true
      → length c.caminho ≤ length b.caminho

abbrev pub FoundLongest : Text → List Contract → Option Contract → Type 0
FoundLongest path cs none = (i : ℕ) (c : Contract) → get_elem? cs i ≡ some c → guards path c ≡ false
FoundLongest path cs (some b) = IsLongest path cs b

-- What a search that starts with a contract at hand comes to.
record Kept (path : Text) (best : Contract) (cs : List Contract) (b : Contract) : Type 0 where
  pub best_on : guards path b ≡ true
  pub near : length best.caminho ≤ length b.caminho
  pub all :
      (i : ℕ) (c : Contract)
      → get_elem? cs i ≡ some c
      → guards path c ≡ true
      → length c.caminho ≤ length b.caminho

best_of-some :
    (path : Text) (best : Contract) (cs : List Contract)
    → guards path best ≡ true
    → (b : Contract) × (best_of path (some best) cs ≡ some b) × Kept path best cs b
unfolding best_of
best_of-some path best [] on = (
  best,
  refl,
  record { best_on = on; near = omega arith; all = λ i c e g. absurd (ground (arith, e)) },
)
best_of-some path best (c ∷ cs) on =
    elim (Bool-cases (guards path c && ltb (length best.caminho) (length c.caminho))) [
      | inl new ↦
          let (g, longer) : (guards path c ≡ true) × (length best.caminho < length c.caminho) =
            ground (arith, new) in
          let (b, e, k) = best_of-some path c cs g in
          (
            b,
            ap (λ t. best_of path (if t then some c else some best) cs) new ∙ e,
            record {
              best_on = k.best_on;
              near = omega (arith, k.near);
              all = λ i d h on'. all_of c cs b k.near k.all i d h on';
            },
          )
      | inr old ↦
          let (b, e, k) = best_of-some path best cs on in
          (
            b,
            ap (λ t. best_of path (if t then some c else some best) cs) old ∙ e,
            record {
              best_on = k.best_on;
              near = k.near;
              all = λ i d h on'. old_of i d h on' old b k.near k.all;
            },
          )
    ]
  where
    leb_of : {a b : ℕ} → ltb a b ≡ false → b ≤ a
    leb_of h = ground (arith, h)

    all_of :
        (c : Contract) (cs : List Contract) (b : Contract)
        → length c.caminho ≤ length b.caminho
        → ((i : ℕ) (d : Contract)
            → get_elem? cs i ≡ some d
            → guards path d ≡ true
            → length d.caminho ≤ length b.caminho)
        → (i : ℕ) (d : Contract) → get_elem? (c ∷ cs) i ≡ some d
        → guards path d ≡ true
        → length d.caminho ≤ length b.caminho
    all_of c cs b near all zero d h on' = ground (arith, h, near)
    all_of c cs b near all (suc i) d h on' = all i d h on'

    old_of :
        (i : ℕ) (d : Contract)
        → get_elem? (c ∷ cs) i ≡ some d
        → guards path d ≡ true
        → (guards path c && ltb (length best.caminho) (length c.caminho)) ≡ false
        → (b : Contract) → length best.caminho ≤ length b.caminho
        → ((i : ℕ) (d : Contract)
            → get_elem? cs i ≡ some d
            → guards path d ≡ true
            → length d.caminho ≤ length b.caminho)
        → length d.caminho ≤ length b.caminho
    old_of zero d h on' old b near all =
        let at : c ≡ d = some-injective _ _ h in
        let on_c = ap (guards path) at ∙ on' in
        let short = sym (ap (λ t. t && ltb (length best.caminho) (length c.caminho)) on_c) ∙ old in
        omega (arith, near, ap (λ (x : Contract). length x.caminho) at, leb_of short)
    old_of (suc i) d h on' old b near all = all i d h on'

FoundLongest-cons :
    (path : Text) (c : Contract) (cs : List Contract) (o : Option Contract)
    → guards path c ≡ false
    → FoundLongest path cs o
    → FoundLongest path (c ∷ cs) o
FoundLongest-cons path c cs none off f = unguarded
  where
    unguarded : (i : ℕ) (d : Contract) → get_elem? (c ∷ cs) i ≡ some d → guards path d ≡ false
    unguarded zero d h = sym (ap (guards path) (some-injective _ _ h)) ∙ off
    unguarded (suc i) d h = f i d h
FoundLongest-cons path c cs (some b) off f = record { on = f.on; longest = longest }
  where
    longest :
        (i : ℕ) (d : Contract)
        → get_elem? (c ∷ cs) i ≡ some d
        → guards path d ≡ true
        → length d.caminho ≤ length b.caminho
    longest zero d h on =
        absurd (ground (arith, on, sym (ap (guards path) (some-injective _ _ h)) ∙ off))
    longest (suc i) d h on = f.longest i d h on

guards-length : (path : Text) (c : Contract) → guards path c ≡ true → 0 < length c.caminho
guards-length path c on = named c.caminho (ground (arith, on))
  where
    named : (p : Text) → same p [] ≡ false → 0 < length p
    named [] h = absurd (ground (arith, h))
    named (x ∷ p) h = omega arith

pub best_of-FoundLongest :
    (path : Text) (cs : List Contract) → FoundLongest path cs (best_of path none cs)
unfolding best_of
best_of-FoundLongest path [] = λ i c e. absurd (ground (arith, e))
best_of-FoundLongest path (c ∷ cs) = elim (Bool-cases (guards path c)) [
  | inl on ↦
      let new : (guards path c && ltb 0 (length c.caminho)) ≡ true =
        ground (arith, on, guards-length path c on) in
      let (b, e, k) = best_of-some path c cs on in
      subst (FoundLongest path (c ∷ cs))
        (sym (ap (λ t. best_of path (if t then some c else none) cs) new ∙ e))
        (record { on = k.best_on; longest = longest b k.near k.all })
  | inr off ↦
      let old : (guards path c && ltb 0 (length c.caminho)) ≡ false = ground (arith, off) in
      subst (FoundLongest path (c ∷ cs))
        (sym (ap (λ t. best_of path (if t then some c else none) cs) old))
        (FoundLongest-cons path c cs (best_of path none cs) off (best_of-FoundLongest path cs))
]
  where
    longest :
        (b : Contract)
        → length c.caminho ≤ length b.caminho
        → ((i : ℕ) (d : Contract)
            → get_elem? cs i ≡ some d
            → guards path d ≡ true
            → length d.caminho ≤ length b.caminho)
        → (i : ℕ) (d : Contract) → get_elem? (c ∷ cs) i ≡ some d
        → guards path d ≡ true
        → length d.caminho ≤ length b.caminho
    longest b near all zero d h on =
        omega (arith, near, ap (λ (x : Contract). length x.caminho) (some-injective _ _ h))
    longest b near all (suc i) d h on = all i d h on
