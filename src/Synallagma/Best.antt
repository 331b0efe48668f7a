-- ===== src/Synallagma/Best.antt =====
-- `synallagma_contract_for` of kernel/synallagma.c finds the contract of the longest folder.
use mathlib.Core.Option.{some-injective}
use siathos.Prelude.{
  ℕ, ◌<◌, ◌≤◌, ◌≡◌, inl, inr, refl, sym, ap, ◌∙◌, true, false, Option, none, some, List, [], ◌∷◌,
  ◌++◌, ◌==◌, length, get_elem?, Text, same, after, after-append, arith, Bool-cases, Option-cases,
}
use siathos.Fs.{slash}
use siathos.Synallagma.{Contract, Pacts}
use siathos.Synallagma.Guard.{ends_slash, bounded, guards, best_of, contract_for}
use siathos.Synallagma.Search.{FoundLongest, best_of-FoundLongest}

-- What follows the folder's path `p` is nothing or starts with a slash, or `p` itself ends with one.
pub data IsEdge (p rest : Text) : Type 0 where
  ends : rest ≡ [] → IsEdge p rest
  below : (names : Text) → rest ≡ slash ∷ names → IsEdge p rest
  slashed : (q : Text) → p ≡ q ++ (slash ∷ []) → IsEdge p rest

-- A contract in force with a folder, which is the path or one above it.
pub record Guards (path : Text) (c : Contract) : Type 0 where
  pub active : c.ativo ≡ true
  pub named : 0 < length c.caminho
  pub rest : Text
  pub starts : path ≡ c.caminho ++ rest
  pub edge : IsEdge c.caminho rest

-- It guards the path, and no contract of the list that does is of a longer folder.
pub record IsBest (path : Text) (cs : List Contract) (b : Contract) : Type 0 where
  pub on : Guards path b
  pub longest :
      (i : ℕ) (c : Contract)
      → get_elem? cs i ≡ some c
      → Guards path c
      → length c.caminho ≤ length b.caminho

abbrev pub FoundBest : Text → List Contract → Option Contract → Type 0
FoundBest path cs none = (i : ℕ) (c : Contract) → get_elem? cs i ≡ some c → ¬ Guards path c
FoundBest path cs (some b) = IsBest path cs b

ends_slash-append : (q : Text) → ends_slash (q ++ (slash ∷ [])) ≡ true
unfolding ends_slash
ends_slash-append [] = refl
ends_slash-append (c ∷ []) = refl
ends_slash-append (c ∷ (d ∷ q)) = ends_slash-append (d ∷ q)

ends_slash_split : (p : Text) → ends_slash p ≡ true → (q : Text) × (p ≡ q ++ (slash ∷ []))
unfolding ends_slash
ends_slash_split [] e = absurd (ground (arith, e))
ends_slash_split (c ∷ []) e =
    let at : c ≡ slash = ground (arith, e) in ([], ap (λ (x : ℕ). x ∷ []) at)
ends_slash_split (c ∷ (d ∷ p)) e = let (q, s) = ends_slash_split (d ∷ p) e in (c ∷ q, ap (◌∷◌ c) s)

after_split : (p a r : Text) → after p a ≡ some r → a ≡ p ++ r
after_split [] a r e = some-injective _ _ e
after_split (x ∷ p) [] r e = absurd (ground (arith, e))
after_split (x ∷ p) (y ∷ a) r e = elim (Bool-cases (x == y)) [
  | inl same_head ↦
      let at : y ≡ x = ground (arith, same_head) in
      let tail : after p a ≡ some r = ground (arith, same_head, e) in
      ap (λ (n : ℕ). n ∷ a) at ∙ ap (◌∷◌ x) (after_split p a r tail)
  | inr other ↦ absurd (ground (arith, other, e))
]

bounded-IsEdge : (rest p : Text) → bounded (some rest) p ≡ true → IsEdge p rest
bounded-IsEdge [] p e = ends refl
bounded-IsEdge (c ∷ cs) p e = elim (Bool-cases (c == slash)) [
  | inl at ↦ let here : c ≡ slash = ground (arith, at) in below cs (ap (λ (n : ℕ). n ∷ cs) here)
  | inr off ↦ let (q, s) = ends_slash_split p (ground (arith, off, e)) in slashed q s
]

IsEdge-bounded : (rest p : Text) → IsEdge p rest → bounded (some rest) p ≡ true
IsEdge-bounded rest p (ends e) = ap (λ (r : Text). bounded (some r) p) e
IsEdge-bounded rest p (below names e) = ap (λ (r : Text). bounded (some r) p) e
IsEdge-bounded [] p (slashed q e) = refl
IsEdge-bounded (c ∷ cs) p (slashed q e) =
    let last : ends_slash p ≡ true = ap ends_slash e ∙ ends_slash-append q in ground (arith, last)

named-length : (p : Text) → same p [] ≡ false → 0 < length p
named-length [] h = absurd (ground (arith, h))
named-length (x ∷ p) h = omega arith

length-named : (p : Text) → 0 < length p → same p [] ≡ false
length-named [] h = absurd (omega arith)
length-named (x ∷ p) h = refl

guards-Guards : (path : Text) (c : Contract) → guards path c ≡ true → Guards path c
guards-Guards path c e =
    let on : c.ativo ≡ true = ground (arith, e) in
    let whole : same c.caminho [] ≡ false = ground (arith, e) in
    let edge : bounded (after c.caminho path) c.caminho ≡ true = ground (arith, e) in
    elim (Option-cases (after c.caminho path)) [
      | inl other ↦
          absurd (ground (arith, sym (ap (λ (o : Option Text). bounded o c.caminho) other) ∙ edge))
      | inr (r, at) ↦ record {
        active = on;
        named = named-length c.caminho whole;
        rest = r;
        starts = after_split c.caminho path r at;
        edge =
            bounded-IsEdge r c.caminho
              (sym (ap (λ (o : Option Text). bounded o c.caminho) at) ∙ edge);
      }
    ]

Guards-guards : (path : Text) (c : Contract) → Guards path c → guards path c ≡ true
Guards-guards path c g =
    let whole = length-named c.caminho g.named in
    let at : after c.caminho path ≡ some g.rest =
      ap (after c.caminho) g.starts ∙ after-append c.caminho g.rest in
    let edge : bounded (after c.caminho path) c.caminho ≡ true =
      ap (λ (o : Option Text). bounded o c.caminho) at ∙ IsEdge-bounded g.rest c.caminho g.edge in
    ground (arith, g.active, whole, edge)

FoundLongest-FoundBest :
    (path : Text) (cs : List Contract) (o : Option Contract)
    → FoundLongest path cs o
    → FoundBest path cs o
FoundLongest-FoundBest path cs none f =
    λ i c e g. absurd (ground (arith, sym (f i c e) ∙ Guards-guards path c g))
FoundLongest-FoundBest path cs (some b) f = record {
  on = guards-Guards path b f.on;
  longest = λ i c e g. f.longest i c e (Guards-guards path c g);
}

-- `synallagma_contract_for` gives no contract only if none in force guards the path or a folder
-- above it; a contract that it gives does, and no other contract that does is of a longer folder.
pub contract_for-FoundBest :
    (path : Text) (s : Pacts) → FoundBest path s.contracts (contract_for path s)
unfolding contract_for
contract_for-FoundBest path s =
    FoundLongest-FoundBest path s.contracts (best_of path none s.contracts)
      (best_of-FoundLongest path s.contracts)
