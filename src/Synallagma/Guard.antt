-- ===== src/Synallagma/Guard.antt =====
-- `synallagma_contract_for`, `synallagma_consented` and their relatives in kernel/synallagma.c.
use siathos.Prelude.{
  ℕ, Bool, true, false, not, ◌&&◌, ◌||◌, Option, none, some, List, [], ◌∷◌, ltb, ◌==◌,
  if◌then◌else◌, length, set, get_or, Text, same, after, find_slot,
}
use siathos.Fs.{slash}
use siathos.Synallagma.{Contract, Pacts}

-- The byte before the end of a path is a slash.
unfoldable pub ends_slash : Text → Bool
ends_slash [] = false
ends_slash (c ∷ []) = c == slash
ends_slash (c ∷ (d ∷ cs)) = ends_slash (d ∷ cs)

abbrev pub bounded : Option Text → Text → Bool
bounded none caminho = false
bounded (some []) caminho = true
bounded (some (c ∷ cs)) caminho = c == slash || ends_slash caminho

-- The contract is in force and guards the path, or a folder above it.
abbrev pub guards : Text → Contract → Bool
guards path c = c.ativo && not (same c.caminho []) && bounded (after c.caminho path) c.caminho

abbrev pub better : Text → Option Contract → Contract → Option Contract
better path best c =
    if guards path c && ltb (elim best [ none ↦ 0 | some b ↦ length b.caminho ]) (length c.caminho)
    then some c
    else best

unfoldable pub best_of : Text → Option Contract → List Contract → Option Contract
best_of path best [] = best
best_of path best (c ∷ cs) = best_of path (better path best c) cs

unfoldable pub contract_for : Text → Pacts → Option Contract
unfolding best_of ends_slash
contract_for path s = best_of path none s.contracts

abbrev pub is_of : Text → Contract → Bool
is_of caminho c = c.ativo && same c.caminho caminho

pub guards_folder : Text → Pacts → Bool
guards_folder path s = elim (find_slot (is_of path) s.contracts) [ none ↦ false | some p ↦ true ]

-- `consent_grant`; an index past the table changes nothing.
pub consent_grant : ℕ → Pacts → Pacts
consent_grant i s = record s { consented = set s.consented i true }

abbrev pub consent_get : ℕ → Pacts → Bool
consent_get i s = get_or s.consented i false

unfoldable pub consented_to : Text → Pacts → Bool
consented_to caminho s = elim (find_slot (is_of caminho) s.contracts) [
  | none ↦ true
  | some (i, c) ↦ consent_get i s
]
