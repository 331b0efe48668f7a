-- ===== src/Synallagma/Tests.antt =====
-- A contract read from its file, and the search for the contract of a path.
use siathos.Prelude.{◌≡◌, refl, true, false, [], ◌∷◌, Text}
use siathos.Synallagma.{
  Contract, Pacts, cleared, skip_blank, read_until, skip_until, trim_end, key_of, value_of,
  parse_line, lines, read_lines, contract_of,
}
use siathos.Synallagma.Guard.{contract_for}
use siathos.Synallagma.Best.{FoundBest, contract_for-FoundBest}

-- ` path = "/a"` and `read=1` on two lines.
abbrev pact : Text
pact =
    32 ∷ 112 ∷ 97 ∷ 116 ∷ 104 ∷ 32 ∷ 61 ∷ 32 ∷ 34 ∷ 47 ∷ 97 ∷ 34 ∷ 10 ∷ 114 ∷ 101 ∷ 97 ∷ 100 ∷ 61
    ∷ 49 ∷ []

abbrev read_a : Contract
read_a = record cleared { nome = 120 ∷ []; caminho = 47 ∷ 97 ∷ []; leitura = true; ativo = true }

contract_of-pact : contract_of (120 ∷ []) pact ≡ read_a
unfolding contract_of lines read_lines parse_line key_of value_of skip_blank read_until skip_until
    trim_end
contract_of-pact = refl

abbrev pacts : Pacts
pacts = record {
  contracts = read_a ∷ record read_a { caminho = 47 ∷ 97 ∷ 47 ∷ 98 ∷ [] } ∷ [];
  consented = false ∷ true ∷ [];
}

contract_for-FoundBest_example :
    FoundBest (47 ∷ 97 ∷ 47 ∷ 98 ∷ []) pacts.contracts (contract_for (47 ∷ 97 ∷ 47 ∷ 98 ∷ []) pacts)
contract_for-FoundBest_example = contract_for-FoundBest (47 ∷ 97 ∷ 47 ∷ 98 ∷ []) pacts
