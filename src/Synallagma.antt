-- ===== src/Synallagma.antt =====
-- The contracts that guard folders, kernel/synallagma.c: the table, the reading of a `.pacto` file,
-- and the search for the contract of a path. The prompts on the console, and the listing of the
-- folder that `synallagma_scan_contracts` reads, are left out.
pub mod Guard
pub mod Best
pub mod Search
mod Tests
use siathos.Prelude.{
  ℕ, zero, suc, ◌+◌, ◌-◌, Bool, true, false, not, ◌&&◌, ◌||◌, Option, none, some, List, [], ◌∷◌,
  ◌++◌, map, ltb, leb, ◌==◌, ◌!=◌, if◌then◌else◌, length, take, set, get_or, Text, same, after,
}
use siathos.Fs.{name_max, slash}

-- `contract_t`
pub record Contract : Type 0 where
  pub nome : Text
  pub caminho : Text
  pub leitura : Bool
  pub escrita : Bool
  pub execucao : Bool
  pub voluntario : Bool
  pub revogavel : Bool
  pub ativo : Bool
  pub caps_req : ℕ

-- The first `contract_count` entries of `contracts` are `contracts`.
pub record Pacts : Type 0 where
  pub contracts : List Contract
  pub consented : List Bool

abbrev pub max_contracts : ℕ
max_contracts = 32

-- `clear_contract`
abbrev pub cleared : Contract
cleared = record {
  nome = [];
  caminho = [];
  leitura = false;
  escrita = false;
  execucao = false;
  voluntario = true;
  revogavel = true;
  ativo = false;
  caps_req = 0;
}

abbrev pub is_blank : ℕ → Bool
is_blank c = c == 32 || c == 9

pub skip_blank : Text → Text
skip_blank [] = []
skip_blank (c ∷ cs) = let rest = skip_blank cs in if is_blank c then rest else c ∷ cs

-- At most `room` bytes up to one that ends the item.
pub read_until : (ℕ → Bool) → ℕ → Text → Text
read_until ends zero cs = []
read_until ends (suc n) [] = []
read_until ends (suc n) (c ∷ cs) =
    let rest = read_until ends n cs in if ends c then [] else c ∷ rest

pub skip_until : (ℕ → Bool) → Text → Text
skip_until ends [] = []
skip_until ends (c ∷ cs) = let rest = skip_until ends cs in if ends c then c ∷ cs else rest

-- The bytes without the blanks at their end.
pub trim_end : Text → Text
trim_end [] = []
trim_end (c ∷ cs) = let rest = trim_end cs in if is_blank c && same rest [] then [] else c ∷ rest

abbrev pub equals : ℕ
equals = 61

abbrev pub quote : ℕ
quote = 34

abbrev pub ends_line : ℕ → Bool
ends_line c = c == 10 || c == 13

pub key_of : Text → Text
unfolding skip_blank read_until trim_end
key_of line = trim_end (read_until (λ c. c == equals) (name_max - 1) (skip_blank line))

abbrev pub unquoted : Text → Text
unquoted [] = []
unquoted (c ∷ cs) =
    if c == quote
    then read_until (λ x. x == quote) (name_max - 1) cs
    else read_until ends_line (name_max - 1) (c ∷ cs)

abbrev pub behind_equals : Text → Text
behind_equals [] = []
behind_equals (c ∷ cs) = cs

pub value_of : Text → Text
unfolding skip_blank read_until skip_until
value_of line = unquoted (skip_blank (behind_equals (skip_until (λ c. c == equals) line)))

-- `t`, `1`, `s` and `S` at the start of a value say yes.
abbrev pub says_yes : Text → Bool
says_yes [] = false
says_yes (c ∷ cs) = c == 116 || c == 49 || c == 115 || c == 83

abbrev pub one_of : Text → List Text → Bool
one_of key [] = false
one_of key (w ∷ ws) = same key w || one_of key ws

-- The keys, as bytes: caminho, pasta, path; nome, titulo; leitura, read; escrita, write; execucao,
-- exec; voluntario; revogavel.
abbrev pub path_keys : List Text
path_keys =
    (99 ∷ 97 ∷ 109 ∷ 105 ∷ 110 ∷ 104 ∷ 111 ∷ [])
    ∷ (112 ∷ 97 ∷ 115 ∷ 116 ∷ 97 ∷ [])
    ∷ (112 ∷ 97 ∷ 116 ∷ 104 ∷ [])
    ∷ []

abbrev pub name_keys : List Text
name_keys = (110 ∷ 111 ∷ 109 ∷ 101 ∷ []) ∷ (116 ∷ 105 ∷ 116 ∷ 117 ∷ 108 ∷ 111 ∷ []) ∷ []

abbrev pub read_keys : List Text
read_keys = (108 ∷ 101 ∷ 105 ∷ 116 ∷ 117 ∷ 114 ∷ 97 ∷ []) ∷ (114 ∷ 101 ∷ 97 ∷ 100 ∷ []) ∷ []

abbrev pub write_keys : List Text
write_keys = (101 ∷ 115 ∷ 99 ∷ 114 ∷ 105 ∷ 116 ∷ 97 ∷ []) ∷ (119 ∷ 114 ∷ 105 ∷ 116 ∷ 101 ∷ []) ∷ []

abbrev pub exec_keys : List Text
exec_keys = (101 ∷ 120 ∷ 101 ∷ 99 ∷ 117 ∷ 99 ∷ 97 ∷ 111 ∷ []) ∷ (101 ∷ 120 ∷ 101 ∷ 99 ∷ []) ∷ []

abbrev pub free_keys : List Text
free_keys = (118 ∷ 111 ∷ 108 ∷ 117 ∷ 110 ∷ 116 ∷ 97 ∷ 114 ∷ 105 ∷ 111 ∷ []) ∷ []

abbrev pub back_keys : List Text
back_keys = (114 ∷ 101 ∷ 118 ∷ 111 ∷ 103 ∷ 97 ∷ 118 ∷ 101 ∷ 108 ∷ []) ∷ []

abbrev pub assign : Text → Text → Contract → Contract
assign key value c =
    if one_of key path_keys
    then record c { caminho = value }
    else (if one_of key name_keys
        then record c { nome = take 64 value }
        else (if one_of key read_keys
            then record c { leitura = says_yes value }
            else (if one_of key write_keys
                then record c { escrita = says_yes value }
                else (if one_of key exec_keys
                    then record c { execucao = says_yes value }
                    else (if one_of key free_keys
                        then record c { voluntario = says_yes value }
                        else (if one_of key back_keys
                            then record c { revogavel = says_yes value }
                            else c))))))

pub parse_line : Contract → Text → Contract
unfolding key_of value_of
parse_line c line = assign (key_of line) (value_of line) c

abbrev pub cons_line : ℕ → List Text → List Text
cons_line c [] = (c ∷ []) ∷ []
cons_line c (l ∷ ls) = (c ∷ l) ∷ ls

pub lines : Text → List Text
lines [] = [] ∷ []
lines (c ∷ cs) = let rest = lines cs in if c == 10 then [] ∷ rest else cons_line c rest

-- Empty lines, comments and sections are skipped.
abbrev pub read_line : Contract → Text → Contract
read_line c [] = c
read_line c (x ∷ xs) = if x == 35 || x == 91 then c else parse_line c (x ∷ xs)

pub read_lines : Contract → List Text → Contract
unfolding parse_line
read_lines c [] = c
read_lines c (l ∷ ls) = read_lines (read_line c l) ls

abbrev pub with_path : Text → Contract → Contract
with_path name c = if same c.caminho [] then record c { caminho = take (name_max - 1) name } else c

-- The contract of the file `name` with these bytes.
pub contract_of : Text → Text → Contract
unfolding lines read_lines
contract_of name content =
    record (with_path name (read_lines (record cleared { nome = take 64 name }) (lines content))) {
      ativo = true;
    }
