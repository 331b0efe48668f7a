-- ===== src/Fs/Tests.antt =====
-- A directory, a file in it, and a move of the file.
use siathos.Prelude.{
  ℕ, zero, suc, ◌≡◌, ◌≢◌, refl, true, false, none, some, List, [], ◌∷◌, arith, take, Text,
  get_elem?,
}
use siathos.Fs.{
  file, dir, Node, Fs, unused, fs_get, fs_create, fs_is_dir, fs_has_children, parent_of,
}
use siathos.Fs.Ops.{fs_write, fs_read, fs_remove, fs_copy, fs_move, grow}
use siathos.Fs.Finds.{OthersFound, fs_read-fs_write}
use siathos.Fs.Tree.{IsTree}
use siathos.Fs.Histories.{Call, creates, writes, step, run, run-IsTree}
use siathos.Fs.Move.{fs_move-moves}

abbrev pub bare : Fs
bare = record { nodes = unused ∷ unused ∷ unused ∷ []; count = 0 }

bare_unused : (i : ℕ) (n : Node) → get_elem? bare.nodes i ≡ some n → n.used ≡ false
bare_unused zero n e = ground (arith, e)
bare_unused (suc zero) n e = ground (arith, e)
bare_unused (suc (suc zero)) n e = ground (arith, e)
bare_unused (suc (suc (suc i))) n e = absurd (ground (arith, e))

pub bare-IsTree : IsTree bare
bare-IsTree = record {
  unique = λ i j m n g h um un e. absurd (ground (arith, um, bare_unused i m g));
  parents = λ i n q g un e ne. absurd (ground (arith, un, bare_unused i n g));
}

-- `/a`, `/a/b` and `/c`
abbrev path_a : Text
path_a = 47 ∷ 97 ∷ []

abbrev path_b : Text
path_b = 47 ∷ 97 ∷ 47 ∷ 98 ∷ []

abbrev path_c : Text
path_c = 47 ∷ 99 ∷ []

abbrev greeting : List ℕ
greeting = 104 ∷ 105 ∷ []

abbrev setup : List Call
setup = creates path_a dir 255 ∷ creates path_b file 255 ∷ writes path_b greeting 2 true ∷ []

abbrev stocked : Fs
stocked = run bare setup

run-IsTree_example : IsTree stocked
run-IsTree_example = run-IsTree bare setup (omega arith, (omega arith, (tt, tt))) bare-IsTree

keeps_full_dir : (fs_remove path_a stocked).0 ≡ false
unfolding run step fs_create fs_write fs_remove fs_get fs_is_dir fs_has_children parent_of grow
keeps_full_dir = refl

write_ok : (fs_write path_b greeting 2 true stocked).0 ≡ true
unfolding run step fs_create fs_write fs_get fs_is_dir parent_of grow
write_ok = refl

fs_read-fs_write_example :
    let u = (fs_write path_b greeting 2 true stocked).1 in
    (fs_read path_b 8 u ≡ some greeting) × OthersFound path_b stocked u
fs_read-fs_write_example = fs_read-fs_write path_b greeting 2 8 true stocked write_ok

move_ok : (fs_move path_b path_c 255 true stocked).0 ≡ true
unfolding run step fs_create fs_write fs_remove fs_copy fs_move fs_get fs_is_dir fs_has_children
    parent_of grow
move_ok = refl

read_moved : fs_read path_c 8 (fs_move path_b path_c 255 true stocked).1 ≡ some greeting
unfolding run step fs_create fs_write fs_read fs_remove fs_copy fs_move fs_get fs_is_dir
    fs_has_children parent_of grow
read_moved = refl

stocked-IsTree : IsTree stocked
stocked-IsTree = run-IsTree bare setup (omega arith, (omega arith, (tt, tt))) bare-IsTree

fs_move-moves_example :
    let u = (fs_move path_b path_c 255 true stocked).1 in
    (i : ℕ) × (n : Node) × (j : ℕ) × (m : Node) × (fs_get path_b stocked ≡ some (i, n))
    × (fs_get path_c u ≡ some (j, m))
    × ((m.bytes ≡ take n.size n.bytes) × (m.size ≡ n.size) × (m.kind ≡ file))
    × (fs_get path_b u ≡ none)
    × ((other : Text) → other ≢ path_b → other ≢ path_c → fs_get other u ≡ fs_get other stocked)
fs_move-moves_example =
    fs_move-moves path_b path_c 255 true stocked (omega arith) stocked-IsTree move_ok
