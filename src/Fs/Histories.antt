-- ===== src/Fs/Histories.antt =====
-- Whole histories of calls of kernel/fs.c, and what a move does.
use siathos.Prelude.{
  ℕ, ◌<◌, inl, inr, sym, subst, Bool, true, false, ◌||◌, Option, none, some, List, [], ◌∷◌, All,
  Bool-cases, length, Text,
}
use siathos.Fs.{Kind, file, Node, Fs, name_max, is_dir_kind, fs_get, fs_create, is_some}
use siathos.Fs.Ops.{fs_write, fs_remove, copy_made, copy_at, fs_copy, move_made, fs_move}
use siathos.Fs.Lookup.{fs_create-cases}
use siathos.Fs.Cases.{fs_write-cases, fs_remove-cases}
use siathos.Fs.Tree.{IsTree}
use siathos.Fs.Keeps.{Made-IsTree, Wrote-IsTree, Gone-IsTree}

pub fs_create-IsTree :
    (path : Text) (kind : Kind) (owner : ℕ) (s : Fs)
    → length path < name_max
    → IsTree s
    → IsTree (fs_create path kind owner s).1
fs_create-IsTree path kind owner s short t = elim (fs_create-cases path kind owner s) [
  | inl e ↦ subst (λ r. IsTree r.1) (sym e) t
  | inr (_, m) ↦ Made-IsTree path kind owner s _ short m t
]

pub fs_write-IsTree :
    (path : Text) (bytes : List ℕ) (size : ℕ) (has_memory : Bool) (s : Fs)
    → IsTree s
    → IsTree (fs_write path bytes size has_memory s).1
fs_write-IsTree path bytes size has_memory s t =
    elim (fs_write-cases path bytes size has_memory s) [
      | inl e ↦ subst (λ r. IsTree r.1) (sym e) t
      | inr (_, w) ↦ Wrote-IsTree path bytes size s _ w t
    ]

pub fs_remove-IsTree : (path : Text) (s : Fs) → IsTree s → IsTree (fs_remove path s).1
fs_remove-IsTree path s t = elim (fs_remove-cases path s) [
  | inl e ↦ subst (λ r. IsTree r.1) (sym e) t
  | inr (_, g) ↦ Gone-IsTree path s _ g t
]

copy_made-IsTree :
    (r : Bool × Fs) (dst : Text) (n : Node) (has_memory : Bool)
    → IsTree r.1
    → IsTree (copy_made r dst n has_memory).1
copy_made-IsTree (false, s) dst n has_memory t = t
copy_made-IsTree (true, s) dst n has_memory t = fs_write-IsTree dst n.bytes n.size has_memory s t

copy_at-IsTree :
    (o : Option (ℕ × Node)) (dst : Text) (owner : ℕ) (has_memory : Bool) (s : Fs)
    → length dst < name_max
    → IsTree s
    → IsTree (copy_at o dst owner has_memory s).1
copy_at-IsTree none dst owner has_memory s short t = t
copy_at-IsTree (some (i, n)) dst owner has_memory s short t =
    elim (Bool-cases (is_dir_kind n.kind || is_some (fs_get dst s))) [
      | inl bad ↦ rw bad t
      | inr fine ↦ rw fine (
          copy_made-IsTree (fs_create dst file owner s) dst n has_memory
            (fs_create-IsTree dst file owner s short t))
    ]

pub fs_copy-IsTree :
    (src dst : Text) (owner : ℕ) (has_memory : Bool) (s : Fs)
    → length dst < name_max
    → IsTree s
    → IsTree (fs_copy src dst owner has_memory s).1
unfolding fs_copy
fs_copy-IsTree src dst owner has_memory s short t =
    copy_at-IsTree (fs_get src s) dst owner has_memory s short t

move_made-IsTree : (r : Bool × Fs) (src : Text) → IsTree r.1 → IsTree (move_made r src).1
move_made-IsTree (false, s) src t = t
move_made-IsTree (true, s) src t = fs_remove-IsTree src s t

pub fs_move-IsTree :
    (src dst : Text) (owner : ℕ) (has_memory : Bool) (s : Fs)
    → length dst < name_max
    → IsTree s
    → IsTree (fs_move src dst owner has_memory s).1
unfolding fs_move
fs_move-IsTree src dst owner has_memory s short t =
    move_made-IsTree (fs_copy src dst owner has_memory s) src
      (fs_copy-IsTree src dst owner has_memory s short t)

-- A call, with the user and the answer of `kmalloc`.
pub data Call : Type 0 where
  creates : Text → Kind → ℕ → Call
  writes : Text → List ℕ → ℕ → Bool → Call
  removes : Text → Call
  copies moves : Text → Text → ℕ → Bool → Call

unfoldable pub step : Fs → Call → Fs
step s (creates path kind owner) = (fs_create path kind owner s).1
step s (writes path bytes size has_memory) = (fs_write path bytes size has_memory s).1
step s (removes path) = (fs_remove path s).1
step s (copies src dst owner has_memory) = (fs_copy src dst owner has_memory s).1
step s (moves src dst owner has_memory) = (fs_move src dst owner has_memory s).1

unfoldable pub run : Fs → List Call → Fs
run s [] = s
run s (c ∷ cs) = run (step s c) cs

-- The paths that a call may create fit a node.
abbrev pub Fits : Call → Type 0
Fits (creates path kind owner) = length path < name_max
Fits (copies src dst owner has_memory) = length dst < name_max
Fits (moves src dst owner has_memory) = length dst < name_max
Fits (writes path bytes size has_memory) = Unit
Fits (removes path) = Unit

step-IsTree : (s : Fs) (c : Call) → Fits c → IsTree s → IsTree (step s c)
unfolding step
step-IsTree s (creates path kind owner) f t = fs_create-IsTree path kind owner s f t
step-IsTree s (writes path bytes size has_memory) f t =
    fs_write-IsTree path bytes size has_memory s t
step-IsTree s (removes path) f t = fs_remove-IsTree path s t
step-IsTree s (copies src dst owner has_memory) f t = fs_copy-IsTree src dst owner has_memory s f t
step-IsTree s (moves src dst owner has_memory) f t = fs_move-IsTree src dst owner has_memory s f t

-- Any sequence of creations, writes, removals, copies and moves, of paths that fit a node where
-- they are to be created, keeps the files a tree: no path stands in two nodes, and the directory
-- that a node's path lies in exists.
pub run-IsTree : (s : Fs) (cs : List Call) → All Fits cs → IsTree s → IsTree (run s cs)
unfolding run
run-IsTree s [] f t = t
run-IsTree s (c ∷ cs) (f, fs) t = run-IsTree (step s c) cs fs (step-IsTree s c f t)
