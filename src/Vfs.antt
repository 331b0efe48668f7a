-- ===== src/Vfs.antt =====
-- `vfs_normalize` of kernel/vfs.c. Buffers hold the bytes before the terminator; `room` is the size
-- of `out`.
pub mod Path
pub mod Normal
pub mod Fixed
pub mod Access
pub mod Calls
pub mod Kept
pub mod Guarded
pub mod Taken
mod Tests
use siathos.Prelude.{
  ℕ, zero, suc, ◌+◌, ◌-◌, ◌*◌, Bool, true, false, not, ◌&&◌, ◌||◌, Option, none, some, List, [],
  ◌∷◌, ◌++◌, ltb, leb, ◌==◌, if◌then◌else◌, length, take, Text, same,
}
use siathos.Fs.{slash, root, parent_of, name_max}

abbrev pub cons_piece : ℕ → List Text → List Text
cons_piece c [] = (c ∷ []) ∷ []
cons_piece c (p ∷ ps) = (c ∷ p) ∷ ps

-- What lies between the slashes; the loops of `vfs_normalize` skip the empty pieces.
unfoldable pub pieces : Text → List Text
pieces [] = [] ∷ []
pieces (c ∷ cs) = let rest = pieces cs in if c == slash then [] ∷ rest else cons_piece c rest

abbrev pub dot : Text
dot = 46 ∷ []

abbrev pub dots : Text
dots = 46 ∷ 46 ∷ []

-- `comp` holds at most 31 bytes of a piece.
abbrev pub piece_max : ℕ
piece_max = 31

-- `strrchr(out,'/')` and the cut there.
abbrev pub cut : Option Text → Text → Text
cut none out = out
cut (some []) out = take 1 out
cut (some (c ∷ cs)) out = c ∷ cs

unfoldable pub go_up : Text → Text
unfolding parent_of
go_up out = cut (parent_of out) out

unfoldable pub append_piece : ℕ → Text → Text → Option Text
append_piece room out comp =
    if ltb 1 (length out)
    then (if leb room (length out + 1 + length comp) then none else some (out ++ (slash ∷ comp)))
    else (if leb room (1 + length comp) then none else some (take 1 out ++ comp))

abbrev pub enter_comp : ℕ → Text → Text → Option Text
enter_comp room out comp =
    if same comp dot
    then some out
    else (if same comp dots then some (go_up out) else append_piece room out comp)

-- One round of the outer loop.
abbrev pub enter : ℕ → Text → Text → Option Text
enter room out [] = some out
enter room out (c ∷ cs) = enter_comp room out (take piece_max (c ∷ cs))

unfoldable pub walk : ℕ → List Text → Text → Option Text
walk room [] out = some out
walk room (p ∷ ps) out = elim (enter room out p) [ none ↦ none | some o ↦ walk room ps o ]

-- `tmp`: an absolute path, or the path behind the working directory.
abbrev pub whole : Text → Text → Text
whole cwd [] = []
whole cwd (c ∷ cs) =
    if c == slash
    then take (name_max * 2 - 1) (c ∷ cs)
    else take (name_max * 2 - 1) ((if same cwd root then [] else cwd) ++ (slash ∷ (c ∷ cs)))

abbrev pub or_root : Text → Text
or_root [] = root
or_root (c ∷ cs) = c ∷ cs

-- `none` is FS_ERROR; `cwd` is not null.
unfoldable pub normalize : Text → Text → ℕ → Option Text
unfolding pieces go_up append_piece walk
normalize cwd [] room = some (take (room - 1) cwd)
normalize cwd (c ∷ cs) room = elim (walk room (pieces (whole cwd (c ∷ cs))) root) [
  | none ↦ none
  | some o ↦ some (or_root o)
]
