-- ===== src/Vfs/Tests.antt =====
-- Paths, and a caller without contracts.
use siathos.Prelude.{ℕ, ◌≡◌, refl, true, false, none, some, List, [], ◌∷◌, arith, Text}
use siathos.Fs.{file, dir, Node, Fs, fs_get, fs_create, fs_is_dir, fs_has_children, parent_of}
use siathos.Fs.Ops.{fs_write, fs_copy, fs_move, fs_remove, grow}
use siathos.Fs.Tree.{IsTree}
use siathos.Fs.Tests.{bare, bare-IsTree}
use siathos.Fs.Histories
use siathos.Synallagma.Guard.{contract_for, best_of}
use siathos.Vfs.{normalize, pieces, walk, go_up, append_piece}
use siathos.Vfs.Path.{IsNormal}
use siathos.Vfs.Normal.{normalize-IsNormal}
use siathos.Vfs.Fixed.{normalize-normalize}
use siathos.Vfs.Access.{cap_fs_write, check_cap}
use siathos.Vfs.Calls.{Caller, path_of, vfs_move, vfs_remove}
use siathos.Vfs.Kept.{Call, creates, writes, removes, run, vfs_run-IsTree}
use siathos.Vfs.Guarded.{vfs_run-kept}
use siathos.Vfs.Taken.{vfs_move-takes}

-- `a/./b/../c` and `/x/a/c`
abbrev winding : Text
winding = 97 ∷ 47 ∷ 46 ∷ 47 ∷ 98 ∷ 47 ∷ 46 ∷ 46 ∷ 47 ∷ 99 ∷ []

abbrev path_x : Text
path_x = 47 ∷ 120 ∷ []

abbrev straight : Text
straight = 47 ∷ 120 ∷ 47 ∷ 97 ∷ 47 ∷ 99 ∷ []

normalize-winding : normalize path_x winding 256 ≡ some straight
unfolding normalize pieces walk go_up append_piece parent_of
normalize-winding = refl

normalize-IsNormal_example : IsNormal 256 straight
normalize-IsNormal_example =
    normalize-IsNormal path_x 97 (47 ∷ 46 ∷ 47 ∷ 98 ∷ 47 ∷ 46 ∷ 46 ∷ 47 ∷ 99 ∷ []) 256 straight
      (omega arith) normalize-winding

normalize-normalize_example : normalize (47 ∷ []) straight 256 ≡ some straight
normalize-normalize_example =
    normalize-normalize path_x (47 ∷ []) 97 (47 ∷ 46 ∷ 47 ∷ 98 ∷ 47 ∷ 46 ∷ 46 ∷ 47 ∷ 99 ∷ []) 256
      straight (omega arith) (omega arith) normalize-winding

abbrev guest : Caller
guest = record {
  session = record {
    user = none;
    process = none;
    pacts = record { contracts = []; consented = [] };
  };
  cwd = 47 ∷ [];
  owner = 255;
  has_memory = true;
}

-- `/oikos`, `/oikos/f` and `/g`
abbrev path_oikos : Text
path_oikos = 47 ∷ 111 ∷ 105 ∷ 107 ∷ 111 ∷ 115 ∷ []

abbrev path_f : Text
path_f = 47 ∷ 111 ∷ 105 ∷ 107 ∷ 111 ∷ 115 ∷ 47 ∷ 102 ∷ []

abbrev path_g : Text
path_g = 47 ∷ 103 ∷ []

-- The kernel itself creates the files of `/oikos`.
abbrev system : Fs
system =
    Histories.run bare
      (Histories.Call.creates path_oikos dir 255 ∷ Histories.Call.creates path_f file 255 ∷ [])

system-IsTree : IsTree system
system-IsTree =
    Histories.run-IsTree bare
      (Histories.Call.creates path_oikos dir 255 ∷ Histories.Call.creates path_f file 255 ∷ [])
      (omega arith, (omega arith, tt)) bare-IsTree

guest_may_not : check_cap path_f cap_fs_write guest.session ≡ false
unfolding check_cap contract_for best_of
guest_may_not = refl

abbrev tries : List Call
tries = removes guest path_f ∷ writes guest path_f (1 ∷ 2 ∷ []) 2 ∷ creates guest path_g file ∷ []

vfs_run-IsTree_example : IsTree (run system tries)
vfs_run-IsTree_example = vfs_run-IsTree system tries system-IsTree

vfs_run-kept_example : fs_get path_f (run system tries) ≡ fs_get path_f system
vfs_run-kept_example =
    vfs_run-kept path_f system tries (guest_may_not, (guest_may_not, (guest_may_not, tt)))

path_f_found : path_of guest path_f ≡ some path_f
unfolding normalize pieces walk go_up append_piece parent_of
path_f_found = refl

move_ok : (vfs_move guest path_f path_g system).0 ≡ true
unfolding vfs_move check_cap contract_for best_of normalize pieces walk go_up append_piece parent_of
    fs_move fs_copy fs_create fs_write fs_remove fs_get fs_is_dir fs_has_children grow Histories.run
    Histories.step
move_ok = refl

vfs_move-takes_example :
    ((i : ℕ) × (n : Node) × (fs_get path_f system ≡ some (i, n)))
    × (fs_get path_f (vfs_move guest path_f path_g system).1 ≡ none)
    × (vfs_remove guest path_f system ≡ (false, system))
vfs_move-takes_example =
    vfs_move-takes guest path_f path_g path_f system path_f_found guest_may_not system-IsTree
      move_ok
