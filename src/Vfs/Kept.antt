-- ===== src/Vfs/Kept.antt =====
-- What no call of kernel/vfs.c breaks: the tree of files, and what a caller may not write.
use mathlib.Core.Option.{some-injective}
use siathos.Prelude.{
  ℕ, ◌-◌, ◌<◌, ◌≡◌, inl, inr, refl, ap, Bool, true, false, not, ◌&&◌, ◌||◌, Option, none, some,
  List, [], ◌∷◌, length, length-take, Text, arith, Bool-cases,
}
use siathos.Fs.{Kind, file, Fs, name_max, fs_exists}
use siathos.Fs.Tree.{IsTree}
use siathos.Fs.Histories.{
  fs_create-IsTree, fs_write-IsTree, fs_remove-IsTree, fs_copy-IsTree, fs_move-IsTree,
}
use siathos.Vfs.{normalize}
use siathos.Vfs.Normal.{normalize-IsNormal}
use siathos.Vfs.Access.{cap_fs_read, cap_fs_write, check_cap}
use siathos.Vfs.Calls.{
  is_pseudo, Caller, path_of, create_in, vfs_create, write_after, made_for, write_in, vfs_write,
  remove_in, vfs_remove, both_in, vfs_copy, vfs_move,
}

-- Every path that a call hands to fs.c fits a node.
pub path_of-short : (c : Caller) (path q : Text) → path_of c path ≡ some q → length q < name_max
unfolding normalize
path_of-short c [] q e =
    omega (arith, length-take (name_max - 1) c.cwd, ap length (some-injective _ _ e))
path_of-short c (x ∷ xs) q e = (normalize-IsNormal c.cwd x xs name_max q (omega arith) e).fits

-- A call of a caller.
pub data Call : Type 0 where
  creates : Caller → Text → Kind → Call
  writes : Caller → Text → List ℕ → ℕ → Call
  removes : Caller → Text → Call
  copies moves : Caller → Text → Text → Call

unfoldable pub step : Fs → Call → Fs
step s (creates c path kind) = (vfs_create c path kind s).1
step s (writes c path bytes size) = (vfs_write c path bytes size s).1
step s (removes c path) = (vfs_remove c path s).1
step s (copies c src dst) = (vfs_copy c src dst s).1
step s (moves c src dst) = (vfs_move c src dst s).1

unfoldable pub run : Fs → List Call → Fs
run s [] = s
run s (c ∷ cs) = run (step s c) cs

Short : Option Text → Type 0
Short o = (q : Text) → o ≡ some q → length q < name_max

create_in-IsTree :
    (o : Option Text) (c : Caller) (kind : Kind) (s : Fs)
    → Short o
    → IsTree s
    → IsTree (create_in o c kind s).1
unfolding Short
create_in-IsTree none c kind s h t = t
create_in-IsTree (some q) c kind s h t = elim (Bool-cases (check_cap q cap_fs_write c.session)) [
  | inl on ↦ rw on (fs_create-IsTree q kind c.owner s (h q refl) t)
  | inr off ↦ rw off t
]

made_for-IsTree :
    (q : Text) (owner : ℕ) (s : Fs) → length q < name_max → IsTree s → IsTree (made_for q owner s).1
made_for-IsTree q owner s h t = elim (Bool-cases (fs_exists q s)) [
  | inl on ↦ rw on t
  | inr off ↦ rw off (fs_create-IsTree q file owner s h t)
]

write_after-IsTree :
    (r : Bool × Fs) (q : Text) (bytes : List ℕ) (size : ℕ) (has_memory : Bool)
    → IsTree r.1
    → IsTree (write_after r q bytes size has_memory).1
write_after-IsTree (false, s) q bytes size has_memory t = t
write_after-IsTree (true, s) q bytes size has_memory t = fs_write-IsTree q bytes size has_memory s t

write_in-IsTree :
    (o : Option Text) (c : Caller) (bytes : List ℕ) (size : ℕ) (s : Fs)
    → Short o
    → IsTree s
    → IsTree (write_in o c bytes size s).1
unfolding Short
write_in-IsTree none c bytes size s h t = t
write_in-IsTree (some q) c bytes size s h t =
    elim (Bool-cases (not (check_cap q cap_fs_write c.session) || is_pseudo q)) [
      | inl bad ↦ rw bad t
      | inr fine ↦ rw fine (
          write_after-IsTree (made_for q c.owner s) q bytes size c.has_memory
            (made_for-IsTree q c.owner s (h q refl) t))
    ]

remove_in-IsTree : (o : Option Text) (c : Caller) (s : Fs) → IsTree s → IsTree (remove_in o c s).1
remove_in-IsTree none c s t = t
remove_in-IsTree (some q) c s t = elim (Bool-cases (check_cap q cap_fs_write c.session)) [
  | inl on ↦ rw on (fs_remove-IsTree q s t)
  | inr off ↦ rw off t
]

both_in-IsTree :
    (act : Text → Text → Fs → Bool × Fs) (o p : Option Text) (c : Caller) (s : Fs)
    → ((a b : Text) → length b < name_max → IsTree (act a b s).1)
    → Short p
    → IsTree s
    → IsTree (both_in act o p c s).1
unfolding Short
both_in-IsTree act none p c s f h t = t
both_in-IsTree act (some a) none c s f h t = t
both_in-IsTree act (some a) (some b) c s f h t =
    elim (Bool-cases (check_cap a cap_fs_read c.session && check_cap b cap_fs_write c.session)) [
      | inl on ↦ rw on (f a b (h b refl))
      | inr off ↦ rw off t
    ]

step-IsTree : (s : Fs) (k : Call) → IsTree s → IsTree (step s k)
unfolding step vfs_create vfs_write vfs_remove vfs_copy vfs_move Short
step-IsTree s (creates c path kind) t =
    create_in-IsTree (path_of c path) c kind s (path_of-short c path) t
step-IsTree s (writes c path bytes size) t =
    write_in-IsTree (path_of c path) c bytes size s (path_of-short c path) t
step-IsTree s (removes c path) t = remove_in-IsTree (path_of c path) c s t
step-IsTree s (copies c src dst) t =
    both_in-IsTree _ (path_of c src) (path_of c dst) c s
      (λ a b h. fs_copy-IsTree a b c.owner c.has_memory s h t) (path_of-short c dst) t
step-IsTree s (moves c src dst) t =
    both_in-IsTree _ (path_of c src) (path_of c dst) c s
      (λ a b h. fs_move-IsTree a b c.owner c.has_memory s h t) (path_of-short c dst) t

-- Any sequence of calls of vfs.c that create, write, remove, copy or move, by any callers and with
-- any paths, keeps the files a tree: no path stands in two nodes, and the directory that a node's
-- path lies in exists.
pub vfs_run-IsTree : (s : Fs) (ks : List Call) → IsTree s → IsTree (run s ks)
unfolding run
vfs_run-IsTree s [] t = t
vfs_run-IsTree s (k ∷ ks) t = vfs_run-IsTree (step s k) ks (step-IsTree s k t)
