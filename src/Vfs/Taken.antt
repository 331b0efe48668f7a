-- ===== src/Vfs/Taken.antt =====
-- A move of kernel/vfs.c takes a file out of a folder that its caller may only read.
use siathos.Prelude.{
  ℕ, ◌≡◌, ◌<◌, inl, inr, refl, sym, ap, ◌∙◌, Bool, true, false, ◌&&◌, Option, none, some,
  if◌then◌else◌, Text, length, arith, Bool-cases,
}
use siathos.Fs.{Node, Fs, name_max, fs_get}
use siathos.Fs.Ops.{fs_move, fs_remove}
use siathos.Fs.Tree.{IsTree}
use siathos.Fs.Move.{fs_move-moves}
use siathos.Vfs.Access.{cap_fs_read, cap_fs_write, check_cap}
use siathos.Vfs.Calls.{Caller, path_of, both_in, vfs_move, remove_in, vfs_remove}
use siathos.Vfs.Kept.{path_of-short}

both_in-takes :
    (o d : Option Text) (c : Caller) (a : Text) (s : Fs)
    → o ≡ some a
    → ((b : Text) → d ≡ some b → length b < name_max)
    → IsTree s
    → (both_in (λ a b s. fs_move a b c.owner c.has_memory s) o d c s).0 ≡ true
    → ((i : ℕ) × (n : Node) × (fs_get a s ≡ some (i, n)))
      × (fs_get a (both_in (λ a b s. fs_move a b c.owner c.has_memory s) o d c s).1 ≡ none)
both_in-takes none d c a s e h t ok = absurd (ground arith)
both_in-takes (some q) none c a s e h t ok = absurd (ground arith)
both_in-takes (some q) (some b) c a s e h t ok =
    elim (Bool-cases (check_cap q cap_fs_read c.session && check_cap b cap_fs_write c.session)) [
      | inr off ↦
          absurd (ground (arith, sym ok ∙ ap (λ t. (if t then moved else (false, s)).0) off))
      | inl on ↦
          let done = ap (λ t. if t then moved else (false, s)) on in
          let (i, n, j, m, found, _, _, gone, _) =
            fs_move-moves q b c.owner c.has_memory s (h b refl) t (sym (ap (λ r. r.0) done) ∙ ok) in
          let same_path : a ≡ q = ground (arith, e) in
          (
            (i, n, ap (λ p. fs_get p s) same_path ∙ found),
            ap (λ r. fs_get a r.1) done ∙ ap (λ p. fs_get p moved.1) same_path ∙ gone,
          )
    ]
  where
    moved : Bool × Fs
    moved = fs_move q b c.owner c.has_memory s

-- A `vfs_move` that succeeds removes its source from the tree, even where `vfs_check_cap` refuses the
-- caller the writing, and so `vfs_remove`, of that path.
pub vfs_move-takes :
    (c : Caller) (src dst a : Text) (s : Fs)
    → path_of c src ≡ some a
    → check_cap a cap_fs_write c.session ≡ false
    → IsTree s
    → (vfs_move c src dst s).0 ≡ true
    → ((i : ℕ) × (n : Node) × (fs_get a s ≡ some (i, n)))
      × (fs_get a (vfs_move c src dst s).1 ≡ none)
      × ((vfs_remove c src s) ≡ (false, s))
unfolding vfs_move vfs_remove
vfs_move-takes c src dst a s e shut t ok =
    let (was, gone) =
      both_in-takes (path_of c src) (path_of c dst) c a s e (path_of-short c dst) t ok in
    (
      was,
      gone,
      ap (λ o. remove_in o c s) e ∙ ap (λ b. if b then fs_remove a s else (false, s)) shut,
    )
