-- ===== src/Fs/Others.antt =====
-- Each call of kernel/fs.c, whatever it results in, leaves the paths that it does not name alone.
use siathos.Prelude.{
  ℕ, ◌<◌, ◌≡◌, ◌≢◌, inl, inr, refl, ap, ◌∙◌, Bool, true, false, ◌||◌, Option, none, some, List,
  if◌then◌else◌, length, Text, Bool-cases,
}
use siathos.Fs.{Kind, file, Node, Fs, name_max, fs_get, fs_create, is_dir_kind, is_some}
use siathos.Fs.Ops.{fs_write, fs_remove, fs_copy, fs_move, copy_made, copy_at, move_made}
use siathos.Fs.Lookup.{fs_create-cases}
use siathos.Fs.Cases.{fs_write-cases, fs_remove-cases}
use siathos.Fs.Finds.{OthersFound, Made-others, Wrote-others, Gone-others}

-- One call of fs.c leaves the other paths alone.
pub fs_create-others :
    (path : Text) (kind : Kind) (owner : ℕ) (s : Fs)
    → length path < name_max
    → OthersFound path s (fs_create path kind owner s).1
fs_create-others path kind owner s h = elim (fs_create-cases path kind owner s) [
  | inl e ↦ λ other ne. ap (λ r. fs_get other r.1) e
  | inr (_, m) ↦ Made-others path kind owner s _ h m
]

pub fs_write-others :
    (path : Text) (bytes : List ℕ) (size : ℕ) (has_memory : Bool) (s : Fs)
    → OthersFound path s (fs_write path bytes size has_memory s).1
fs_write-others path bytes size has_memory s = elim (fs_write-cases path bytes size has_memory s) [
  | inl e ↦ λ other ne. ap (λ r. fs_get other r.1) e
  | inr (_, w) ↦ Wrote-others path bytes size s _ w
]

pub fs_remove-others : (path : Text) (s : Fs) → OthersFound path s (fs_remove path s).1
fs_remove-others path s = elim (fs_remove-cases path s) [
  | inl e ↦ λ other ne. ap (λ r. fs_get other r.1) e
  | inr (_, g) ↦ Gone-others path s _ g
]

copy_made-others :
    (r : Bool × Fs) (dst : Text) (n : Node) (has_memory : Bool)
    → OthersFound dst r.1 (copy_made r dst n has_memory).1
copy_made-others (false, s) dst n has_memory other ne = refl
copy_made-others (true, s) dst n has_memory other ne =
    fs_write-others dst n.bytes n.size has_memory s other ne

copy_at-others :
    (o : Option (ℕ × Node)) (dst : Text) (owner : ℕ) (has_memory : Bool) (s : Fs)
    → length dst < name_max
    → OthersFound dst s (copy_at o dst owner has_memory s).1
copy_at-others none dst owner has_memory s h other ne = refl
copy_at-others (some (i, n)) dst owner has_memory s h other ne =
    elim (Bool-cases (is_dir_kind n.kind || is_some (fs_get dst s))) [
      | inl bad ↦ ap (λ b. fs_get other (if b then (false, s) else body).1) bad
      | inr fine ↦
          ap (λ b. fs_get other (if b then (false, s) else body).1) fine
          ∙ copy_made-others (fs_create dst file owner s) dst n has_memory other ne
          ∙ fs_create-others dst file owner s h other ne
    ]
  where
    body : Bool × Fs
    body = copy_made (fs_create dst file owner s) dst n has_memory

pub fs_copy-others :
    (src dst : Text) (owner : ℕ) (has_memory : Bool) (s : Fs)
    → length dst < name_max
    → OthersFound dst s (fs_copy src dst owner has_memory s).1
unfolding fs_copy
fs_copy-others src dst owner has_memory s h = copy_at-others (fs_get src s) dst owner has_memory s h

move_made-others : (r : Bool × Fs) (src : Text) → OthersFound src r.1 (move_made r src).1
move_made-others (false, s) src other ne = refl
move_made-others (true, s) src other ne = fs_remove-others src s other ne

pub fs_move-others :
    (src dst : Text) (owner : ℕ) (has_memory : Bool) (s : Fs) (other : Text)
    → length dst < name_max
    → other ≢ src
    → other ≢ dst
    → fs_get other (fs_move src dst owner has_memory s).1 ≡ fs_get other s
unfolding fs_move
fs_move-others src dst owner has_memory s other h not_src not_dst =
    move_made-others (fs_copy src dst owner has_memory s) src other not_src
    ∙ fs_copy-others src dst owner has_memory s h other not_dst
