-- ===== src/Fs/Ops.antt =====
-- `fs_write`, `fs_read`, `fs_remove`, `fs_copy` and `fs_move` of kernel/fs.c.
use siathos.Prelude.{
  ℕ, zero, suc, ◌-◌, ◌*◌, Bool, true, false, not, ◌&&◌, ◌||◌, Option, none, some, List, [], ltb,
  ◌==◌, if◌then◌else◌, modify, take, Text, same,
}
use siathos.Fs.{
  file, Node, Fs, max_data, is_dir_kind, root, is_some, fs_get, fs_has_children, fs_create,
}

-- The loop that doubles the capacity; a size is at most 2^22, which 22 rounds pass from any
-- positive start.
unfoldable pub grow : ℕ → ℕ → ℕ → ℕ
grow size cap zero = cap
grow size cap (suc n) = let more = grow size (cap * 2) n in if ltb cap size then more else cap

abbrev pub new_capacity : ℕ → ℕ → ℕ
new_capacity size cap = grow size (if cap == 0 then 256 else cap * 2) 22

abbrev pub filled : List ℕ → ℕ → ℕ → Node → Node
filled bytes size cap n = record n { bytes = take size bytes; size = size; capacity = cap }

-- `has_memory` says whether `kmalloc` returns a buffer.
abbrev pub write_at : Option (ℕ × Node) → List ℕ → ℕ → Bool → Fs → Bool × Fs
write_at none bytes size has_memory s = (false, s)
write_at (some (i, n)) bytes size has_memory s =
    if is_dir_kind n.kind
    then (false, s)
    else let grows = ltb n.capacity size in
      let cap = if grows then new_capacity size n.capacity else n.capacity in
      if grows && not has_memory
      then (false, s)
      else (true, record s { nodes = modify s.nodes i (filled bytes size cap) })

unfoldable pub fs_write : Text → List ℕ → ℕ → Bool → Fs → Bool × Fs
unfolding grow fs_get
fs_write path bytes size has_memory s =
    if ltb max_data size then (false, s) else write_at (fs_get path s) bytes size has_memory s

abbrev pub read_at : Option (ℕ × Node) → ℕ → Option (List ℕ)
read_at none room = none
read_at (some (_, n)) room =
    if is_dir_kind n.kind
    then none
    else some (take (if ltb room n.size then room else n.size) n.bytes)

-- The bytes copied out; `none` is FS_ERROR.
unfoldable pub fs_read : Text → ℕ → Fs → Option (List ℕ)
unfolding fs_get
fs_read path room s = read_at (fs_get path s) room

abbrev pub removed : Node → Node
removed n = record n { used = false; bytes = []; size = 0; capacity = 0 }

abbrev pub remove_at : Option (ℕ × Node) → Text → Fs → Bool × Fs
remove_at none path s = (false, s)
remove_at (some (i, n)) path s =
    if is_dir_kind n.kind && fs_has_children path s
    then (false, s)
    else (true, record { nodes = modify s.nodes i removed; count = s.count - 1 })

unfoldable pub fs_remove : Text → Fs → Bool × Fs
unfolding fs_get fs_has_children
fs_remove path s = if same path root then (false, s) else remove_at (fs_get path s) path s

-- A write of the source's bytes after the creation of the destination.
abbrev pub copy_made : Bool × Fs → Text → Node → Bool → Bool × Fs
copy_made (false, s) dst n has_memory = (false, s)
copy_made (true, s) dst n has_memory = fs_write dst n.bytes n.size has_memory s

abbrev pub copy_at : Option (ℕ × Node) → Text → ℕ → Bool → Fs → Bool × Fs
copy_at none dst owner has_memory s = (false, s)
copy_at (some (_, n)) dst owner has_memory s =
    if is_dir_kind n.kind || is_some (fs_get dst s)
    then (false, s)
    else copy_made (fs_create dst file owner s) dst n has_memory

unfoldable pub fs_copy : Text → Text → ℕ → Bool → Fs → Bool × Fs
unfolding fs_get fs_create fs_write
fs_copy src dst owner has_memory s = copy_at (fs_get src s) dst owner has_memory s

abbrev pub move_made : Bool × Fs → Text → Bool × Fs
move_made (false, s) src = (false, s)
move_made (true, s) src = fs_remove src s

unfoldable pub fs_move : Text → Text → ℕ → Bool → Fs → Bool × Fs
unfolding fs_copy fs_remove
fs_move src dst owner has_memory s = move_made (fs_copy src dst owner has_memory s) src
