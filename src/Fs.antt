-- ===== src/Fs.antt =====
-- The memory file system of kernel/fs.c. A path is the list of its bytes. A node's `bytes` are what its
-- buffer holds below `size`. Whether `kmalloc` finds memory, and the index of the
-- user who calls (`auth_user_index_current`), are arguments.
pub mod Ops
pub mod Lookup
pub mod Cases
pub mod Finds
pub mod Others
pub mod Tree
pub mod Keeps
pub mod Histories
pub mod Move
pub mod Tests
use siathos.Prelude.{
  ℕ, zero, suc, ◌+◌, ◌-◌, ◌*◌, Bool, true, false, not, ◌&&◌, ◌||◌, Option, none, some, List, [],
  ◌∷◌, map, ltb, leb, ◌==◌, if◌then◌else◌, length, modify, take, Text, same, after, find_slot,
}

abbrev pub name_max : ℕ
name_max = 256

abbrev pub max_data : ℕ
max_data = 4 * 1024 * 1024

abbrev pub no_owner : ℕ
no_owner = 0xFF

-- `fs_type_t`
pub data Kind : Type 0 where
  file dir symlink : Kind

abbrev pub is_dir_kind : Kind → Bool
is_dir_kind dir = true
is_dir_kind _ = false

-- `fs_node_t`
pub record Node : Type 0 where
  pub path : Text
  pub bytes : List ℕ
  pub size : ℕ
  pub capacity : ℕ
  pub kind : Kind
  pub used : Bool
  pub owner : ℕ
  pub caps_req : ℕ
  pub world_read : Bool
  pub world_write : Bool

-- `fs_nodes` and `fs_count`.
pub record Fs : Type 0 where
  pub nodes : List Node
  pub count : ℕ

abbrev pub unused : Node
unused = record {
  path = [];
  bytes = [];
  size = 0;
  capacity = 0;
  kind = file;
  used = false;
  owner = no_owner;
  caps_req = 0;
  world_read = true;
  world_write = true;
}

pub fs_init : Fs → Fs
fs_init s = record { nodes = map (λ n. unused) s.nodes; count = 0 }

abbrev pub has_path : Text → Node → Bool
has_path path n = n.used && same n.path path

abbrev pub is_unused : Node → Bool
is_unused n = not n.used

unfoldable pub fs_get : Text → Fs → Option (ℕ × Node)
fs_get path s = find_slot (has_path path) s.nodes

abbrev pub slash : ℕ
slash = 47

abbrev pub root : Text
root = slash ∷ []

abbrev pub is_some {ℓ} : {A : Type ℓ} → Option A → Bool
is_some none = false
is_some (some a) = true

abbrev pub dir_at : Option (ℕ × Node) → Bool
dir_at none = false
dir_at (some (_, n)) = is_dir_kind n.kind

unfoldable pub fs_exists : Text → Fs → Bool
unfolding fs_get
fs_exists path s = same path root || is_some (fs_get path s)

unfoldable pub fs_is_dir : Text → Fs → Bool
unfolding fs_get
fs_is_dir path s = same path root || dir_at (fs_get path s)

-- The path of the node goes on behind `path` with a slash.
abbrev pub goes_on : Option Text → Bool
goes_on none = false
goes_on (some []) = false
goes_on (some (c ∷ cs)) = c == slash

abbrev pub is_below : Text → Node → Bool
is_below path n = n.used && goes_on (after path n.path)

unfoldable pub fs_has_children : Text → Fs → Bool
fs_has_children path s = is_some (find_slot (is_below path) s.nodes)

abbrev pub before_slash : ℕ → Option Text → Option Text
before_slash c (some p) = some (c ∷ p)
before_slash c none = if c == slash then some [] else none

-- The bytes before the last slash, if there is one.
unfoldable pub parent_of : Text → Option Text
parent_of [] = none
parent_of (c ∷ cs) = before_slash c (parent_of cs)

abbrev pub parent_ok : Option Text → Text → Fs → Bool
parent_ok none path s = true
parent_ok (some []) path s = not (length path == 1) && fs_is_dir root s
parent_ok (some (c ∷ cs)) path s = not (leb name_max (length (c ∷ cs))) && fs_is_dir (c ∷ cs) s

abbrev pub new_node : Text → Kind → ℕ → Node → Node
new_node path kind owner n = record {
  path = take (name_max - 1) path;
  bytes = [];
  size = 0;
  capacity = 0;
  kind = kind;
  used = true;
  owner = owner;
  caps_req = 0;
  world_read = owner == no_owner;
  world_write = false;
}

abbrev pub create_at : Option (ℕ × Node) → Text → Kind → ℕ → Fs → Bool × Fs
create_at none path kind owner s = (false, s)
create_at (some (i, _)) path kind owner s =
    if parent_ok (parent_of path) path s
    then (true, record { nodes = modify s.nodes i (new_node path kind owner); count = s.count + 1 })
    else (false, s)

-- The result `true` is FS_OK.
unfoldable pub fs_create : Text → Kind → ℕ → Fs → Bool × Fs
unfolding fs_get fs_is_dir parent_of
fs_create path kind owner s =
    if same path root || is_some (fs_get path s)
    then (false, s)
    else create_at (find_slot is_unused s.nodes) path kind owner s
