-- ===== src/Vfs/Calls.antt =====
-- The calls of kernel/vfs.c: a path is made normal, the access is checked, and fs.c does the rest.
-- `pseudo` are the bytes that `vfs_pseudo_read` writes for a path, none where it returns 0.
use siathos.Prelude.{
  ℕ, Bool, true, false, not, ◌&&◌, ◌||◌, Option, none, some, List, [], ◌∷◌, if◌then◌else◌, Text,
  after,
}
use siathos.Fs.{Kind, file, dir, Fs, name_max, fs_exists, fs_create}
use siathos.Fs.Ops.{fs_write, fs_read, fs_remove, fs_copy, fs_move}
use siathos.Vfs.{normalize}
use siathos.Vfs.Access.{Session, cap_fs_read, cap_fs_write, at_or_below, check_cap}

-- `/aisthesis` and `/kinesis`
abbrev pub aisthesis : Text
aisthesis = 47 ∷ 97 ∷ 105 ∷ 115 ∷ 116 ∷ 104 ∷ 101 ∷ 115 ∷ 105 ∷ 115 ∷ []

abbrev pub kinesis : Text
kinesis = 47 ∷ 107 ∷ 105 ∷ 110 ∷ 101 ∷ 115 ∷ 105 ∷ 115 ∷ []

abbrev pub is_pseudo : Text → Bool
is_pseudo norm = at_or_below (after aisthesis norm) || at_or_below (after kinesis norm)

-- The caller: its session, its working directory, its user index and what `kmalloc` answers.
pub record Caller : Type 0 where
  pub session : Session
  pub cwd : Text
  pub owner : ℕ
  pub has_memory : Bool

abbrev pub path_of : Caller → Text → Option Text
path_of c path = normalize c.cwd path name_max

abbrev pub create_in : Option Text → Caller → Kind → Fs → Bool × Fs
create_in none c kind s = (false, s)
create_in (some norm) c kind s =
    if check_cap norm cap_fs_write c.session then fs_create norm kind c.owner s else (false, s)

unfoldable pub vfs_create : Caller → Text → Kind → Fs → Bool × Fs
vfs_create c path kind s = create_in (path_of c path) c kind s

unfoldable pub vfs_mkdir : Caller → Text → Fs → Bool × Fs
unfolding vfs_create
vfs_mkdir c path s = vfs_create c path dir s

abbrev pub read_in : Option Text → Caller → ℕ → (Text → List ℕ) → Fs → Option (List ℕ)
read_in none c room pseudo s = none
read_in (some norm) c room pseudo s =
    if not (check_cap norm cap_fs_read c.session)
    then none
    else (if is_pseudo norm
        then elim (pseudo norm) [ [] ↦ none | b ∷ bs ↦ some (b ∷ bs) ]
        else fs_read norm room s)

unfoldable pub vfs_read : Caller → Text → ℕ → (Text → List ℕ) → Fs → Option (List ℕ)
vfs_read c path room pseudo s = read_in (path_of c path) c room pseudo s

-- A file is created first where the path does not exist.
abbrev pub write_after : Bool × Fs → Text → List ℕ → ℕ → Bool → Bool × Fs
write_after (false, s) norm bytes size has_memory = (false, s)
write_after (true, s) norm bytes size has_memory = fs_write norm bytes size has_memory s

abbrev pub made_for : Text → ℕ → Fs → Bool × Fs
made_for norm owner s = if fs_exists norm s then (true, s) else fs_create norm file owner s

abbrev pub write_in : Option Text → Caller → List ℕ → ℕ → Fs → Bool × Fs
write_in none c bytes size s = (false, s)
write_in (some norm) c bytes size s =
    if not (check_cap norm cap_fs_write c.session) || is_pseudo norm
    then (false, s)
    else write_after (made_for norm c.owner s) norm bytes size c.has_memory

unfoldable pub vfs_write : Caller → Text → List ℕ → ℕ → Fs → Bool × Fs
vfs_write c path bytes size s = write_in (path_of c path) c bytes size s

abbrev pub remove_in : Option Text → Caller → Fs → Bool × Fs
remove_in none c s = (false, s)
remove_in (some norm) c s =
    if check_cap norm cap_fs_write c.session then fs_remove norm s else (false, s)

unfoldable pub vfs_remove : Caller → Text → Fs → Bool × Fs
vfs_remove c path s = remove_in (path_of c path) c s

abbrev pub both_in :
    (Text → Text → Fs → Bool × Fs) → Option Text → Option Text → Caller → Fs → Bool × Fs
both_in act none dst c s = (false, s)
both_in act (some a) none c s = (false, s)
both_in act (some a) (some b) c s =
    if check_cap a cap_fs_read c.session && check_cap b cap_fs_write c.session
    then act a b s
    else (false, s)

unfoldable pub vfs_copy : Caller → Text → Text → Fs → Bool × Fs
vfs_copy c src dst s =
    both_in (λ a b s. fs_copy a b c.owner c.has_memory s) (path_of c src) (path_of c dst) c s

unfoldable pub vfs_move : Caller → Text → Text → Fs → Bool × Fs
vfs_move c src dst s =
    both_in (λ a b s. fs_move a b c.owner c.has_memory s) (path_of c src) (path_of c dst) c s

abbrev pub open_in : Option Text → Caller → Fs → Option Text
open_in none c s = none
open_in (some norm) c s =
    if fs_exists norm s && check_cap norm cap_fs_read c.session then some norm else none

-- The full path. The test of its length is left out, since it holds of all that `normalize` gives.
unfoldable pub vfs_open : Caller → Text → Fs → Option Text
vfs_open c [] s = some c.cwd
vfs_open c (x ∷ xs) s = open_in (path_of c (x ∷ xs)) c s
