-- ===== src/Elf.antt =====
-- The ELF loader of kernel/elf.c: the checks of a file and the regions that it asks to map. A file is
-- a list of bytes. A read behind its end, which the C code does not guard, is `strays`.
pub mod Reference
pub mod Accepted
mod Tests
use siathos.Prelude.{
  ℕ, zero, suc, ◌+◌, ◌-◌, ◌*◌, ◌%◌, ◌^◌, Bool, true, false, not, ◌&&◌, ◌||◌, Option, none, some,
  List, [], ◌∷◌, length, get_elem?, leb, ltb, ◌==◌, ◌!=◌, ◌>>=◌, if◌then◌else◌,
}

-- The loop of `u16`, `u32` and `u64`: little-endian bytes from `p` on.
pub read_le : ℕ → List ℕ → ℕ → Option ℕ
read_le zero img p = some 0
read_le (suc k) img p = do b ← get_elem? img p; rest ← read_le k img (suc p); some (b + 256 * rest)

abbrev pub u16 : List ℕ → ℕ → Option ℕ
u16 = read_le 2

abbrev pub u32 : List ℕ → ℕ → Option ℕ
u32 = read_le 4

abbrev pub u64 : List ℕ → ℕ → Option ℕ
u64 = read_le 8

-- `ureg_t`; `src` is the offset in the file.
pub record UserRegion : Type 0 where
  pub vaddr : ℕ
  pub src : ℕ
  pub file_size : ℕ
  pub mem_size : ℕ
  pub flags : ℕ

pub record Header : Type 0 where
  pub machine : ℕ
  pub entry : ℕ
  pub phoff : ℕ
  pub phentsz : ℕ
  pub phnum : ℕ

pub data Loaded : Type 0 where
  refused : Loaded
  strays : Loaded
  loads : List UserRegion → Loaded

abbrev pub offset_range : ℕ
offset_range = 2 ^ 64

abbrev pub kernel_space : ℕ
kernel_space = 0xffff800000000000

abbrev pub max_regions : ℕ
max_regions = 7

-- The six bytes of a 64-bit little-endian file.
abbrev pub is_elf64 : List ℕ → Bool
is_elf64 (a ∷ b ∷ c ∷ d ∷ e ∷ f ∷ rest) =
    a == 0x7f && b == 0x45 && c == 0x4c && d == 0x46 && e == 2 && f == 1
is_elf64 _ = false

abbrev pub read_header : List ℕ → Option Header
read_header img = do
  machine ← u16 img 18
  entry ← u64 img 24
  phoff ← u64 img 32
  phentsz ← u16 img 54
  phnum ← u16 img 56
  some
      (record { machine = machine; entry = entry; phoff = phoff; phentsz = phentsz; phnum = phnum })

abbrev pub header_ok : List ℕ → Header → Bool
header_ok img h =
    h.machine == 0x3e
    && h.phnum != 0
    && leb 56 h.phentsz
    && leb ((h.phoff + h.phnum * h.phentsz) % offset_range) (length img)

-- `img+phoff + i*phentsz`
abbrev pub header_at : Header → ℕ → ℕ
header_at h i = (h.phoff + i * h.phentsz) % offset_range

abbrev pub read_region : List ℕ → ℕ → Option UserRegion
read_region img ph = do
  poff ← u64 img (ph + 8)
  pvaddr ← u64 img (ph + 16)
  pfilesz ← u64 img (ph + 32)
  pmemsz ← u64 img (ph + 40)
  flags ← u32 img (ph + 4)
  some
      (record { vaddr = pvaddr; src = poff; file_size = pfilesz; mem_size = pmemsz; flags = flags })

abbrev pub region_ok : List ℕ → UserRegion → Bool
region_ok img r =
    leb ((r.src + r.file_size) % offset_range) (length img) && ltb r.vaddr kernel_space

abbrev pub put_first : UserRegion → Loaded → Loaded
put_first r (loads rs) = loads (r ∷ rs)
put_first r refused = refused
put_first r strays = strays

-- One round of the loop, from the words that it reads on; `rest` are the rounds after it.
abbrev pub take_region : List ℕ → ℕ → Option UserRegion → Loaded → Loaded
take_region img room none rest = strays
take_region img room (some r) rest =
    if not (region_ok img r)
    then refused
    else if room == 1
    then loads (r ∷ [])
    else put_first r rest

abbrev pub load_round : List ℕ → ℕ → ℕ → Option ℕ → Loaded → Loaded → Loaded
load_round img ph room none skipped rest = strays
load_round img ph room (some type) skipped rest =
    if type != 1 then skipped else take_region img room (read_region img ph) rest

-- The loop over the program headers; `left` are the rounds to come, `room` the free places of `regs`.
pub load_loop : ℕ → ℕ → ℕ → List ℕ → Header → Loaded
load_loop zero i room img h = loads []
load_loop (suc left) i room img h =
    let skipped = load_loop left (suc i) room img h in
    let rest = load_loop left (suc i) (room - 1) img h in
    load_round img (header_at h i) room (u32 img (header_at h i)) skipped rest

abbrev pub not_empty : Loaded → Loaded
not_empty (loads []) = refused
not_empty l = l

abbrev pub load_header : List ℕ → Option Header → Loaded
load_header img none = strays
load_header img (some h) =
    if header_ok img h then not_empty (load_loop h.phnum 0 max_regions img h) else refused

-- `exec_elf_core` up to the call of `proc_create_user_regions`.
pub elf_regions : List ℕ → Loaded
elf_regions img =
    if ltb (length img) 64 || not (is_elf64 img) then refused else load_header img (read_header img)
