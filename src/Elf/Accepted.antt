-- ===== src/Elf/Accepted.antt =====
-- Which files kernel/elf.c accepts, and what it maps of them, by the bytes of the file.
use siathos.Prelude.{
  ℕ, ◌+◌, ◌*◌, ◌^◌, ◌%◌, ◌<◌, ◌≤◌, ◌≡◌, ◌≢◌, ◌⊎◌, subst, inl, inr, refl, sym, ap, ◌∙◌, Bool, true,
  false, ◌&&◌, List, [], ◌∷◌, All, length, get_or, take, leb, if◌then◌else◌, arith,
}
use siathos.Elf.{UserRegion, Header, Loaded, is_elf64, header_ok, not_empty, elf_regions}
use siathos.Elf.Reference.{header_of, segments, all_ok, expected, elf_regions-expected}

-- A file of at least 64 bytes, for x86-64, whose table of program headers is not empty and lies in it.
pub record IsElf (img : List ℕ) : Type 0 where
  pub long : 64 ≤ length img
  pub magic : take 6 img ≡ 0x7f ∷ b'E' ∷ b'L' ∷ b'F' ∷ 2 ∷ 1 ∷ []
  pub x86_64 : (header_of img).machine ≡ 0x3e
  pub headers : (header_of img).phnum ≢ 0
  pub wide : 56 ≤ (header_of img).phentsz
  pub table : (header_of img).phoff + (header_of img).phnum * (header_of img).phentsz ≤ length img

-- The segment starts below the kernel's half of the addresses, and its bytes end in the file, where
-- the end is counted modulo 2^64.
abbrev pub IsFitting : List ℕ → UserRegion → Type 0
IsFitting img r = ((r.src + r.file_size) % 2 ^ 64 ≤ length img) × (r.vaddr < 0xffff800000000000)

-- The segments to map: the first seven of type PT_LOAD, at least one, all fitting.
pub record IsLoaded (img : List ℕ) (rs : List UserRegion) : Type 0 where
  pub elf : IsElf img
  pub first : rs ≡ take 7 (segments (header_of img).phnum 0 img (header_of img))
  pub some_one : rs ≢ []
  pub fitting : All (λ r. IsFitting img r) rs

is_elf64-take :
    (img : List ℕ) → is_elf64 img ≡ true → take 6 img ≡ 0x7f ∷ b'E' ∷ b'L' ∷ b'F' ∷ 2 ∷ 1 ∷ []
is_elf64-take [] h = absurd (ground (arith, h))
is_elf64-take (a ∷ []) h = absurd (ground (arith, h))
is_elf64-take (a ∷ b ∷ []) h = absurd (ground (arith, h))
is_elf64-take (a ∷ b ∷ c ∷ []) h = absurd (ground (arith, h))
is_elf64-take (a ∷ b ∷ c ∷ d ∷ []) h = absurd (ground (arith, h))
is_elf64-take (a ∷ b ∷ c ∷ d ∷ e ∷ []) h = absurd (ground (arith, h))
is_elf64-take (a ∷ b ∷ c ∷ d ∷ e ∷ f ∷ rest) h =
    let a' : a ≡ 0x7f = ground (arith, h) in
    let b' : b ≡ 0x45 = ground (arith, h) in
    let c' : c ≡ 0x4c = ground (arith, h) in
    let d' : d ≡ 0x46 = ground (arith, h) in
    let e' : e ≡ 2 = ground (arith, h) in
    let f' : f ≡ 1 = ground (arith, h) in rw (a', b', c', d', e', f') refl

take-is_elf64 :
    (img : List ℕ) → take 6 img ≡ 0x7f ∷ b'E' ∷ b'L' ∷ b'F' ∷ 2 ∷ 1 ∷ [] → is_elf64 img ≡ true
take-is_elf64 [] h = absurd (ground (arith, ap (λ (l : List ℕ). length l) h))
take-is_elf64 (a ∷ []) h = absurd (ground (arith, ap (λ (l : List ℕ). length l) h))
take-is_elf64 (a ∷ b ∷ []) h = absurd (ground (arith, ap (λ (l : List ℕ). length l) h))
take-is_elf64 (a ∷ b ∷ c ∷ []) h = absurd (ground (arith, ap (λ (l : List ℕ). length l) h))
take-is_elf64 (a ∷ b ∷ c ∷ d ∷ []) h = absurd (ground (arith, ap (λ (l : List ℕ). length l) h))
take-is_elf64 (a ∷ b ∷ c ∷ d ∷ e ∷ []) h = absurd (ground (arith, ap (λ (l : List ℕ). length l) h))
take-is_elf64 (a ∷ b ∷ c ∷ d ∷ e ∷ f ∷ rest) h = ground (
  arith,
  ap (λ (l : List ℕ). get_or l 0 0) h,
  ap (λ (l : List ℕ). get_or l 1 0) h,
  ap (λ (l : List ℕ). get_or l 2 0) h,
  ap (λ (l : List ℕ). get_or l 3 0) h,
  ap (λ (l : List ℕ). get_or l 4 0) h,
  ap (λ (l : List ℕ). get_or l 5 0) h,
)

all_ok-All :
    (img : List ℕ) (rs : List UserRegion) → all_ok img rs ≡ true → All (λ r. IsFitting img r) rs
all_ok-All img [] e = tt
all_ok-All img (r ∷ rs) e =
    ((ground (arith, e), ground (arith, e)), all_ok-All img rs (ground (arith, e)))

All-all_ok :
    (img : List ℕ) (rs : List UserRegion) → All (λ r. IsFitting img r) rs → all_ok img rs ≡ true
All-all_ok img [] h = refl
All-all_ok img (r ∷ rs) ((fits, low), h) = ground (arith, fits, low, All-all_ok img rs h)

abbrev regions_of : Loaded → List UserRegion
regions_of (Loaded.loads rs) = rs
regions_of Loaded.refused = []
regions_of Loaded.strays = []

abbrev kind_of : Loaded → ℕ
kind_of Loaded.refused = 0
kind_of Loaded.strays = 1
kind_of (Loaded.loads rs) = 2

kinds_differ : (a b : Loaded) → kind_of a ≢ kind_of b → a ≢ b
kinds_differ a b ne e = ne (ap kind_of e)

abbrev choice : Bool → Bool → List UserRegion → Loaded
choice header fit rs =
    if header then not_empty (if fit then Loaded.loads rs else Loaded.refused) else Loaded.refused

-- The file is refused, or all its tests hold.
choice-cases :
    (header fit : Bool) (rs : List UserRegion)
    → (choice header fit rs ≡ Loaded.refused)
      ⊎ ((header ≡ true) × (fit ≡ true) × (rs ≢ []) × (choice header fit rs ≡ Loaded.loads rs))
choice-cases false fit rs = inl refl
choice-cases true false rs = inl refl
choice-cases true true [] = inl refl
choice-cases true true (r ∷ rs) =
    inr (refl, refl, (λ e. ground (arith, ap (λ (l : List UserRegion). length l) e)), refl)

choice-loads :
    (header fit : Bool) (rs : List UserRegion)
    → header ≡ true
    → fit ≡ true
    → rs ≢ []
    → choice header fit rs ≡ Loaded.loads rs
choice-loads header fit [] h f ne = absurd (ne refl)
choice-loads header fit (r ∷ rs) h f ne = rw (h, f) refl

three : (a b c : Bool) → (a && b && c) ≡ true → (a ≡ true) × (b ≡ true) × (c ≡ true)
three a b c e = ground (arith, e)

all_three : (a b c : Bool) → a ≡ true → b ≡ true → c ≡ true → (a && b && c) ≡ true
all_three a b c x y z = ground (arith, x, y, z)

header_ok-table :
    (img : List ℕ) (h : Header)
    → h.phoff + h.phnum * h.phentsz < 2 ^ 64
    → header_ok img h ≡ true
    → (h.machine ≡ 0x3e)
      × (h.phnum ≢ 0)
      × (56 ≤ h.phentsz)
      × (h.phoff + h.phnum * h.phentsz ≤ length img)
header_ok-table img h lt ok =
    (ground (arith, ok), ground (arith, ok), ground (arith, ok), ground (arith, ok, lt))

table-header_ok :
    (img : List ℕ) (h : Header)
    → h.phoff + h.phnum * h.phentsz < 2 ^ 64
    → h.machine ≡ 0x3e
    → h.phnum ≢ 0
    → 56 ≤ h.phentsz
    → h.phoff + h.phnum * h.phentsz ≤ length img
    → header_ok img h ≡ true
table-header_ok img h lt x n w t = ground (arith, lt, x, n, w, t)

module _ (img : List ℕ)
    (lt : (header_of img).phoff + (header_of img).phnum * (header_of img).phentsz < 2 ^ 64) where
  wanted : List UserRegion
  wanted = take 7 (segments (header_of img).phnum 0 img (header_of img))

  header : Bool
  header = leb 64 (length img) && is_elf64 img && header_ok img (header_of img)

  header-IsElf : header ≡ true → IsElf img
  unfolding header
  header-IsElf h =
      let (long, elf, ok) = three (leb 64 (length img)) (is_elf64 img) _ h in
      let (x, n, w, t) = header_ok-table img (header_of img) lt ok in
      record {
        long = long_of (length img) long;
        magic = is_elf64-take img elf;
        x86_64 = x;
        headers = n;
        wide = w;
        table = t;
      }
    where
      long_of : (n : ℕ) → leb 64 n ≡ true → 64 ≤ n
      long_of n e = ground (arith, e)

  IsElf-header : IsElf img → header ≡ true
  unfolding header
  IsElf-header e =
      all_three (leb 64 (length img)) (is_elf64 img) _ (long_of (length img) e.long)
        (take-is_elf64 img e.magic)
        (table-header_ok img (header_of img) lt e.x86_64 e.headers e.wide e.table)
    where
      long_of : (n : ℕ) → 64 ≤ n → leb 64 n ≡ true
      long_of n e = ground (arith, e)

  expected-choice : expected img ≡ choice header (all_ok img wanted) wanted
  unfolding header wanted
  expected-choice = refl

  choice-IsLoaded :
      (choice header (all_ok img wanted) wanted ≢ Loaded.strays)
      × ((rs : List UserRegion)
          → choice header (all_ok img wanted) wanted ≡ Loaded.loads rs
          → IsLoaded img rs)
      × ((rs : List UserRegion)
          → IsLoaded img rs
          → choice header (all_ok img wanted) wanted ≡ Loaded.loads rs)
  unfolding wanted
  choice-IsLoaded = (never, loaded, accepts)
    where
      outcome : Loaded
      outcome = choice header (all_ok img wanted) wanted

      never : outcome ≢ Loaded.strays
      never e = elim (choice-cases header (all_ok img wanted) wanted) [
        | inl off ↦ kinds_differ Loaded.refused Loaded.strays (ground arith) (sym off ∙ e)
        | inr (h, f, ne, on) ↦
            kinds_differ (Loaded.loads wanted) Loaded.strays (ground arith) (sym on ∙ e)
      ]

      unloaded : (rs : List UserRegion) → outcome ≡ Loaded.refused → outcome ≢ Loaded.loads rs
      unloaded rs off e = kinds_differ Loaded.refused (Loaded.loads rs) (ground arith) (sym off ∙ e)

      loaded : (rs : List UserRegion) → outcome ≡ Loaded.loads rs → IsLoaded img rs
      loaded rs e = elim (choice-cases header (all_ok img wanted) wanted) [
        | inl off ↦ absurd (unloaded rs off e)
        | inr (h, f, ne, on) ↦
            let at : wanted ≡ rs = ap regions_of (sym on ∙ e) in
            record {
              elf = header-IsElf h;
              first = sym at;
              some_one = λ none_left. ne (at ∙ none_left);
              fitting =
                  subst (λ (l : List UserRegion). All (λ r. IsFitting img r) l) at
                    (all_ok-All img wanted f);
            }
      ]

      accepts : (rs : List UserRegion) → IsLoaded img rs → outcome ≡ Loaded.loads rs
      accepts rs l =
          choice-loads header (all_ok img wanted) wanted (IsElf-header l.elf)
            (All-all_ok img wanted
              (subst (λ (l : List UserRegion). All (λ r. IsFitting img r) l) l.first l.fitting))
            (λ e. l.some_one (l.first ∙ e))
          ∙ ap Loaded.loads (sym l.first)

-- For a file in which the table of program headers ends below 2^64: the loader reads no byte behind
-- the end, and it accepts the file with the list of segments `rs` exactly if the file is at least 64
-- bytes long, starts with the magic bytes of a 64-bit little-endian ELF file, is for x86-64, has a
-- table of program headers that is not empty, has entries of at least 56 bytes and lies in the file,
-- and `rs` are its first seven segments of type PT_LOAD, or all if there are fewer, at least one, in
-- order and with the fields as they stand in the file, each of which starts below the kernel's half of
-- the addresses and has its bytes' end, modulo 2^64, in the file.
pub elf_regions-IsLoaded :
    (img : List ℕ)
    → (header_of img).phoff + (header_of img).phnum * (header_of img).phentsz < 2 ^ 64
    → (elf_regions img ≢ Loaded.strays)
      × ((rs : List UserRegion) → elf_regions img ≡ Loaded.loads rs → IsLoaded img rs)
      × ((rs : List UserRegion) → IsLoaded img rs → elf_regions img ≡ Loaded.loads rs)
unfolding header wanted
elf_regions-IsLoaded img lt =
    subst
      (λ (l : Loaded).
        (l ≢ Loaded.strays)
        × ((rs : List UserRegion) → l ≡ Loaded.loads rs → IsLoaded img rs)
        × ((rs : List UserRegion) → IsLoaded img rs → l ≡ Loaded.loads rs))
      (sym (elf_regions-expected img lt)) (choice-IsLoaded img lt)
