-- ===== src/Elf/Reference.antt =====
-- What a file asks kernel/elf.c to map, described without its loop: the first seven segments of type
-- PT_LOAD among the program headers.
use siathos.Prelude.{
  ℕ, zero, suc, ◌+◌, ◌-◌, ◌*◌, ◌<◌, ◌≤◌, ◌≡◌, ◌≢◌, inl, inr, refl, sym, ap, ◌∙◌, Bool, true, false,
  not, ◌&&◌, ◌||◌, Option, some, List, [], ◌∷◌, length, get_elem?_of_lt, get_or,
  get_or_of_get_elem?, take, leb, ltb, ◌==◌, ◌!=◌, if◌then◌else◌, ◌>>=◌, arith, Bool-cases,
}
use siathos.Elf.{
  read_le, u32, UserRegion, Header, Loaded, offset_range, max_regions, is_elf64, read_header,
  header_ok, header_at, read_region, region_ok, put_first, take_region, load_round, load_loop,
  not_empty, load_header, elf_regions,
}

-- The little-endian number of `k` bytes at `p`, with 0 for a byte behind the end.
abbrev pub number : ℕ → List ℕ → ℕ → ℕ
number zero img p = 0
number (suc k) img p = get_or img p 0 + 256 * number k img (suc p)

abbrev pub region_at : List ℕ → ℕ → UserRegion
region_at img p = record {
  vaddr = number 8 img (p + 16);
  src = number 8 img (p + 8);
  file_size = number 8 img (p + 32);
  mem_size = number 8 img (p + 40);
  flags = number 4 img (p + 4);
}

abbrev pub header_of : List ℕ → Header
header_of img = record {
  machine = number 2 img 18;
  entry = number 8 img 24;
  phoff = number 8 img 32;
  phentsz = number 2 img 54;
  phnum = number 2 img 56;
}

abbrev pub place : Header → ℕ → ℕ
place h i = h.phoff + i * h.phentsz

-- The segments of type PT_LOAD among the `left` program headers from the `i`-th on.
abbrev pub segments : ℕ → ℕ → List ℕ → Header → List UserRegion
segments zero i img h = []
segments (suc left) i img h =
    let rest = segments left (suc i) img h in
    if number 4 img (place h i) != 1 then rest else region_at img (place h i) ∷ rest

abbrev pub all_ok : List ℕ → List UserRegion → Bool
all_ok img [] = true
all_ok img (r ∷ rs) = region_ok img r && all_ok img rs

abbrev pub verdict : List ℕ → List UserRegion → Loaded
verdict img rs = if all_ok img rs then Loaded.loads rs else Loaded.refused

abbrev pub expected : List ℕ → Loaded
expected img =
    if leb 64 (length img) && is_elf64 img && header_ok img (header_of img)
    then not_empty
        (verdict img (take max_regions (segments (header_of img).phnum 0 img (header_of img))))
    else Loaded.refused

read_next :
    {o r : Option ℕ} {b n : ℕ}
    → o ≡ some b
    → r ≡ some n
    → (o >>= λ c. r >>= λ m. some (c + 256 * m)) ≡ some (b + 256 * n)
read_next e f = rw e (rw f refl)

read_le-number :
    (k : ℕ) (img : List ℕ) (p : ℕ) → p + k ≤ length img → read_le k img p ≡ some (number k img p)
unfolding read_le
read_le-number zero img p le = refl
read_le-number (suc k) img p le =
    let (b, e) = get_elem?_of_lt img p (omega (arith, le)) in
    read_next (e ∙ ap some (sym (get_or_of_get_elem? img p 0 e)))
      (read_le-number k img (suc p) (omega (arith, le)))

read_region_lem :
    (img : List ℕ) (p : ℕ) → p + 56 ≤ length img → read_region img p ≡ some (region_at img p)
read_region_lem img p le = rw (read_le-number 8 img (p + 8) (omega (arith, le))) (
    rw (read_le-number 8 img (p + 16) (omega (arith, le))) (
      rw (read_le-number 8 img (p + 32) (omega (arith, le))) (
        rw (read_le-number 8 img (p + 40) (omega (arith, le)))
          (rw (read_le-number 4 img (p + 4) (omega (arith, le))) refl))))

read_header_lem : (img : List ℕ) → 64 ≤ length img → read_header img ≡ some (header_of img)
read_header_lem img le = rw (read_le-number 2 img 18 (omega (arith, le))) (
    rw (read_le-number 8 img 24 (omega (arith, le))) (
      rw (read_le-number 8 img 32 (omega (arith, le))) (
        rw (read_le-number 2 img 54 (omega (arith, le)))
          (rw (read_le-number 2 img 56 (omega (arith, le))) refl))))

put_first-verdict :
    (img : List ℕ) (r : UserRegion) (rs : List UserRegion)
    → region_ok img r ≡ true
    → put_first r (verdict img rs) ≡ verdict img (r ∷ rs)
put_first-verdict img r rs ok = elim (Bool-cases (all_ok img rs)) [
  | inl all ↦ rw ok (rw all refl)
  | inr bad ↦ rw ok (rw bad refl)
]

take_region-verdict :
    (img : List ℕ) (room : ℕ) (r : UserRegion) (rs : List UserRegion) (rest : Loaded)
    → (room ≢ 0 → rest ≡ verdict img (take room rs))
    → take_region img (suc room) (some r) rest ≡ verdict img (take (suc room) (r ∷ rs))
take_region-verdict img zero r rs rest e = elim (Bool-cases (region_ok img r)) [
  | inl ok ↦ rw ok refl
  | inr bad ↦ rw bad refl
]
take_region-verdict img (suc room) r rs rest e = elim (Bool-cases (region_ok img r)) [
  | inl ok ↦
      ap (λ b. if not b then Loaded.refused else one_more (suc (suc room) == 1)) ok
      ∙ (ap one_more more
          ∙ (ap (put_first r) (e (omega arith)) ∙ put_first-verdict img r (take (suc room) rs) ok))
  | inr bad ↦ rw bad refl
]
  where
    one_more : Bool → Loaded
    one_more b = if b then Loaded.loads (r ∷ []) else put_first r rest

    more : (suc (suc room) == 1) ≡ false
    more = ground arith

load_round-verdict :
    (img : List ℕ) (p room : ℕ) (rs : List UserRegion) (skipped rest : Loaded)
    → p + 56 ≤ length img
    → skipped ≡ verdict img (take (suc room) rs)
    → (room ≢ 0 → rest ≡ verdict img (take room rs))
    → load_round img p (suc room) (some (number 4 img p)) skipped rest
      ≡ verdict img (take (suc room) (if number 4 img p != 1 then rs else region_at img p ∷ rs))
load_round-verdict img p room rs skipped rest le e f = elim (Bool-cases (number 4 img p != 1)) [
  | inl other ↦ rw other e
  | inr load ↦
      rw load
        (rw (read_region_lem img p le) (take_region-verdict img room (region_at img p) rs rest f))
]

predecessor : (n : ℕ) → n ≢ 0 → (k : ℕ) × (n ≡ suc k)
predecessor zero ne = absurd (ne refl)
predecessor (suc k) ne = (k, refl)

header_at-place : (h : Header) (i : ℕ) → place h i < offset_range → header_at h i ≡ place h i
header_at-place h i lt = omega (arith, lt)

load_loop-verdict :
    (left i room : ℕ) (img : List ℕ) (h : Header)
    → 56 ≤ h.phentsz
    → place h i + left * h.phentsz ≤ length img
    → place h i + left * h.phentsz < offset_range
    → load_loop left i (suc room) img h ≡ verdict img (take (suc room) (segments left i img h))
unfolding load_loop
load_loop-verdict zero i room img h size le lt = refl
load_loop-verdict (suc left) i room img h size le lt =
    let here : place h i + 56 ≤ length img = omega (arith, size, le) in
    let at : header_at h i ≡ place h i = header_at-place h i (omega (arith, lt)) in
    ap (λ p. load_round img p (suc room) (u32 img p) skipped rest) at
    ∙ (ap (λ o. load_round img (place h i) (suc room) o skipped rest)
          (read_le-number 4 img (place h i) (omega (arith, here)))
        ∙ load_round-verdict img (place h i) room (segments left (suc i) img h) skipped rest here
            (load_loop-verdict left (suc i) room img h size (omega (arith, le)) (omega (arith, lt)))
            (λ some_room.
              let (k, e) = predecessor room some_room in
              ap (λ n. load_loop left (suc i) n img h) (omega (arith, e))
              ∙ (load_loop-verdict left (suc i) k img h size (omega (arith, le)) (omega (arith, lt))
                  ∙ ap (λ n. verdict img (take n (segments left (suc i) img h))) (sym e))))
  where
    skipped : Loaded
    skipped = load_loop left (suc i) (suc room) img h

    rest : Loaded
    rest = load_loop left (suc i) (suc room - 1) img h

load_header-expected :
    (img : List ℕ) (h : Header)
    → h.phoff + h.phnum * h.phentsz < offset_range
    → load_header img (some h) ≡ (
        if header_ok img h
        then not_empty (verdict img (take max_regions (segments h.phnum 0 img h)))
        else Loaded.refused)
load_header-expected img h lt = elim (Bool-cases (header_ok img h)) [
  | inl ok ↦ rw ok (
      ap not_empty (
        load_loop-verdict h.phnum 0 6 img h (ground (arith, ok)) (ground (arith, ok, lt))
          (omega (arith, lt))))
  | inr bad ↦ rw bad refl
]

guards :
    (short long elf ok : Bool) (a b : Loaded)
    → long ≡ not short
    → (short ≡ false → a ≡ (if ok then b else Loaded.refused))
    → (if short || not elf then Loaded.refused else a)
      ≡ (if long && elf && ok then b else Loaded.refused)
guards true long elf ok a b e f = sym (ap (λ l. if l && elf && ok then b else Loaded.refused) e)
guards false long true ok a b e f =
    f refl ∙ sym (ap (λ l. if l && true && ok then b else Loaded.refused) e)
guards false long false ok a b e f =
    sym (ap (λ l. if l && false && ok then b else Loaded.refused) e)

-- The loop and its checks, by the code's own tests, in closed form.
pub elf_regions-expected :
    (img : List ℕ)
    → (header_of img).phoff + (header_of img).phnum * (header_of img).phentsz < offset_range
    → elf_regions img ≡ expected img
unfolding elf_regions
elf_regions-expected img lt =
    guards (ltb (length img) 64) (leb 64 (length img)) (is_elf64 img)
      (header_ok img (header_of img)) (load_header img (read_header img))
      (not_empty
        (verdict img (take max_regions (segments (header_of img).phnum 0 img (header_of img)))))
      (ground arith)
      (λ long.
        ap (load_header img) (read_header_lem img (ground (arith, long)))
        ∙ load_header-expected img (header_of img) lt)
